-- ===== src/WorkLogScenarios.antt =====
-- The theorems on the work log, at one token.
use umbraco_mcp_ops.Prelude.{
  ℕ, zero, suc, ◌+◌, ◌==◌, List, All, ap, ◌∙◌, ◌≢◌, arith, ◌≤◌, ◌≡◌, refl, none, some, false, [],
  ◌∷◌, str_eq, ltb, if◌then◌else◌,
}
use umbraco_mcp_ops.Graph.Json.{Json, field, end, text, object, get, natural, number}
use umbraco_mcp_ops.RoutinesClient.{is_truthy}
use umbraco_mcp_ops.Intake.Signature.{same_signature, differences}
use umbraco_mcp_ops.WorkLog.{
  Tools, Claims, Fire, minted_claims, expiry, mint_log_token, is_expired, claims_with, claims_in,
  payload_claims, token_claims, verify_log_token, claims_from, strip_padding, before_padding,
  split_dots, from_b64url,
}
use umbraco_mcp_ops.WorkLog.Codec.{Base64, IsPlain}
use umbraco_mcp_ops.WorkLog.Entries.{
  LogRequest, LogStep, begins, ends, Desk, count_for_token, after_steps, after_step, begin_add,
  finish_add, take_out, admit_claimed, admit_parsed, admit, add_entry, draft_in, with_body,
}
use umbraco_mcp_ops.WorkLog.Tokens.{verify_log_token-minted, IsSigned, verify_log_token-IsSigned}
use umbraco_mcp_ops.WorkLog.Capped.{in_flight, AtOnce, after_steps-max_entries}
use umbraco_mcp_ops.Fixtures.{engine}

abbrev build_fire : Fire
build_fire = record { owner = "acme"; repo = "app"; item_number = 42; routine = "issue-build-loop" }

-- One payload, one signature, and a token good for two hours.
abbrev its_claims : Json
its_claims = object (
    field "owner" (text "acme") (
      field "repo" (text "app") (
        field "item" (number (natural 42)) (
          field "routine" (text "issue-build-loop")
            (field "exp" (number (natural 8200000)) (field "jti" (text "r4nd0m") end))))))

abbrev an_entry : Json
an_entry = object (
    field "kind" (text "journal")
      (field "category" (text "assumption") (field "body" (text "kept the old name") end)))

-- A code of bytes in the units of "A" and "B", in place of base64: as many of the first as the byte says,
-- and one of the second.
abbrev byte_units : ℕ → List ℕ → List ℕ
byte_units zero rest = 66 ∷ rest
byte_units (suc n) rest = 65 ∷ byte_units n rest

abbrev write_units : List ℕ → List ℕ
write_units [] = []
write_units (b ∷ bs) = byte_units b (write_units bs)

abbrev read_units : ℕ → List ℕ → List ℕ
read_units n [] = []
read_units n (c ∷ cs) = if c == 66 then n ∷ read_units 0 cs else read_units (n + 1) cs

abbrev tools : Tools
tools = record {
  engine = record engine {
    parse_json = λ s. if str_eq s "claims" then some its_claims else some an_entry;
    trim = λ s. s;
    stringify = λ v. "claims";
  };
  hmac = λ secret s. 7 ∷ 9 ∷ [];
  btoa = write_units;
  atob = λ cs. some (read_units 0 cs);
  encode = λ s. 1 ∷ [];
  decode = λ bytes. "claims";
  lower = λ s. s;
  bearer = λ s. some (65 ∷ 66 ∷ 46 ∷ write_units (7 ∷ 9 ∷ []));
  has_line_end = λ s. false;
  is_whole = λ s. false;
  is_positive = λ s. false;
  is_before = λ s n. false;
  bound = λ v. "r4nd0m";
}

strip_byte_units :
    (n : ℕ) (rest : List ℕ) → strip_padding (byte_units n rest) ≡ byte_units n (strip_padding rest)
unfolding strip_padding
strip_byte_units zero rest = elim (strip_padding rest) as (λ r. before_padding 66 r ≡ 66 ∷ r) [
  | [] ↦ refl
  | x ∷ xs ↦ refl
]
strip_byte_units (suc n) rest =
    rw (strip_byte_units n rest)
      (elim n
        as (λ m.
          before_padding 65 (byte_units m (strip_padding rest))
          ≡ 65 ∷ byte_units m (strip_padding rest)) [ zero ↦ refl | suc m ↦ refl ])

strip_units : (bytes : List ℕ) → strip_padding (write_units bytes) ≡ write_units bytes
unfolding strip_padding
strip_units [] = refl
strip_units (b ∷ bs) = rw (strip_byte_units b (write_units bs), strip_units bs) refl

read_byte_units :
    (k n : ℕ) (rest : List ℕ) → read_units k (byte_units n rest) ≡ (k + n) ∷ read_units 0 rest
read_byte_units k zero rest = ap (λ m. m ∷ read_units 0 rest) (omega arith)
read_byte_units k (suc n) rest =
    rw (read_byte_units (k + 1) n rest) (ap (λ m. m ∷ read_units 0 rest) (omega arith))

read_written : (bytes : List ℕ) → read_units 0 (write_units bytes) ≡ bytes
read_written [] = refl
read_written (b ∷ bs) =
    rw (read_byte_units 0 b (write_units bs), read_written bs) (ap (λ m. m ∷ bs) (omega arith))

byte_units-IsPlain : (n : ℕ) (rest : List ℕ) → All IsPlain rest → All IsPlain (byte_units n rest)
byte_units-IsPlain zero rest h = (ground arith, h)
byte_units-IsPlain (suc n) rest h = (ground arith, byte_units-IsPlain n rest h)

write_units-IsPlain : (bytes : List ℕ) → All IsPlain (write_units bytes)
write_units-IsPlain [] = tt
write_units-IsPlain (b ∷ bs) = byte_units-IsPlain b (write_units bs) (write_units-IsPlain bs)

write_units-filled : (bytes : List ℕ) → bytes ≢ [] → write_units bytes ≢ []
write_units-filled [] h = absurd (h refl)
write_units-filled (zero ∷ bs) h = λ e. cc
write_units-filled (suc b ∷ bs) h = λ e. cc

tools_code : Base64 tools
tools_code = record {
  reads = λ bytes. ap some (ap (read_units 0) (strip_units bytes) ∙ read_written bytes);
  plain = write_units-IsPlain;
  full = λ bytes h. rw (strip_units bytes) (write_units-filled bytes h);
}

abbrev kept_claims : Claims
kept_claims = minted_claims tools build_fire (expiry 1000000 120) "r4nd0m"

abbrev its_token : List ℕ
its_token = mint_log_token tools "k3y" build_fire 120 1000000 "r4nd0m"

verify_log_token-minted_example :
    verify_log_token tools "k3y" its_token 2000000
    ≡ (if ltb (expiry 1000000 120) 2000000 then none else some kept_claims)
verify_log_token-minted_example =
    verify_log_token-minted tools "k3y" build_fire 120 1000000 2000000 "r4nd0m" tools_code
      (λ e. cc, refl) (λ s e. cc) (λ e. cc) (λ e. cc) (λ e. cc) (λ e. cc)

accepted_token : verify_log_token tools "k3y" its_token 2000000 ≡ some kept_claims
accepted_token =
    verify_log_token-minted tools "k3y" build_fire 120 1000000 2000000 "r4nd0m" tools_code
      (λ e. cc, refl) (λ s e. cc) (λ e. cc) (λ e. cc) (λ e. cc) (λ e. cc)

verify_log_token-IsSigned_example :
    IsSigned tools "k3y" (split_dots its_token) × (is_expired tools kept_claims.exp 2000000 ≡ false)
verify_log_token-IsSigned_example =
    verify_log_token-IsSigned tools "k3y" its_token 2000000 kept_claims accepted_token

-- One entry, posted twice at the same time.
abbrev post : LogRequest
post = record { now = 2000000; authorization = some "Bearer t0k3n"; body = "{}" }

abbrev two_at_once : List LogStep
two_at_once = begins post ∷ begins post ∷ ends 1 ∷ ends 0 ∷ []

abbrev empty_desk : Desk
empty_desk = record { log = record { entries = []; counted = [] }; waiting = [] }

two_entries :
    count_for_token (after_steps tools (some "k3y") two_at_once empty_desk).log.entries "r4nd0m" ≡ 2
unfolding after_steps after_step begin_add finish_add take_out admit_claimed admit_parsed admit
    add_entry draft_in with_body count_for_token claims_from verify_log_token token_claims
    payload_claims claims_in claims_with get is_truthy same_signature differences split_dots
    from_b64url
two_entries = refl

two_on_their_way : AtOnce tools (some "k3y") 2 "r4nd0m" two_at_once empty_desk
unfolding after_steps after_step begin_add finish_add take_out admit_claimed admit_parsed admit
    add_entry draft_in with_body count_for_token claims_from verify_log_token token_claims
    payload_claims claims_in claims_with get is_truthy same_signature differences split_dots
    from_b64url in_flight
two_on_their_way = (omega arith, (omega arith, (omega arith, (omega arith, omega arith))))

after_steps-max_entries_example :
    count_for_token (after_steps tools (some "k3y") two_at_once empty_desk).log.entries "r4nd0m"
    ≤ 49 + 2
after_steps-max_entries_example =
    after_steps-max_entries tools (some "k3y") 2 "r4nd0m" two_at_once two_on_their_way
