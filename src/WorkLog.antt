-- ===== src/WorkLog.antt =====
-- worker/src/work-log.ts: the token that a fire carries, and the requests that add to the log and read
-- it; and of worker/src/db/log-entries.ts the count of a token's entries and the row that is added.
-- That a call of the database fails is not modelled.
pub mod Entries
pub mod Capped
pub mod Codec
pub mod Tokens
use umbraco_mcp_ops.Prelude.{
  ℕ, map, ◌++◌, zero, suc, ◌+◌, ◌*◌, String, Bool, true, false, not, ◌&&◌, ◌||◌, ◌==◌, ltb, leb,
  Option, none, some, List, [], ◌∷◌, ◌⊎◌, inl, inr, length, get_or, str_eq, if◌then◌else◌,
}
use Prim.Native.String.{◌++◌ as join}
use umbraco_mcp_ops.Graph.Json.{
  Json, Items, Number, natural, unusual, null, bool, number, text, array, object, nil, item, end,
  field, Engine, as_text, as_number,
}
use umbraco_mcp_ops.Coordinate.Types.{refused, Answer, ok, thrown}
use umbraco_mcp_ops.Overrides.{field_of}
use umbraco_mcp_ops.RoutinesClient.{is_truthy}
use umbraco_mcp_ops.Intake.Signature.{same_signature}

-- The platform's parts: HMAC-SHA256 of a text under a secret; `btoa` of the text of some bytes, and the
-- bytes that `atob` gives, which may throw; UTF-8; `toLowerCase`; the rest of a header that starts with
-- "Bearer "; whether a text has a line end; and of a number that is not natural, whether it is whole,
-- above zero, before a time. A token's text is the list of its UTF-16 units.
pub record Tools : Type 0 where
  pub engine : Engine
  pub hmac : String → List ℕ → List ℕ
  pub btoa : List ℕ → List ℕ
  pub atob : List ℕ → Option (List ℕ)
  pub encode : String → List ℕ
  pub decode : List ℕ → String
  pub lower : String → String
  pub bearer : String → Option (List ℕ)
  pub has_line_end : String → Bool
  pub is_whole : String → Bool
  pub is_positive : String → Bool
  pub is_before : String → ℕ → Bool
  -- A value as the text that the database keeps of it.
  pub bound : Json → String

-- `.replace(/\+/g, "-").replace(/\//g, "_")`, of one unit, and `fromB64url`'s way back.
abbrev pub url_unit : ℕ → ℕ
url_unit c = if c == 43 then 45 else if c == 47 then 95 else c

abbrev pub base_unit : ℕ → ℕ
base_unit c = if c == 45 then 43 else if c == 95 then 47 else c

-- `.replace(/=+$/, "")`.
abbrev pub before_padding : ℕ → List ℕ → List ℕ
before_padding c [] = if c == 61 then [] else c ∷ []
before_padding c (d ∷ ds) = c ∷ d ∷ ds

unfoldable pub strip_padding : List ℕ → List ℕ
strip_padding [] = []
strip_padding (c ∷ cs) = before_padding c (strip_padding cs)

-- `b64url` and `fromB64url`.
unfoldable pub b64url : Tools → List ℕ → List ℕ
b64url tools bytes = strip_padding (map url_unit (tools.btoa bytes))

unfoldable pub from_b64url : Tools → List ℕ → Option (List ℕ)
from_b64url tools s = tools.atob (map base_unit s)

-- `token.split(".")`.
abbrev pub put_unit : ℕ → List (List ℕ) → List (List ℕ)
put_unit c [] = (c ∷ []) ∷ []
put_unit c (part ∷ parts) = (c ∷ part) ∷ parts

unfoldable pub split_dots : List ℕ → List (List ℕ)
split_dots [] = [] ∷ []
split_dots (c ∷ cs) = let rest = split_dots cs in if c == 46 then [] ∷ rest else put_unit c rest

-- MAX_BODY_BYTES, MAX_ENTRIES_PER_TOKEN.
abbrev pub max_body_bytes : ℕ
max_body_bytes = 4096

abbrev pub max_entries : ℕ
max_entries = 50

-- What a token is made for.
pub record Fire : Type 0 where
  pub owner : String
  pub repo : String
  pub item_number : ℕ
  pub routine : String

-- `LogClaims`, as they are read back.
pub record Claims : Type 0 where
  pub owner : Json
  pub repo : Json
  pub item_number : Number
  pub routine : Json
  pub exp : Number
  pub jti : Json

abbrev or_undefined : Option Json → Json
or_undefined none = null
or_undefined (some v) = v

abbrev pub minted_claims : Tools → Fire → ℕ → String → Claims
minted_claims tools f exp jti = record {
  owner = text (tools.lower f.owner);
  repo = text (tools.lower f.repo);
  item_number = natural f.item_number;
  routine = text f.routine;
  exp = natural exp;
  jti = text jti;
}

abbrev pub claims_object : Claims → Json
claims_object c = object (
    field "owner" c.owner (
      field "repo" c.repo (
        field "item" (number c.item_number)
          (field "routine" c.routine (field "exp" (number c.exp) (field "jti" c.jti end))))))

-- `now + ttlMinutes * 60_000`.
abbrev pub expiry : ℕ → ℕ → ℕ
expiry now ttl = now + ttl * 60000

abbrev pub payload_of : Tools → Claims → List ℕ
payload_of tools c = b64url tools (tools.encode (tools.engine.stringify (claims_object c)))

-- A payload with its signature.
abbrev pub signed : Tools → String → List ℕ → List ℕ
signed tools secret payload = payload ++ 46 ∷ b64url tools (tools.hmac secret payload)

-- `mintLogToken`, for a random id.
unfoldable pub mint_log_token : Tools → String → Fire → ℕ → ℕ → String → List ℕ
mint_log_token tools secret f ttl now jti =
    signed tools secret (payload_of tools (minted_claims tools f (expiry now ttl) jti))

-- `claims.exp < now`.
abbrev pub is_expired : Tools → Number → ℕ → Bool
is_expired tools (natural n) now = ltb n now
is_expired tools (unusual s) now = tools.is_before s now

-- `Number.isInteger`.
abbrev is_integer : Tools → Number → Bool
is_integer tools (natural n) = true
is_integer tools (unusual s) = tools.is_whole s

-- `claims.owner && claims.repo && ...`: nothing of the claims is missing.
abbrev pub is_complete : Tools → Json → Number → Bool
is_complete tools v n =
    is_truthy (field_of "owner" (some v))
    && (is_truthy (field_of "repo" (some v))
        && (is_integer tools n
            && (is_truthy (field_of "routine" (some v)) && is_truthy (field_of "jti" (some v)))))

unfoldable pub claims_with : Tools → ℕ → Json → Option Number → Option Number → Option Claims
claims_with tools now v (some exp) (some n) =
    if is_expired tools exp now
    then none
    else if is_complete tools v n
    then some (record {
      owner = or_undefined (field_of "owner" (some v));
      repo = or_undefined (field_of "repo" (some v));
      item_number = n;
      routine = or_undefined (field_of "routine" (some v));
      exp = exp;
      jti = or_undefined (field_of "jti" (some v));
    })
    else none
claims_with tools now v _ _ = none

-- The claims in a payload, where they are complete and not expired; a key of null throws, and is caught.
unfoldable pub claims_in : Tools → ℕ → Option Json → Option Claims
claims_in tools now none = none
claims_in tools now (some v) =
    claims_with tools now v (as_number (field_of "exp" (some v)))
      (as_number (field_of "item" (some v)))

abbrev read_payload : Tools → Option (List ℕ) → Option Json
read_payload tools none = none
read_payload tools (some bytes) = tools.engine.parse_json (tools.decode bytes)

-- A payload under a signature, which is compared over its whole length.
unfoldable pub payload_claims : Tools → String → ℕ → List ℕ → Option (List ℕ) → Option Claims
payload_claims tools secret now payload none = none
payload_claims tools secret now payload (some given) =
    if not (same_signature given (tools.hmac secret payload))
    then none
    else claims_in tools now (read_payload tools (from_b64url tools payload))

-- `const [payload, sig, ...rest]`: two parts, neither of them empty.
unfoldable pub token_claims : Tools → String → ℕ → List (List ℕ) → Option Claims
token_claims tools secret now ((p ∷ ps) ∷ (s ∷ ss) ∷ []) =
    payload_claims tools secret now (p ∷ ps) (from_b64url tools (s ∷ ss))
token_claims tools secret now _ = none

-- `verifyLogToken`.
unfoldable pub verify_log_token : Tools → String → List ℕ → ℕ → Option Claims
verify_log_token tools secret token now = token_claims tools secret now (split_dots token)

-- `claimsFrom`: the claims, or the status of a refusal.
unfoldable pub claims_from : Tools → Option String → ℕ → Option String → ℕ ⊎ Claims
claims_from tools none now header = inl 404
claims_from tools (some secret) now header = elim (tools.bearer (get_or header "")) [
  | none ↦ inl 401
  | some token ↦ elim (verify_log_token tools secret token now) [ none ↦ inl 401 | some c ↦ inr c ]
]
