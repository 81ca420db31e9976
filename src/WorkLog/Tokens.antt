-- ===== src/WorkLog/Tokens.antt =====
-- The tokens of the work log (worker/src/work-log.ts): what is minted is read back, and what is read was
-- signed.
use umbraco_mcp_ops.Prelude.{
  ℕ, ◌≡◌, ◌≢◌, String, false, Option, none, some, List, [], ◌∷◌, str_eq, eq_iff, ltb, Bool-cases,
  inl, inr, ap, sym, refl, if◌then◌else◌,
}
use umbraco_mcp_ops.Graph.Json.{Json, Number, get, as_number}
use umbraco_mcp_ops.Overrides.{field_of}
use umbraco_mcp_ops.RoutinesClient.{is_truthy}
use umbraco_mcp_ops.Intake.Signature.{same_signature}
use umbraco_mcp_ops.Intake.SignatureExact.{same_signature_iff}
use umbraco_mcp_ops.WorkLog.Codec.{
  Base64, b64url-back, b64url-IsNoDot, b64url-filled, split_dots-two,
}
use umbraco_mcp_ops.WorkLog.{
  b64url, from_b64url, split_dots, Tools, Claims, Fire, minted_claims, claims_object, expiry,
  payload_of, mint_log_token, is_expired, is_complete, claims_with, claims_in, read_payload,
  payload_claims, token_claims, verify_log_token,
}

str_eq-false : (s t : String) → s ≢ t → str_eq s t ≡ false
str_eq-false s t h = elim (Bool-cases (str_eq s t)) [
  | inl e ↦ absurd (h ((eq_iff s t).0 e))
  | inr e ↦ e
]

-- The claims of an object that `mintLogToken` writes.
claims_in-minted :
    (tools : Tools) (f : Fire) (exp at : ℕ) (jti : String)
    → tools.lower f.owner ≢ ""
    → tools.lower f.repo ≢ ""
    → f.routine ≢ ""
    → jti ≢ ""
    → claims_in tools at (some (claims_object (minted_claims tools f exp jti)))
      ≡ (if ltb exp at then none else some (minted_claims tools f exp jti))
unfolding claims_in claims_with get is_truthy
claims_in-minted tools f exp at jti o p r j =
    rw
      (
        str_eq-false (tools.lower f.owner) "" o,
        str_eq-false (tools.lower f.repo) "" p,
        str_eq-false f.routine "" r,
        str_eq-false jti "" j,
      )
      refl

token_claims-two :
    (tools : Tools) (secret : String) (at : ℕ) (p s : List ℕ)
    → p ≢ []
    → s ≢ []
    → token_claims tools secret at (p ∷ s ∷ [])
      ≡ payload_claims tools secret at p (from_b64url tools s)
unfolding token_claims
token_claims-two tools secret at [] s h k = absurd (h refl)
token_claims-two tools secret at (p ∷ ps) [] h k = absurd (k refl)
token_claims-two tools secret at (p ∷ ps) (s ∷ ss) h k = refl

payload_claims-own :
    (tools : Tools) (secret : String) (at : ℕ) (payload : List ℕ)
    → payload_claims tools secret at payload (some (tools.hmac secret payload))
      ≡ claims_in tools at (read_payload tools (from_b64url tools payload))
unfolding payload_claims
payload_claims-own tools secret at payload =
    rw ((same_signature_iff (tools.hmac secret payload) (tools.hmac secret payload)).1 refl) refl

-- A token minted for a fire is read back, at any time, under the same secret: as its claims until
-- it expires, as none after. The conditions are that `btoa` and `atob` do what they are documented
-- to, that UTF-8 and JSON give back the claims that were written with them, that neither the bytes
-- of these nor those of the HMAC are none, and that none of the claims' texts is empty.
pub verify_log_token-minted :
    (tools : Tools) (secret : String) (f : Fire) (ttl now at : ℕ) (jti : String)
    → Base64 tools
    → (let c = minted_claims tools f (expiry now ttl) jti in
        let bytes = tools.encode (tools.engine.stringify (claims_object c)) in
        (bytes ≢ []) × (tools.engine.parse_json (tools.decode bytes) ≡ some (claims_object c)))
    → ((payload : List ℕ) → tools.hmac secret payload ≢ [])
    → tools.lower f.owner ≢ ""
    → tools.lower f.repo ≢ ""
    → f.routine ≢ ""
    → jti ≢ ""
    → verify_log_token tools secret (mint_log_token tools secret f ttl now jti) at ≡ (
        if ltb (expiry now ttl) at then none else some (minted_claims tools f (expiry now ttl) jti))
unfolding verify_log_token mint_log_token
verify_log_token-minted tools secret f ttl now at jti b (filled, back) mac o p r j =
    let c = minted_claims tools f (expiry now ttl) jti in
    let bytes = tools.encode (tools.engine.stringify (claims_object c)) in
    let payload = payload_of tools c in
    let sum = tools.hmac secret payload in
    rw
      (
        split_dots-two payload (b64url tools sum) (b64url-IsNoDot tools bytes b)
            (b64url-IsNoDot tools sum b),
        token_claims-two tools secret at payload (b64url tools sum)
            (b64url-filled tools bytes b filled) (b64url-filled tools sum b (mac payload)),
        b64url-back tools sum b,
        payload_claims-own tools secret at payload,
        b64url-back tools bytes b,
        back,
      )
      (claims_in-minted tools f (expiry now ttl) at jti o p r j)

abbrev exp_of : Number → Option Claims → Number
exp_of e none = e
exp_of e (some c) = c.exp

claims_with-live :
    (tools : Tools) (at : ℕ) (v : Json) (e n : Option Number) (c : Claims)
    → claims_with tools at v e n ≡ some c
    → is_expired tools c.exp at ≡ false
unfolding claims_with
claims_with-live tools at v none n c h = cc
claims_with-live tools at v (some e) none c h = cc
claims_with-live tools at v (some e) (some n) c h = elim (Bool-cases (is_expired tools e at)) [
  | inl k ↦ absurd (cc (rw k at h))
  | inr k ↦ elim (Bool-cases (is_complete tools v n)) [
    | inl b ↦ let same : e ≡ c.exp = ap (exp_of e) (rw (k, b) at h) in rw (← same) k
    | inr b ↦ absurd (cc (rw (k, b) at h))
  ]
]

claims_in-live :
    (tools : Tools) (at : ℕ) (v : Option Json) (c : Claims)
    → claims_in tools at v ≡ some c
    → is_expired tools c.exp at ≡ false
unfolding claims_in
claims_in-live tools at none c h = cc
claims_in-live tools at (some v) c h =
    claims_with-live tools at v (as_number (field_of "exp" (some v)))
      (as_number (field_of "item" (some v))) c h

payload_claims-signed :
    (tools : Tools) (secret : String) (at : ℕ) (payload : List ℕ) (given : Option (List ℕ))
    (c : Claims)
    → payload_claims tools secret at payload given ≡ some c
    → (given ≡ some (tools.hmac secret payload)) × (is_expired tools c.exp at ≡ false)
unfolding payload_claims
payload_claims-signed tools secret at payload none c h = cc
payload_claims-signed tools secret at payload (some given) c h =
    elim (Bool-cases (same_signature given (tools.hmac secret payload))) [
      | inl e ↦ (
        ap some ((same_signature_iff given (tools.hmac secret payload)).0 e),
        claims_in-live tools at (read_payload tools (from_b64url tools payload)) c (rw e at h),
      )
      | inr e ↦ absurd (cc (sym (rw e at h)))
    ]

-- A token as its two parts, the second of them the signature of the first.
abbrev pub IsSigned : Tools → String → List (List ℕ) → Type 0
IsSigned tools secret parts =
    (payload : List ℕ) × (sig : List ℕ) × (parts ≡ payload ∷ sig ∷ [])
    × (from_b64url tools sig ≡ some (tools.hmac secret payload))

token_claims-IsSigned :
    (tools : Tools) (secret : String) (at : ℕ) (parts : List (List ℕ)) (c : Claims)
    → token_claims tools secret at parts ≡ some c
    → IsSigned tools secret parts × (is_expired tools c.exp at ≡ false)
unfolding token_claims
token_claims-IsSigned tools secret at [] c h = cc
token_claims-IsSigned tools secret at ([] ∷ []) c h = cc
token_claims-IsSigned tools secret at ((p ∷ ps) ∷ []) c h = cc
token_claims-IsSigned tools secret at ([] ∷ s ∷ ss) c h = cc
token_claims-IsSigned tools secret at ((p ∷ ps) ∷ [] ∷ ss) c h = cc
token_claims-IsSigned tools secret at ((p ∷ ps) ∷ (s ∷ ss) ∷ (t ∷ ts)) c h = cc
token_claims-IsSigned tools secret at ((p ∷ ps) ∷ (s ∷ ss) ∷ []) c h =
    let r = payload_claims-signed tools secret at (p ∷ ps) (from_b64url tools (s ∷ ss)) c h in
    ((p ∷ ps, s ∷ ss, refl, r.0), r.1)

-- A token is taken only where it is two parts, the second of which is the signature of the first
-- under the secret, and only while it has not expired.
pub verify_log_token-IsSigned :
    (tools : Tools) (secret : String) (token : List ℕ) (at : ℕ) (c : Claims)
    → verify_log_token tools secret token at ≡ some c
    → IsSigned tools secret (split_dots token) × (is_expired tools c.exp at ≡ false)
unfolding verify_log_token
verify_log_token-IsSigned tools secret token at c h =
    token_claims-IsSigned tools secret at (split_dots token) c h
