-- ===== src/Intake/Guarded.antt =====
-- What the front door (worker/src/index.ts) lets in, and where it passes it on.
use umbraco_mcp_ops.Prelude.{
  String, ◌≡◌, ◌≢◌, refl, ap, Bool, true, false, not, Option, none, some, [], eq_iff, Bool-cases,
  Option-cases, inl, inr, is_some,
}
use Prim.Native.String.{◌++◌ as join}
use umbraco_mcp_ops.Graph.Json.{Json, null, text, bool, number, array, object}
use umbraco_mcp_ops.Coordinate.Types.{ok}
use umbraco_mcp_ops.Overrides.{field_of}
use umbraco_mcp_ops.Intake.Signature.{verify_signature, expected}
use umbraco_mcp_ops.Intake.SignatureExact.{verify_signature_iff}
use umbraco_mcp_ops.Intake.FrontDoor.{
  names_item, forged_under, FrontEnv, Delivery, Around, turned_away, handle_webhook, handle_signal,
  is_unauthorized, bears, signal_read, pass_signal, is_stateful,
}

false_of : (b : Bool) → b ≢ true → b ≡ false
false_of true h = absurd (h refl)
false_of false h = refl

forged_as :
    (out : Around) (r : Delivery) (s : Option String) (secret : String)
    → s ≡ some secret
    → r.signature ≢ some (expected (out.hmac secret r.body))
    → forged_under out r s ≡ true
forged_as out r s secret e h =
    let v = verify_signature (out.hmac secret r.body) r.signature in
    let no : v ≡ false =
      false_of v (λ k. h ((verify_signature_iff (out.hmac secret r.body) r.signature).0 k)) in
    rw (e, no) refl

-- Where a webhook secret is set, a delivery whose signature is not that of its body is turned away
-- as unauthorized before anything else: the scheduler is not woken, nothing is recorded, and no
-- coordinator is called.
handle_webhook-forged :
    (env : FrontEnv) (out : Around) (r : Delivery) (secret : String)
    → env.webhook_secret ≡ some secret
    → r.signature ≢ some (expected (out.hmac secret r.body))
    → handle_webhook env out r ≡ (ok (turned_away 401), [])
unfolding handle_webhook
handle_webhook-forged env out r secret e h = rw (forged_as out r env.webhook_secret secret e h) refl

bears_iff :
    (secret : String) (a : Option String) → bears secret a ≡ true → a ≡ some (join "Bearer " secret)
bears_iff secret none h = cc
bears_iff secret (some a) h = ap some ((eq_iff a (join "Bearer " secret)).0 h)

pass_signal-kept :
    (env : FrontEnv) (out : Around) (v : Json)
    → env.signal_secret ≡ none
    → is_stateful (field_of "kind" (field_of "signal" (some v))) ≡ true
    → (pass_signal env out v).1 ≡ []
unfolding pass_signal
pass_signal-kept env out v e k = elim (Bool-cases (not (names_item v))) [
  | inl h ↦ rw h refl
  | inr h ↦ rw (h, ap (λ s. not (is_some s)) e, k) refl
]

unguarded-kept :
    (env : FrontEnv) (out : Around) (v : Json)
    → env.signal_secret ≡ none
    → is_stateful (field_of "kind" (field_of "signal" (some v))) ≡ true
    → (signal_read env out (some v)).1 ≡ []
unfolding signal_read
unguarded-kept env out null e k = refl
unguarded-kept env out (bool b) e k = pass_signal-kept env out (bool b) e k
unguarded-kept env out (number n) e k = pass_signal-kept env out (number n) e k
unguarded-kept env out (text t) e k = pass_signal-kept env out (text t) e k
unguarded-kept env out (array vs) e k = pass_signal-kept env out (array vs) e k
unguarded-kept env out (object fs) e k = pass_signal-kept env out (object fs) e k

-- A signal of a kind that changes the item's state (an outcome, a block, an end) is passed on to a
-- coordinator only where a secret is set and the request bears it.
pub handle_signal-guarded :
    (env : FrontEnv) (out : Around) (r : Delivery) (v : Json)
    → out.engine.parse_json r.body ≡ some v
    → is_stateful (field_of "kind" (field_of "signal" (some v))) ≡ true
    → (handle_signal env out r).1 ≢ []
    → (secret : String) × (env.signal_secret ≡ some secret)
      × (r.authorization ≡ some (join "Bearer " secret))
unfolding handle_signal
handle_signal-guarded env out r v q k h = elim (Option-cases env.signal_secret) [
  | inl e ↦
      let free = ap (λ s. is_unauthorized s r.authorization) e in
      absurd (h (rw (free, q) (unguarded-kept env out v e k)))
  | inr (secret, e) ↦ (
    secret,
    e,
    elim (Bool-cases (bears secret r.authorization)) [
      | inl b ↦ bears_iff secret r.authorization b
      | inr b ↦ absurd (h (rw (e, b) refl))
    ],
  )
]
