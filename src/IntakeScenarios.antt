-- ===== src/IntakeScenarios.antt =====
-- The theorems on what reaches the Worker, and on the call that starts a routine.
use umbraco_mcp_ops.Prelude.{◌≡◌, ◌≢◌, ◌↔◌, refl, none, some, true, [], ◌∷◌, String, zero, suc}
use Prim.Native.String.{◌++◌ as join}
use umbraco_mcp_ops.Graph.Json.{Engine, get, Json, field, end, text, object}
use umbraco_mcp_ops.Coordinate.Types.{ok}
use umbraco_mcp_ops.Overrides.{field_of, entry_for, entry_in, find_entry}
use umbraco_mcp_ops.RoutinesClient.{
  routine_target_for, fire_at, fire_from, is_truthy, Api, accepted, answered, fire_routine,
  is_transient,
}
use umbraco_mcp_ops.RoutinesClient.Attempts.{FiredFor, fire_routine-FiredFor}
use umbraco_mcp_ops.Intake.Signature.{verify_signature, expected}
use umbraco_mcp_ops.Intake.SignatureExact.{verify_signature_iff}
use umbraco_mcp_ops.Intake.FrontDoor.{
  FrontEnv, Delivery, Around, handle_signal, signal_read, pass_signal, is_stateful,
}
use umbraco_mcp_ops.Intake.Guarded.{handle_signal-guarded}
use umbraco_mcp_ops.Fixtures.{engine}

-- The API fails once, then accepts.
abbrev flaky : Api
flaky = record {
  reply = λ k. elim k [ zero ↦ answered 503 "try later" | suc n ↦ accepted ];
  now = λ k. 1000000;
  asked_wait = λ s. none;
  show = λ n. "503";
  target = "acme/app (route=rework-loop)";
}

-- REPO_ROUTINES_JSON, for one repo.
abbrev routines : Json
routines = object (
    field "acme/app"
      (object (field "fireUrl" (text "https://api.example") (field "token" (text "t0k3n") end)))
      end)

abbrev reading : Engine
reading = record engine { parse_json = λ s. some routines }

-- The second call is accepted.
calls_twice : (fire_routine reading (λ s. s) "{}" "acme/app" flaky).calls ≡ 2
unfolding fire_routine routine_target_for entry_for entry_in find_entry get is_truthy fire_at
    fire_from is_transient
calls_twice = refl

fire_routine-FiredFor_example :
    FiredFor flaky
      (routine_target_for reading (λ s. s) "{}" "acme/app")
      (fire_routine reading (λ s. s) "{}" "acme/app" flaky)
fire_routine-FiredFor_example = fire_routine-FiredFor reading (λ s. s) "{}" "acme/app" flaky

verify_signature_iff_example :
    (verify_signature (171 ∷ 5 ∷ []) (some (expected (171 ∷ 5 ∷ []))) ≡ true)
    ↔ (some (expected (171 ∷ 5 ∷ [])) ≡ some (expected (171 ∷ 5 ∷ [])))
verify_signature_iff_example = verify_signature_iff (171 ∷ 5 ∷ []) (some (expected (171 ∷ 5 ∷ [])))

abbrev secured : FrontEnv
secured = record {
  webhook_secret = some "s3cret";
  signal_secret = none;
  log_read_secret = none;
  log_read_repos = none;
  has_scheduler = true;
}

-- A body that reports an outcome.
abbrev reported : Json
reported = object (
    field "owner" (text "acme")
      (field "repo" (text "app") (field "signal" (object (field "kind" (text "outcome") end)) end)))

abbrev around : Around
around = record {
  engine = record engine { parse_json = λ s. some reported };
  hmac = λ secret body. 171 ∷ 5 ∷ [];
  listed = λ s. [];
  lower = λ s. s;
  open_pulls = λ o r sha. ok [];
  passed_on = λ k. ok 200;
}

abbrev unsigned : Delivery
unsigned = record {
  body = "{}";
  signature = none;
  event = some "issues";
  delivery = some "d-1";
  authorization = none;
}

-- The same settings with a secret for the signals, and a request that bears it.
abbrev keyed : FrontEnv
keyed = record secured { signal_secret = some "k3y" }

abbrev bearing : Delivery
bearing = record unsigned { authorization = some "Bearer k3y" }

its_kind : is_stateful (field_of "kind" (field_of "signal" (some reported))) ≡ true
unfolding get
its_kind = refl

passes : (handle_signal keyed around bearing).1 ≢ []
unfolding handle_signal signal_read pass_signal is_truthy get
passes = λ e. cc

handle_signal-guarded_example :
    (secret : String) × (keyed.signal_secret ≡ some secret)
    × (bearing.authorization ≡ some (join "Bearer " secret))
handle_signal-guarded_example =
    handle_signal-guarded keyed around bearing reported refl its_kind passes
