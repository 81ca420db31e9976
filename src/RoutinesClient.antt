-- ===== src/RoutinesClient.antt =====
-- worker/src/routines-client.ts: the call that starts a routine, and its retries.
pub mod Attempts
use umbraco_mcp_ops.Prelude.{
  ℕ, zero, suc, ◌+◌, ◌*◌, String, Bool, true, false, not, ◌&&◌, ◌||◌, ◌==◌, ltb, Option, none, some,
  List, [], ◌∷◌, get_or, str_eq, if◌then◌else◌,
}
use Prim.Native.String.{◌++◌ as join}
use umbraco_mcp_ops.Graph.Json.{
  Json, Number, natural, unusual, null, bool, number, text, array, object, Engine,
}
use umbraco_mcp_ops.Coordinate.Types.{Failure, rate_limited, refused, Answer, ok, thrown}
use umbraco_mcp_ops.Overrides.{entry_for, field_of}

-- Whether JavaScript takes a value as true.
unfoldable pub is_truthy : Option Json → Bool
is_truthy none = false
is_truthy (some null) = false
is_truthy (some (bool b)) = b
is_truthy (some (number (natural n))) = not (n == 0)
is_truthy (some (number (unusual s))) = not (str_eq s "-0" || str_eq s "NaN")
is_truthy (some (text s)) = not (str_eq s "")
is_truthy (some (array v)) = true
is_truthy (some (object v)) = true

pub record RoutineTarget : Type 0 where
  pub fire_url : Option Json
  pub token : Option Json

abbrev target_in : Answer (Option Json) → Answer RoutineTarget
target_in (thrown f) = thrown f
target_in (ok v) =
    if is_truthy (field_of "fireUrl" v) && is_truthy (field_of "token" v)
    then ok (record { fire_url = field_of "fireUrl" v; token = field_of "token" v })
    else thrown (refused "No loop-dispatch routine (fireUrl + token) configured")

-- `routineTargetFor`, for the repo's name in lower case.
unfoldable pub routine_target_for :
    Engine → (String → String) → String → String → Answer RoutineTarget
routine_target_for e lower raw want =
    target_in (entry_for e lower "REPO_ROUTINES_JSON is not valid JSON" want raw)

-- What one call comes to: accepted, an answer with another status and its text, or a network error.
pub data Reply : Type 0 where
  accepted : Reply
  answered : ℕ → String → Reply
  network_error : String → Reply

-- MAX_ATTEMPTS, RETRY_DELAY_MS, DEFAULT_RATE_LIMIT_WAIT_MS, RATE_LIMIT_SLACK_MS.
abbrev pub max_attempts : ℕ
max_attempts = 3

abbrev pub retry_delay : ℕ
retry_delay = 1000

abbrev pub default_wait : ℕ
default_wait = 1800000

abbrev pub wait_slack : ℕ
wait_slack = 60000

-- `retryAfterMs`, of the hours, minutes and seconds that its pattern captures, absent ones as 0.
unfoldable pub retry_after : Option (ℕ × ℕ × ℕ) → Option ℕ
retry_after none = none
retry_after (some (h, m, s)) =
    let ms = (h * 3600 + m * 60 + s) * 1000 in if ltb 0 ms then some ms else none

-- What the API's calls answer, in order; the time of an answer; the pattern of a wait in its text; a
-- status in a text; and what is fired, as the messages name it (`owner/repo (route=...)`).
pub record Api : Type 0 where
  pub reply : ℕ → Reply
  pub now : ℕ → ℕ
  pub asked_wait : String → Option (ℕ × ℕ × ℕ)
  pub show : ℕ → String
  pub target : String

-- `lastError`, and the two messages around it.
abbrev last_error : Api → Reply → String
last_error api accepted = ""
last_error api (answered status said) = join (api.show status) (join " " said)
last_error api (network_error m) = m

abbrev limited_message : Api → Reply → String
limited_message api r =
    join "Routine fire rate-limited for " (join api.target (join ": " (last_error api r)))

abbrev failed_message : Api → Reply → String
failed_message api r =
    join "Routine fire failed for " (join api.target (join ": " (last_error api r)))

-- When to try again after a rate limit.
abbrev pub retry_at : Api → ℕ → String → ℕ
retry_at api k said =
    api.now k + (get_or (retry_after (api.asked_wait said)) default_wait + wait_slack)

-- How a fire ended, after how many calls, and how long it waited between them.
pub record Fired : Type 0 where
  pub result : Answer (Unit {0})
  pub calls : ℕ
  pub waited : ℕ

-- Whether a reply is worth another call: a network error, or a status of 500 or more.
unfoldable pub is_transient : Reply → Bool
is_transient accepted = false
is_transient (answered status said) = not (status == 429) && not (ltb status 500)
is_transient (network_error m) = true

-- The end that a reply gives.
unfoldable pub ended_by : Api → ℕ → Reply → Answer (Unit {0})
ended_by api k accepted = ok tt
ended_by api k (answered status said) =
    if status == 429
    then thrown (rate_limited (limited_message api (answered status said)) (retry_at api k said))
    else thrown (refused (failed_message api (answered status said)))
ended_by api k (network_error m) = thrown (refused (failed_message api (network_error m)))

-- The loop of `fireRoutine`: the attempts left, and those made. It waits only before another one.
unfoldable pub fire_from : Api → ℕ → ℕ → ℕ → Fired
fire_from api zero made waited = record {
  result = thrown (refused "");
  calls = made;
  waited = waited;
}
fire_from api (suc zero) made waited = record {
  result = ended_by api made (api.reply made);
  calls = made + 1;
  waited = waited;
}
fire_from api (suc (suc left)) made waited =
    let again = fire_from api (suc left) (made + 1) (waited + retry_delay * (made + 1)) in
    if is_transient (api.reply made)
    then again
    else record { result = ended_by api made (api.reply made); calls = made + 1; waited = waited }

-- A fire for a target, which makes no call where there is none.
unfoldable pub fire_at : Api → Answer RoutineTarget → Fired
fire_at api (thrown f) = record { result = thrown f; calls = 0; waited = 0 }
fire_at api (ok target) = fire_from api max_attempts 0 0

-- `fireRoutine`, of a repo's name in lower case and the text of REPO_ROUTINES_JSON.
unfoldable pub fire_routine : Engine → (String → String) → String → String → Api → Fired
fire_routine e lower raw want api = fire_at api (routine_target_for e lower raw want)
