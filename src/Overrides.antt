-- ===== src/Overrides.antt =====
-- worker/src/coordinate/types.ts, `capsFor` and `watchdogOverrideFor`, and `deps` of
-- worker/src/issue-coordinator.ts, which reads them: the settings of one repo.
use umbraco_mcp_ops.Prelude.{
  ℕ, String, Bool, true, false, Option, none, some, leb, str_eq, if◌then◌else◌,
}
use umbraco_mcp_ops.Graph.Json.{
  Json, Fields, natural, null, bool, number, text, object, end, field, get, Engine,
}
use umbraco_mcp_ops.Coordinate.Types.{
  Caps, default_caps, Outside, Deps, refused, Answer, ok, thrown, resolve_enforced,
  watchdog_minutes_for,
}

-- `Object.entries(map).find(([key]) => key.toLowerCase() === want)?.[1]`, with `toLowerCase` given.
unfoldable pub find_entry : (String → String) → String → Fields → Option Json
find_entry lower want end = none
find_entry lower want (field k v fs) =
    let rest = find_entry lower want fs in if str_eq (lower k) want then some v else rest

-- The entry of a repo in what a setting holds. `Object.entries` throws on null; a value that is no
-- object has no key with a `/`.
unfoldable pub entry_in : (String → String) → String → Json → Answer (Option Json)
entry_in lower want null = thrown (refused "Cannot convert undefined or null to object")
entry_in lower want (object fs) = ok (find_entry lower want fs)
entry_in lower want _ = ok none

-- The entry in a setting's text; the message where it is no JSON.
unfoldable pub entry_for :
    Engine → (String → String) → String → String → String → Answer (Option Json)
entry_for e lower invalid want raw = elim (e.parse_json raw) [
  | none ↦ thrown (refused invalid)
  | some v ↦ entry_in lower want v
]

-- `v?.[k]` of a value that is not null.
abbrev pub field_of : String → Option Json → Option Json
field_of k (some (object fs)) = get k fs
field_of k _ = none

-- `pick`: a whole number of 1 or more, or the default.
unfoldable pub pick : Option Json → ℕ → ℕ
pick (some (number (natural n))) fallback = if leb 1 n then n else fallback
pick _ fallback = fallback

abbrev caps_from : Option Json → Caps
caps_from v = record {
  ci_fix_attempts = pick (field_of "ciFixAttempts" v) default_caps.ci_fix_attempts;
  review_reworks = pick (field_of "reviewReworks" v) default_caps.review_reworks;
  bot_review_reworks = pick (field_of "botReviewReworks" v) default_caps.bot_review_reworks;
}

abbrev caps_answer : Answer (Option Json) → Answer Caps
caps_answer (ok v) = ok (caps_from v)
caps_answer (thrown f) = thrown f

-- `capsFor`, of the setting's text, for the repo's name in lower case.
unfoldable pub caps_for : Engine → (String → String) → Option String → String → Answer Caps
caps_for e lower none want = ok default_caps
caps_for e lower (some raw) want =
    if str_eq raw ""
    then ok default_caps
    else caps_answer (entry_for e lower "CAP_OVERRIDES_JSON is not valid JSON" want raw)

-- `watchdogOverrideFor`.
unfoldable pub watchdog_override_for :
    Engine → (String → String) → Option String → String → Answer (Option Json)
watchdog_override_for e lower none want = ok none
watchdog_override_for e lower (some raw) want =
    if str_eq raw ""
    then ok none
    else entry_for e lower "WATCHDOG_OVERRIDES_JSON is not valid JSON" want raw

-- `override?.mode ?? env.WATCHDOG`; a mode that is no text is not "enforce".
abbrev pub mode_setting : Option Json → Option String → Option String
mode_setting none env = env
mode_setting (some null) env = env
mode_setting (some (text s)) env = some s
mode_setting (some _) env = some ""

-- `override?.minutes ?? watchdogMinutesFor(routine)`, for an override of whole minutes. A fraction, which
-- the source uses as it stands, is outside the model, and the default is taken.
abbrev pub minutes_setting : Option Json → ℕ → ℕ
minutes_setting (some (number (natural n))) default = n
minutes_setting _ default = default

-- `override?.retry === true`.
abbrev pub retry_setting : Option Json → Bool
retry_setting (some (bool b)) = b
retry_setting _ = false

-- The Worker's settings that the coordinator reads.
pub record Settings : Type 0 where
  pub mode : Option String
  pub watchdog : Option String
  pub cap_overrides : Option String
  pub watchdog_overrides : Option String

abbrev deps_with : Outside → Settings → Option Json → Caps → Deps
deps_with out env v caps = record {
  outside = out;
  live = true;
  enforced = resolve_enforced env.mode (mode_setting (field_of "mode" v) env.watchdog);
  caps = caps;
  watchdog_minutes = λ r. minutes_setting (field_of "minutes" v) (watchdog_minutes_for r);
  watchdog_retry = retry_setting (field_of "retry" v);
}

abbrev deps_capped : Outside → Settings → Option Json → Answer Caps → Answer Deps
deps_capped out env v (ok caps) = ok (deps_with out env v caps)
deps_capped out env v (thrown f) = thrown f

abbrev deps_answer :
    Outside → (String → String) → Settings → String → Answer (Option Json) → Answer Deps
deps_answer out lower env want (ok v) =
    deps_capped out env v (caps_for out.engine lower env.cap_overrides want)
deps_answer out lower env want (thrown f) = thrown f

-- `deps`, for a repo's name in lower case.
unfoldable pub deps_of : Outside → (String → String) → Settings → String → Answer Deps
deps_of out lower env want =
    deps_answer out lower env want
      (watchdog_override_for out.engine lower env.watchdog_overrides want)
