-- ===== src/Coordinate/OutcomeDedupe.antt =====
-- worker/src/coordinate/outcome-dedupe.ts: one outcome, two carriers.
use umbraco_mcp_ops.Prelude.{
  ℕ, String, Bool, true, false, not, ◌&&◌, Option, none, some, str_eq, ◌==◌, if◌then◌else◌, is_some,
}
use umbraco_mcp_ops.Graph.Event.{Event, same_event}
use umbraco_mcp_ops.Graph.Routine.{routine_name}
use umbraco_mcp_ops.Graph.Json.{Engine}
use umbraco_mcp_ops.Graph.Outcome.{Outcome}
use umbraco_mcp_ops.Graph.Translate.{
  Action, issue_comment_created, Payload, body_of, parse_artifact, outcome_event,
}
use umbraco_mcp_ops.Coordinate.DeriveState.{derive_state}
use umbraco_mcp_ops.Coordinate.Types.{
  domain, PendingFire, AppliedOutcome, already_applied, Deps, Store, Input, CoordinateResult,
  deduped, mode_for,
}
use umbraco_mcp_ops.Coordinate.Steps.{Step, pure, read, ask, when, ◌>>=◌, ◌>>◌}
use umbraco_mcp_ops.Coordinate.Storage.{set_applied_outcome}
use umbraco_mcp_ops.Coordinate.Apply.{row, log_row}

-- `ReportedOutcome`. An outcome's name is the name of its event.
pub record ReportedOutcome : Type 0 where
  pub routine : String
  pub outcome : Event

reported_in : Option Outcome → Option String → Option ReportedOutcome
reported_in (some o) (some r) = some (record { routine = r; outcome = outcome_event o })
reported_in _ _ = none

abbrev marker_in : Engine → Option String → Option String
marker_in e none = none
marker_in e (some b) = e.marker b

is_comment : Action → Bool
is_comment issue_comment_created = true
is_comment _ = false

-- `reportedOutcome`.
unfoldable pub reported_outcome : Engine → Payload → Option ReportedOutcome
unfolding reported_in is_comment
reported_outcome e p =
    if is_comment p.action
    then reported_in (parse_artifact e (body_of p.comment)) (marker_in e (body_of p.comment))
    else none

-- `(a ?? null) !== (b ?? null)`, for times.
abbrev pub other_time : Option ℕ → Option ℕ → Bool
other_time none none = false
other_time (some a) (some b) = not (a == b)
other_time _ _ = true

-- Whether a newer fire of the routine than the remembered one is pending.
abbrev pub newer_fire : String → Option ℕ → Option PendingFire → Bool
newer_fire routine fired none = false
newer_fire routine fired (some p) =
    str_eq (routine_name p.run) routine && other_time p.fired_at fired

unfoldable pub same_outcome : Option AppliedOutcome → ReportedOutcome → Option PendingFire → Bool
same_outcome none reported pending = false
same_outcome (some a) reported pending =
    same_event a.outcome reported.outcome && not (newer_fire reported.routine a.fired_at pending)

-- `alreadyApplied`.
unfoldable pub was_applied : ReportedOutcome → Store → Bool
unfolding same_outcome
was_applied reported s = same_outcome (s.applied reported.routine) reported s.pending

-- Whether an applied outcome ended the fire that was pending before it, and no newer fire of its
-- routine has started.
unfoldable pub ended_fire : ReportedOutcome → PendingFire → Option PendingFire → Bool
ended_fire reported before now =
    str_eq (routine_name before.run) reported.routine
    && (not (is_some before.defer_until) && not (newer_fire reported.routine before.fired_at now))

-- `rememberApplied`.
unfoldable pub remember_applied : ReportedOutcome → Option PendingFire → Step (Unit {0})
remember_applied reported none = pure tt
remember_applied reported (some before) = do
  ended ← read (λ s. ended_fire reported before s.pending)
  when ended (
      set_applied_outcome before.run (
        some (record { run = before.run; fired_at = before.fired_at; outcome = reported.outcome })))

-- `logDeduped`.
unfoldable pub log_deduped : Deps → Input → ReportedOutcome → Step CoordinateResult
log_deduped d input reported = do
  labels ← ask d.outside.labels
  log_row d (
      row input (derive_state labels) (domain reported.outcome) none (some reported.routine)
        (some (already_applied reported.routine reported.outcome))
        (mode_for d (domain reported.outcome)))
  pure deduped
