-- ===== src/Coordinate/RoutineSignal.antt =====
-- worker/src/coordinate/routine-signal.ts: what a routine reports directly, while its fire is pending.
use umbraco_mcp_ops.Prelude.{
  ℕ, String, Bool, true, false, not, ◌&&◌, Option, none, some, is_some, if◌then◌else◌,
}
use Prim.Native.String.{◌++◌ as join}
use umbraco_mcp_ops.Graph.Event.{watchdog_expired, event_name}
use umbraco_mcp_ops.Graph.Routine.{Routine, routine_name, same_routine}
use umbraco_mcp_ops.Graph.Json.{Engine, natural}
use umbraco_mcp_ops.Graph.Outcome.{Outcome}
use umbraco_mcp_ops.Graph.Translate.{
  Payload, bot_user, open_issue, issue_comment_created, blank_payload, outcome_event,
}
use umbraco_mcp_ops.Graph.RoundTrip.{written}
use umbraco_mcp_ops.Graph.Signal.{
  RoutineSignal, SignalKind, RoutineUpdate, UpdateKind, parse_signal,
}
use umbraco_mcp_ops.Coordinate.DeriveState.{settled}
use umbraco_mcp_ops.Graph.Table.{untracked}
use umbraco_mcp_ops.Coordinate.Types.{
  domain, PendingFire, done, step, outcome_refused, invalid_outcome, outcome_invalid,
  routine_blocked, run_blocked, run_ended, Deps, Input, routine_signal, Call, CoordinateResult,
  is_applied, deps_for, mode_for,
}
use umbraco_mcp_ops.Coordinate.Steps.{
  Step, pure, read, attempt, perform_live, clock, when, ◌>>=◌, ◌>>◌,
}
use umbraco_mcp_ops.Coordinate.Storage.{
  set_pending_fire, clear_pending_fire, get_pending_fire, mark_completed, set_rework_expired,
  record_status,
}
use umbraco_mcp_ops.Coordinate.Apply.{row, log_row}
use umbraco_mcp_ops.Coordinate.OutcomeDedupe.{ReportedOutcome, was_applied, log_deduped, other_time}
use umbraco_mcp_ops.Coordinate.Webhook.{coordinate_webhook}
use umbraco_mcp_ops.Coordinate.Recovery.{recover_outcome}
use umbraco_mcp_ops.Coordinate.Watchdog.{WatchdogResult, expired, expire_pending_fire}

pub data SignalResult : Type 0 where
  invalid_signal no_pending_fire heartbeat_extended completion_acknowledged : SignalResult
  mismatched_routine : Routine → Routine → SignalResult
  outcome_reported : CoordinateResult → SignalResult
  deduped blocked_noted blocked_already_noted : SignalResult
  ended_expired : WatchdogResult → SignalResult

-- `quote`.
abbrev pub quote : Engine → String → String
quote e text = e.slice 300 (e.trim (e.one_line text))

-- The item that a signal is for, as the input of the handlers that it shares with webhooks.
abbrev pub signal_input : ℕ → Input
signal_input n = record { item = n; delivery = none; actor = some routine_signal; payload = none }

-- `logInvalidOutcome`.
unfoldable pub log_invalid : Deps → RoutineSignal → SignalKind → Step (Unit {0})
log_invalid d s (SignalKind.outcome v) = log_row d (
    row (signal_input s.issue) (settled untracked) outcome_invalid none
      (some (routine_name s.routine))
      (some (invalid_outcome (d.outside.engine.slice 300 (d.outside.engine.stringify v))))
      (mode_for d outcome_invalid))
log_invalid d s other = pure tt

-- `logOutcomeRefused`; the reason names the routine that is running, if one is.
unfoldable pub log_refused : Deps → RoutineUpdate → Option Routine → UpdateKind → Step (Unit {0})
log_refused d u running (UpdateKind.outcome o) = log_row d (
    row (signal_input u.issue) (settled untracked) (domain (outcome_event o)) none
      (some (routine_name u.routine)) (some (outcome_refused running))
      (mode_for d (domain (outcome_event o))))
log_refused d u running other = pure tt

-- The outcome's comment, as the routine would post it.
abbrev outcome_body : Engine → PendingFire → Outcome → String
outcome_body e pending o = join "<!-- agent-outcome:" (
    join (routine_name pending.run)
      (join " -->\n```json\n" (join (e.escape_backticks (e.stringify (written o))) "\n```")))

abbrev shown_time : Engine → Option ℕ → String
shown_time e none = "unknown"
shown_time e (some t) = e.show (natural t)

-- A delivery id that is the fire and the outcome.
signal_id : Engine → PendingFire → Outcome → String
signal_id e pending o = join "routine-signal:" (
    join (routine_name pending.run)
      (join ":" (join (shown_time e pending.fired_at) (join ":" (event_name (outcome_event o))))))

abbrev pub outcome_payload : Engine → PendingFire → Outcome → Payload
outcome_payload e pending o = record (blank_payload issue_comment_created) {
  sender = some (record { login = "routine-signal"; user_type = bot_user });
  comment =
      some
        (record { body = outcome_body e pending o; association = none; user_type = some bot_user });
  issue = some (record { state = some open_issue; is_pr = some false });
}

unfoldable pub outcome_input : Deps → ℕ → PendingFire → Outcome → Input
unfolding signal_id
outcome_input d n pending o = record {
  item = n;
  delivery = some (signal_id d.outside.engine pending o);
  actor = some routine_signal;
  payload = some (outcome_payload d.outside.engine pending o);
}

-- Whether the fire of an earlier reading was neither ended nor replaced.
abbrev pub same_fire : PendingFire → Option PendingFire → Bool
same_fire p none = false
same_fire p (some q) =
    same_routine q.run p.run
    && (not (other_time q.fired_at p.fired_at) && not (other_time q.due_at p.due_at))

-- `markCompleted(new Date().toISOString())`.
abbrev pub complete_now : Deps → Step (Unit {0})
complete_now d = do at ← clock d; mark_completed at

unfoldable pub end_same_fire : PendingFire → Step (Unit {0})
end_same_fire pending = do
  same ← read (λ s. same_fire pending s.pending)
  when same (do clear_pending_fire; record_status done)

unfoldable pub complete_if_idle : Deps → Step (Unit {0})
complete_if_idle d = do fired ← read (λ s. is_some s.pending); when (not fired) (complete_now d)

unfoldable pub reported_as : Deps → PendingFire → CoordinateResult → Step SignalResult
reported_as d pending result = do
  when (is_applied result) (do end_same_fire pending; complete_if_idle d)
  pure (outcome_reported result)

-- `applyOutcome`.
unfoldable pub apply_outcome : Deps → ℕ → PendingFire → Outcome → Step SignalResult
apply_outcome d n pending o = do
  result ←
      coordinate_webhook d (outcome_input d n pending o)
        (outcome_payload d.outside.engine pending o)
  reported_as d pending result

-- The step that a signal reports, kept with the fire; it sets the alarm anew.
unfoldable pub report_step : Deps → PendingFire → String → Bool → Step (Unit {0})
report_step d pending said blocked = do
  at ← clock d
  set_pending_fire d
      (record pending { last_step = some said; last_step_at = some at; is_blocked = blocked })
  record_status (step said at)

-- `noteBlocked`.
unfoldable pub note_blocked : Deps → PendingFire → String → Step SignalResult
note_blocked d pending detail = do
  report_step d pending (join "blocked: " (quote d.outside.engine detail)) true
  if pending.is_blocked then pure blocked_already_noted else (do
    said ← attempt (
        perform_live (deps_for d routine_blocked)
          (Call.comment (run_blocked pending.run (quote d.outside.engine detail))))
    pure blocked_noted)

-- The expiry of a run whose session ended, unless its outcome's comment was found.
unfoldable pub end_unless :
    Deps → ℕ → PendingFire → String → Option CoordinateResult → Step SignalResult
end_unless d n pending detail (some result) = do
  set_rework_expired false
  pure (ended_expired (expired result))
end_unless d n pending detail none = do
  result ←
      expire_pending_fire d (signal_input n) pending
        (run_ended pending.run (quote d.outside.engine detail)) routine_signal
  pure (ended_expired (expired result))

-- `endFire`.
unfoldable pub end_fire : Deps → ℕ → PendingFire → String → Step SignalResult
end_fire d n pending detail = do
  found ←
      if d.enforced (domain watchdog_expired)
      then recover_outcome d (signal_input n) pending
      else pure none
  end_unless d n pending detail found

-- What a signal of the running routine does.
unfoldable pub handle_update : Deps → ℕ → PendingFire → UpdateKind → Step SignalResult
handle_update d n live (UpdateKind.process said) = do
  report_step d live said live.is_blocked
  pure heartbeat_extended
handle_update d n live (UpdateKind.completion o) = do
  clear_pending_fire
  complete_now d
  record_status done
  pure completion_acknowledged
handle_update d n live (UpdateKind.outcome o) = apply_outcome d n live o
handle_update d n live (UpdateKind.blocked detail) = note_blocked d live detail
handle_update d n live (UpdateKind.ended detail) = end_fire d n live detail

-- A fire that waits out a rate limit has no run yet.
abbrev pub live_unless : PendingFire → Option ℕ → Option PendingFire
live_unless p none = some p
live_unless p (some at) = none

abbrev pub live_fire : Option PendingFire → Option PendingFire
live_fire none = none
live_fire (some p) = live_unless p p.defer_until

unfoldable pub signal_for_run : Deps → RoutineUpdate → PendingFire → Bool → Step SignalResult
signal_for_run d u live true = handle_update d u.issue live u.kind
signal_for_run d u live false = do
  log_refused d u (some live.run) u.kind
  pure (mismatched_routine live.run u.routine)

unfoldable pub signal_for : Deps → RoutineUpdate → Option PendingFire → Step SignalResult
signal_for d u none = do log_refused d u none u.kind; pure no_pending_fire
signal_for d u (some live) = signal_for_run d u live (same_routine live.run u.routine)

unfoldable pub signal_pending : Deps → RoutineUpdate → Step SignalResult
signal_pending d u = do pending ← get_pending_fire; signal_for d u (live_fire pending)

unfoldable pub signal_fresh : Deps → RoutineUpdate → ReportedOutcome → Bool → Step SignalResult
signal_fresh d u reported true = do
  logged ← log_deduped d (signal_input u.issue) reported
  pure deduped
signal_fresh d u reported false = signal_pending d u

-- An outcome whose comment was applied first is over.
unfoldable pub signal_update : Deps → RoutineUpdate → UpdateKind → Step SignalResult
signal_update d u (UpdateKind.outcome o) = do
  let reported : ReportedOutcome = record {
    routine = routine_name u.routine;
    outcome = outcome_event o;
  }
  again ← read (was_applied reported)
  signal_fresh d u reported again
signal_update d u other = signal_pending d u

unfoldable pub signal_parsed : Deps → RoutineSignal → Option RoutineUpdate → Step SignalResult
signal_parsed d s none = do log_invalid d s s.kind; pure invalid_signal
signal_parsed d s (some u) = signal_update d u u.kind

-- `coordinateRoutineSignal`.
unfoldable pub coordinate_signal : Deps → RoutineSignal → Step SignalResult
coordinate_signal d s = signal_parsed d s (parse_signal s)
