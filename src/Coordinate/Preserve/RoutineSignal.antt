-- ===== src/Coordinate/Preserve/RoutineSignal.antt =====
-- Invariants of the handlers in Coordinate/RoutineSignal (worker/src/coordinate/routine-signal.ts).
use umbraco_mcp_ops.Prelude.{ℕ, String, Bool, true, false, Option, none, some}
use umbraco_mcp_ops.Graph.Outcome.{Outcome}
use umbraco_mcp_ops.Graph.Routine.{Routine, same_routine}
use umbraco_mcp_ops.Graph.Signal.{
  RoutineSignal, SignalKind, RoutineUpdate, UpdateKind, parse_signal,
}
use umbraco_mcp_ops.Coordinate.Types.{World, Deps, PendingFire, CoordinateResult, routine_blocked}
use umbraco_mcp_ops.Coordinate.Storage.{set_pending_fire}
use umbraco_mcp_ops.Coordinate.OutcomeDedupe.{ReportedOutcome}
use umbraco_mcp_ops.Coordinate.RoutineSignal.{
  log_invalid, log_refused, complete_now, end_same_fire, complete_if_idle, reported_as,
  apply_outcome, report_step, note_blocked, end_unless, end_fire, handle_update, signal_for_run,
  signal_for, signal_pending, signal_fresh, signal_update, signal_parsed, coordinate_signal,
}
use umbraco_mcp_ops.Coordinate.Preserve.{
  Preserves, Frame, Claims, step_rules, arm_live-Preserves, Frame-Core,
}
use umbraco_mcp_ops.Coordinate.Preserve.Webhook.{coordinate_webhook-Preserves}
use umbraco_mcp_ops.Coordinate.Preserve.OutcomeDedupe.{log_deduped-Preserves}
use umbraco_mcp_ops.Coordinate.Preserve.Recovery.{recover_outcome-Preserves}
use umbraco_mcp_ops.Coordinate.Preserve.Watchdog.{expire_pending_fire-Preserves}

module _ {P : World → Type 0} {d : Deps} where
  log_invalid-Preserves :
      (s : RoutineSignal) (k : SignalKind) → Frame P d → Preserves P (log_invalid d s k)
  unfolding log_invalid
  log_invalid-Preserves s (SignalKind.outcome v) F = search step_rules depth 30
  log_invalid-Preserves s (SignalKind.process t) F = search step_rules depth 30
  log_invalid-Preserves s (SignalKind.completion v) F = search step_rules depth 30
  log_invalid-Preserves s (SignalKind.blocked v) F = search step_rules depth 30
  log_invalid-Preserves s (SignalKind.ended v) F = search step_rules depth 30

  log_refused-Preserves :
      (u : RoutineUpdate) (running : Option Routine) (k : UpdateKind)
      → Frame P d
      → Preserves P (log_refused d u running k)
  unfolding log_refused
  log_refused-Preserves u running (UpdateKind.outcome o) F = search step_rules depth 30
  log_refused-Preserves u running (UpdateKind.process t) F = search step_rules depth 30
  log_refused-Preserves u running (UpdateKind.completion o) F = search step_rules depth 30
  log_refused-Preserves u running (UpdateKind.blocked t) F = search step_rules depth 30
  log_refused-Preserves u running (UpdateKind.ended t) F = search step_rules depth 30

  complete_now-Preserves : Frame P d → Preserves P (complete_now d)
  complete_now-Preserves F = search step_rules depth 30

  end_same_fire-Preserves : (p : PendingFire) → Frame P d → Preserves P (end_same_fire p)
  unfolding end_same_fire
  end_same_fire-Preserves p F = search step_rules depth 30

  complete_if_idle-Preserves : Frame P d → Preserves P (complete_if_idle d)
  unfolding complete_if_idle
  complete_if_idle-Preserves F = search step_rules depth 30

  reported_as-Preserves :
      (p : PendingFire) (r : CoordinateResult) → Frame P d → Preserves P (reported_as d p r)
  unfolding reported_as
  reported_as-Preserves p r F =
      search (step_rules, end_same_fire-Preserves, complete_if_idle-Preserves) depth 30

  apply_outcome-Preserves :
      (n : ℕ) (p : PendingFire) (o : Outcome)
      → Frame P d
      → Claims P
      → Preserves P (apply_outcome d n p o)
  unfolding apply_outcome
  apply_outcome-Preserves n p o F C =
      search (step_rules, coordinate_webhook-Preserves, reported_as-Preserves) depth 30

  report_step-Preserves :
      (p : PendingFire) (said : String) (blocked : Bool)
      → Frame P d
      → Preserves P (report_step d p said blocked)
  unfolding report_step
  report_step-Preserves p said blocked F =
      let arm : (info : PendingFire) → Preserves P (set_pending_fire d info) =
        λ info. arm_live-Preserves routine_blocked info (Frame-Core F) in
      search (step_rules, arm) depth 30

  note_blocked-Preserves :
      (p : PendingFire) (detail : String) → Frame P d → Preserves P (note_blocked d p detail)
  unfolding note_blocked
  note_blocked-Preserves p detail F = search (step_rules, report_step-Preserves) depth 30

  end_unless-Preserves :
      (n : ℕ) (p : PendingFire) (detail : String) (found : Option CoordinateResult)
      → Frame P d
      → Preserves P (end_unless d n p detail found)
  unfolding end_unless
  end_unless-Preserves n p detail (some r) F = search step_rules depth 30
  end_unless-Preserves n p detail none F =
      search (step_rules, expire_pending_fire-Preserves) depth 30

  end_fire-Preserves :
      (n : ℕ) (p : PendingFire) (detail : String)
      → Frame P d
      → Claims P
      → Preserves P (end_fire d n p detail)
  unfolding end_fire
  end_fire-Preserves n p detail F C =
      search (step_rules, recover_outcome-Preserves, end_unless-Preserves) depth 30

  handle_update-Preserves :
      (n : ℕ) (p : PendingFire) (k : UpdateKind)
      → Frame P d
      → Claims P
      → Preserves P (handle_update d n p k)
  unfolding handle_update
  handle_update-Preserves n p (UpdateKind.process t) F C =
      search (step_rules, report_step-Preserves) depth 30
  handle_update-Preserves n p (UpdateKind.completion o) F C =
      search (step_rules, complete_now-Preserves) depth 30
  handle_update-Preserves n p (UpdateKind.outcome o) F C = apply_outcome-Preserves n p o F C
  handle_update-Preserves n p (UpdateKind.blocked t) F C = note_blocked-Preserves p t F
  handle_update-Preserves n p (UpdateKind.ended t) F C = end_fire-Preserves n p t F C

  signal_for_run-Preserves :
      (u : RoutineUpdate) (p : PendingFire) (same : Bool)
      → Frame P d
      → Claims P
      → Preserves P (signal_for_run d u p same)
  unfolding signal_for_run
  signal_for_run-Preserves u p true F C = handle_update-Preserves u.issue p u.kind F C
  signal_for_run-Preserves u p false F C = search (step_rules, log_refused-Preserves) depth 30

  signal_for-Preserves :
      (u : RoutineUpdate) (q : Option PendingFire)
      → Frame P d
      → Claims P
      → Preserves P (signal_for d u q)
  unfolding signal_for
  signal_for-Preserves u none F C = search (step_rules, log_refused-Preserves) depth 30
  signal_for-Preserves u (some p) F C =
      signal_for_run-Preserves u p (same_routine p.run u.routine) F C

  signal_pending-Preserves :
      (u : RoutineUpdate) → Frame P d → Claims P → Preserves P (signal_pending d u)
  unfolding signal_pending
  signal_pending-Preserves u F C = search (step_rules, signal_for-Preserves) depth 30

  signal_fresh-Preserves :
      (u : RoutineUpdate) (r : ReportedOutcome) (again : Bool)
      → Frame P d
      → Claims P
      → Preserves P (signal_fresh d u r again)
  unfolding signal_fresh
  signal_fresh-Preserves u r true F C = search (step_rules, log_deduped-Preserves) depth 30
  signal_fresh-Preserves u r false F C = signal_pending-Preserves u F C

  signal_update-Preserves :
      (u : RoutineUpdate) (k : UpdateKind)
      → Frame P d
      → Claims P
      → Preserves P (signal_update d u k)
  unfolding signal_update
  signal_update-Preserves u (UpdateKind.outcome o) F C =
      search (step_rules, signal_fresh-Preserves) depth 30
  signal_update-Preserves u (UpdateKind.process t) F C = signal_pending-Preserves u F C
  signal_update-Preserves u (UpdateKind.completion o) F C = signal_pending-Preserves u F C
  signal_update-Preserves u (UpdateKind.blocked t) F C = signal_pending-Preserves u F C
  signal_update-Preserves u (UpdateKind.ended t) F C = signal_pending-Preserves u F C

  signal_parsed-Preserves :
      (s : RoutineSignal) (u : Option RoutineUpdate)
      → Frame P d
      → Claims P
      → Preserves P (signal_parsed d s u)
  unfolding signal_parsed
  signal_parsed-Preserves s none F C = search (step_rules, log_invalid-Preserves) depth 30
  signal_parsed-Preserves s (some u) F C = signal_update-Preserves u u.kind F C

  pub coordinate_signal-Preserves :
      (s : RoutineSignal) → Frame P d → Claims P → Preserves P (coordinate_signal d s)
  unfolding coordinate_signal
  coordinate_signal-Preserves s F C = signal_parsed-Preserves s (parse_signal s) F C
