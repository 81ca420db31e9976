-- ===== src/Coordinate/Preserve/Watchdog.antt =====
-- Invariants of the handlers in Coordinate/Watchdog (worker/src/coordinate/watchdog.ts).
use umbraco_mcp_ops.Prelude.{ℕ, Bool, Option, none, some}
use umbraco_mcp_ops.Coordinate.DeriveState.{Derived}
use umbraco_mcp_ops.Coordinate.Types.{
  World, Deps, Input, PendingFire, Notice, Actor, Answer, ok, thrown, Failure, CoordinateResult,
}
use umbraco_mcp_ops.Coordinate.Apply.{FireOutcome, sent, deferred}
use umbraco_mcp_ops.Coordinate.Watchdog.{
  expire_pending_fire, expire_watched, WatchdogResult, retried_as, retry_once,
  report_deferred_failed, drop_deferred, deferred_as, send_deferred, deferred_alarm,
  retry_or_expire, silent_alarm, recovered_or, due_alarm, alarm_of, coordinate_watchdog,
}
use umbraco_mcp_ops.Coordinate.Preserve.{Preserves, Frame, Acts, Claims, step_rules}
use umbraco_mcp_ops.Coordinate.Preserve.Apply.{
  apply_event-Preserves, fire_watched-Preserves, fire_unwatched-Preserves,
}
use umbraco_mcp_ops.Coordinate.Preserve.Recovery.{recover_outcome-Preserves}

module _ {P : World → Type 0} {d : Deps} where
  pub expire_pending_fire-Preserves :
      (input : Input) (p : PendingFire) (say : Bool → Notice) (by : Actor)
      → Frame P d
      → Preserves P (expire_pending_fire d input p say by)
  unfolding expire_pending_fire
  expire_pending_fire-Preserves input p say by F =
      search (step_rules, apply_event-Preserves) depth 30

  pub expire_watched-Preserves :
      (input : Input) (p : PendingFire) → Frame P d → Preserves P (expire_watched d input p)
  unfolding expire_watched
  expire_watched-Preserves input p F = search (step_rules, expire_pending_fire-Preserves) depth 30

  retried_as-Preserves :
      (input : Input) (p : PendingFire) (a : Answer FireOutcome)
      → Frame P d
      → Acts P d
      → Preserves P (retried_as d input p a)
  unfolding retried_as
  retried_as-Preserves input p (thrown e) F A = search step_rules depth 30
  retried_as-Preserves input p (ok deferred) F A = search step_rules depth 30
  retried_as-Preserves input p (ok sent) F A = search step_rules depth 30

  retry_once-Preserves :
      (input : Input) (p : PendingFire) → Frame P d → Acts P d → Preserves P (retry_once d input p)
  unfolding retry_once
  retry_once-Preserves input p F A =
      search (step_rules, fire_watched-Preserves, retried_as-Preserves) depth 30

  report_deferred_failed-Preserves :
      (input : Input) (p : PendingFire) (e : Failure)
      → Frame P d
      → Acts P d
      → Preserves P (report_deferred_failed d input p e)
  unfolding report_deferred_failed
  report_deferred_failed-Preserves input p e F A = search step_rules depth 30

  drop_deferred-Preserves :
      (input : Input) (p : PendingFire) (state : Derived)
      → Frame P d
      → Acts P d
      → Preserves P (drop_deferred d input p state)
  unfolding drop_deferred
  drop_deferred-Preserves input p state F A = search step_rules depth 30

  deferred_as-Preserves :
      (input : Input) (p : PendingFire) (state : Derived) (a : Answer FireOutcome)
      → Frame P d
      → Acts P d
      → Preserves P (deferred_as d input p state a)
  unfolding deferred_as
  deferred_as-Preserves input p state (ok deferred) F A = search step_rules depth 30
  deferred_as-Preserves input p state (ok sent) F A = search step_rules depth 30
  deferred_as-Preserves input p state (thrown e) F A =
      search (step_rules, report_deferred_failed-Preserves) depth 30

  send_deferred-Preserves :
      (input : Input) (p : PendingFire) (state : Derived)
      → Frame P d
      → Acts P d
      → Preserves P (send_deferred d input p state)
  unfolding send_deferred
  send_deferred-Preserves input p state F A =
      search
        (
          step_rules, fire_watched-Preserves, fire_unwatched-Preserves, deferred_as-Preserves,
          drop_deferred-Preserves,
        )
        depth 30

  deferred_alarm-Preserves :
      (input : Input) (p : PendingFire)
      → Frame P d
      → Acts P d
      → Preserves P (deferred_alarm d input p)
  unfolding deferred_alarm
  deferred_alarm-Preserves input p F A = search (step_rules, send_deferred-Preserves) depth 30

  retry_or_expire-Preserves :
      (input : Input) (p : PendingFire) (r : Option WatchdogResult)
      → Frame P d
      → Preserves P (retry_or_expire d input p r)
  unfolding retry_or_expire
  retry_or_expire-Preserves input p (some r) F = search step_rules depth 30
  retry_or_expire-Preserves input p none F = expire_watched-Preserves input p F

  silent_alarm-Preserves :
      (input : Input) (p : PendingFire)
      → Frame P d
      → Acts P d
      → Preserves P (silent_alarm d input p)
  unfolding silent_alarm
  silent_alarm-Preserves input p F A =
      search (step_rules, retry_once-Preserves, retry_or_expire-Preserves, expire_watched-Preserves)
        depth 30

  recovered_or-Preserves :
      (input : Input) (p : PendingFire) (found : Option CoordinateResult)
      → Frame P d
      → Acts P d
      → Preserves P (recovered_or d input p found)
  unfolding recovered_or
  recovered_or-Preserves input p (some r) F A = search step_rules depth 30
  recovered_or-Preserves input p none F A = silent_alarm-Preserves input p F A

  due_alarm-Preserves :
      (input : Input) (p : PendingFire)
      → Frame P d
      → Acts P d
      → Claims P
      → Preserves P (due_alarm d input p)
  unfolding due_alarm
  due_alarm-Preserves input p F A C =
      search
        (step_rules, deferred_alarm-Preserves, recover_outcome-Preserves, recovered_or-Preserves)
        depth 30

  alarm_of-Preserves :
      (input : Input) (now : ℕ) (q : Option PendingFire)
      → Frame P d
      → Acts P d
      → Claims P
      → Preserves P (alarm_of d input now q)
  unfolding alarm_of
  alarm_of-Preserves input now none F A C = search step_rules depth 30
  alarm_of-Preserves input now (some p) F A C = search (step_rules, due_alarm-Preserves) depth 30

  -- An invariant of every call that the alarm makes is one of the alarm.
  pub coordinate_watchdog-Preserves :
      (input : Input) → Frame P d → Acts P d → Claims P → Preserves P (coordinate_watchdog d input)
  unfolding coordinate_watchdog
  coordinate_watchdog-Preserves input F A C = search (step_rules, alarm_of-Preserves) depth 30
