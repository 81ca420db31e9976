-- ===== src/Coordinate/Watchdog.antt =====
-- worker/src/coordinate/watchdog.ts: the alarm of a pending fire.
use umbraco_mcp_ops.Coordinate.Recovery.{recover_outcome}
use umbraco_mcp_ops.Prelude.{
  ℕ, ◌+◌, ◌*◌, ◌/◌, Bool, true, false, not, ◌&&◌, Option, none, some, List, any, min, ltb, is_some,
  get_or, if◌then◌else◌,
}
use umbraco_mcp_ops.Graph.Event.{watchdog_expired}
use umbraco_mcp_ops.Graph.Label.{Name, ai_stuck}
use umbraco_mcp_ops.Graph.Routine.{Routine, routine_name, same_routine, rework_loop}
use umbraco_mcp_ops.Graph.Table.{State, untracked, Rule, rules, same_state}
use umbraco_mcp_ops.Graph.Reduce.{is_watched}
use umbraco_mcp_ops.Coordinate.DeriveState.{Derived, settled, ambiguous, derive_state}
use umbraco_mcp_ops.Coordinate.Types.{
  Row, no_effect, watchdog_retried, deferred_fire_refused, enforce, RowName, domain, PendingFire,
  done, transition, Dropped, not_wanted, Notice, run_expired, run_retried, deferred_fire_failed,
  Failure, Answer, ok, thrown, Call, Deps, Input, Actor, watchdog, CoordinateResult, is_applied,
  deps_for,
}
use umbraco_mcp_ops.Coordinate.Steps.{
  Step, pure, throw, ask, attempt, perform_live, clock, when, ◌>>=◌, ◌>>◌,
}
use umbraco_mcp_ops.Coordinate.Storage.{
  fresh_fire, clear_pending_fire, get_pending_fire, set_rework_expired, record_status,
}
use umbraco_mcp_ops.Coordinate.Apply.{
  FireOutcome, sent, deferred, fire_watched, fire_unwatched, row, log_row, apply_event, message,
  target_of,
}
use umbraco_mcp_ops.Coordinate.Rework.{reads_as}

pub data WatchdogResult : Type 0 where
  no_pending_fire : WatchdogResult
  not_due : ℕ → WatchdogResult
  retried deferred_fire_sent deferred_fire_dropped deferred_again : Routine → WatchdogResult
  expired : CoordinateResult → WatchdogResult

-- The margin within which a pending fire counts as due: a minute, at most half of its timeout.
abbrev pub due_margin : Deps → Routine → ℕ
due_margin d run = min 60000 (d.watchdog_minutes run * 60000 / 2)

-- `pending.dueAt !== undefined && now < pending.dueAt - margin`; where the margin is more than the due
-- time, the difference is not positive and no time is before it.
abbrev pub too_early : ℕ → ℕ → Option ℕ → Bool
too_early margin now none = false
too_early margin now (some due) = ltb (now + margin) due

-- A rule that fires `run` and leads to, or stays in, the state.
abbrev leads_to : State → Routine → Rule → Bool
leads_to s run r = elim r.run [
  | none ↦ false
  | some q ↦ same_routine q run && same_state (target_of r.from r.to) s
]

-- `stillWanted`.
unfoldable pub still_wanted : Derived → Routine → Bool
still_wanted ambiguous run = true
still_wanted (settled s) run = any (leads_to s run) rules

-- Whether an expiry in this state moves the item to `ai-stuck`.
abbrev pub will_stick : Derived → Bool
will_stick ambiguous = false
will_stick (settled s) = is_watched s

abbrev pub is_derived_ambiguous : Derived → Bool
is_derived_ambiguous ambiguous = true
is_derived_ambiguous _ = false

-- `expirePendingFire`; `message` says the alert, given whether the item will be moved.
unfoldable pub expire_pending_fire :
    Deps → Input → PendingFire → (Bool → Notice) → Actor → Step CoordinateResult
expire_pending_fire d input pending message actor = do
  labels ← ask d.outside.labels
  let state = derive_state labels
  perform_live (deps_for d (domain watchdog_expired)) (Call.comment (message (will_stick state)))
  let enforced = d.enforced (domain watchdog_expired)
  when enforced (set_rework_expired (same_routine pending.run rework_loop))
  result ←
      apply_event d (record input { actor = some actor; delivery = none; payload = none })
        watchdog_expired labels
  when (enforced && (not (is_applied result) && not (reads_as ai_stuck state)))
      (set_rework_expired false)
  clear_pending_fire
  record_status done
  pure result

-- A row of the watchdog's own, enforced.
abbrev watchdog_row : Input → Derived → RowName → PendingFire → Option Dropped → Row
watchdog_row input from name pending why =
    record (row input from name (some no_effect) (some (routine_name pending.run)) why enforce) {
      delivery = none;
      actor = some "watchdog";
    }

-- `retryOnce`, once the fire answered; `none` where it was refused.
unfoldable pub retried_as :
    Deps → Input → PendingFire → Answer FireOutcome → Step (Option WatchdogResult)
retried_as d input pending (thrown e) = pure none
retried_as d input pending (ok deferred) = pure (some (deferred_again pending.run))
retried_as d input pending (ok sent) = do
  perform_live d (Call.comment (run_retried pending.run (d.watchdog_minutes pending.run)))
  log_row d (watchdog_row input (settled untracked) watchdog_retried pending none)
  record_status (transition (settled untracked) (some pending.run) true)
  pure (some (retried pending.run))

unfoldable pub retry_once : Deps → Input → PendingFire → Step (Option WatchdogResult)
retry_once d input pending = do
  answer ← attempt (fire_watched d input (record (fresh_fire pending.run) { retried = true }) false)
  retried_as d input pending answer

-- `reportDeferredFireFailed`, whose own errors are dropped.
unfoldable pub report_deferred_failed : Deps → Input → PendingFire → Failure → Step (Unit {0})
report_deferred_failed d input pending e = do
  let reason = d.outside.engine.slice 300 (message e)
  logged ← attempt (
      log_row d (
        watchdog_row input (settled untracked) deferred_fire_refused pending
          (some (Dropped.fire_refused reason))))
  said ← attempt (perform_live d (Call.comment (deferred_fire_failed pending.run reason)))
  pure tt

unfoldable pub drop_deferred : Deps → Input → PendingFire → Derived → Step WatchdogResult
drop_deferred d input pending state = do
  reported ← attempt (do
    log_row d (watchdog_row input state RowName.deferred_fire_dropped pending (some not_wanted))
    perform_live d (Call.comment (Notice.deferred_fire_dropped pending.run)))
  clear_pending_fire
  record_status done
  pure (WatchdogResult.deferred_fire_dropped pending.run)

unfoldable pub deferred_as :
    Deps → Input → PendingFire → Derived → Answer FireOutcome → Step WatchdogResult
deferred_as d input pending state (ok deferred) = pure (deferred_again pending.run)
deferred_as d input pending state (ok sent) = do
  when (not pending.unwatched && not (is_derived_ambiguous state))
      (record_status (transition state (some pending.run) true))
  pure (deferred_fire_sent pending.run)
deferred_as d input pending state (thrown e) = do
  report_deferred_failed d input pending e
  record_status done
  throw e

unfoldable pub send_deferred : Deps → Input → PendingFire → Derived → Step WatchdogResult
send_deferred d input pending state =
    if still_wanted state pending.run
    then (do
      answer ← attempt (
          if pending.unwatched
          then fire_unwatched d input pending.run true
          else fire_watched d input (record (fresh_fire pending.run) { retried = pending.retried })
              true)
      deferred_as d input pending state answer)
    else drop_deferred d input pending state

abbrev state_if_read : Answer (List Name) → Derived
state_if_read (ok labels) = derive_state labels
state_if_read (thrown e) = ambiguous

-- The alarm of a fire that a rate limit held back.
unfoldable pub deferred_alarm : Deps → Input → PendingFire → Step WatchdogResult
deferred_alarm d input pending = do
  labels ← attempt (ask d.outside.labels)
  send_deferred d input pending (state_if_read labels)

unfoldable pub expire_watched : Deps → Input → PendingFire → Step WatchdogResult
expire_watched d input pending = do
  result ← expire_pending_fire d input pending (run_expired pending.run pending.last_step) watchdog
  pure (expired result)

unfoldable pub retry_or_expire :
    Deps → Input → PendingFire → Option WatchdogResult → Step WatchdogResult
retry_or_expire d input pending (some result) = pure result
retry_or_expire d input pending none = expire_watched d input pending

-- The one retry of a run that never reported a step, where the repo turned it on.
unfoldable pub silent_alarm : Deps → Input → PendingFire → Step WatchdogResult
silent_alarm d input pending =
    if d.watchdog_retry
      && (not pending.retried
          && (not (is_some pending.last_step) && d.enforced (domain watchdog_expired)))
    then (do
      labels ← ask d.outside.labels
      again ← if will_stick (derive_state labels) then retry_once d input pending else pure none
      retry_or_expire d input pending again)
    else expire_watched d input pending

unfoldable pub recovered_or :
    Deps → Input → PendingFire → Option CoordinateResult → Step WatchdogResult
recovered_or d input pending (some result) = do set_rework_expired false; pure (expired result)
recovered_or d input pending none = silent_alarm d input pending

unfoldable pub due_alarm : Deps → Input → PendingFire → Step WatchdogResult
due_alarm d input pending =
    if is_some pending.defer_until then deferred_alarm d input pending else (do
      found ←
          if d.enforced (domain watchdog_expired)
          then recover_outcome d input pending
          else pure none
      recovered_or d input pending found)

unfoldable pub alarm_of : Deps → Input → ℕ → Option PendingFire → Step WatchdogResult
alarm_of d input now none = pure no_pending_fire
alarm_of d input now (some pending) =
    if too_early (due_margin d pending.run) now pending.due_at
    then pure (not_due (get_or pending.due_at 0))
    else due_alarm d input pending

-- `coordinateWatchdogExpired`.
unfoldable pub coordinate_watchdog : Deps → Input → Step WatchdogResult
coordinate_watchdog d input = do
  now ← clock d
  pending ← get_pending_fire
  alarm_of d input now pending
