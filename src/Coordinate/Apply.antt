-- ===== src/Coordinate/Apply.antt =====
-- worker/src/coordinate/apply.ts: the tail that every handler ends in, and the fires.
use umbraco_mcp_ops.Prelude.{
  ℕ, String, ◌+◌, ◌*◌, ◌%◌, Bool, true, false, not, ◌&&◌, ◌||◌, Option, none, some, List, [], ◌∷◌,
  is_some, str_eq, if◌then◌else◌,
}
use umbraco_mcp_ops.Graph.Label.{Name}
use umbraco_mcp_ops.Graph.Event.{Event}
use umbraco_mcp_ops.Graph.Routine.{Routine, same_routine, routine_name}
use umbraco_mcp_ops.Graph.Table.{State, untracked, on, Effect, label, unlabel, close, noop, Rule}
use umbraco_mcp_ops.Graph.Reduce.{
  reduce, is_contextual, is_watched, LabelOp, add, remove, close_item, label_ops,
}
use umbraco_mcp_ops.Coordinate.DeriveState.{
  Derived, settled, ambiguous, derive_state, before_event, just_added,
}
use umbraco_mcp_ops.Coordinate.Types.{
  Mode, RowName, domain, PendingFire, StatusUpdate, transition, gone, Dropped, ambiguous_labels,
  no_matching_rule, RowEffect, of_rule, Row, Notice, fire_deferred, Failure, rate_limited, refused,
  Answer, ok, thrown, Call, Deps, Input, CoordinateResult, ambiguous_state, ignored,
  dropped_no_rule, applied, deps_for, mode_for,
}
use umbraco_mcp_ops.Coordinate.Steps.{
  Step, pure, throw, read, attempt, perform, perform_live, when, ◌>>=◌, ◌>>◌,
}
use umbraco_mcp_ops.Coordinate.Storage.{
  fresh_fire, set_pending_fire, clear_pending_fire, set_applied_outcome, record_status, actor_of,
}

pub data FireOutcome : Type 0 where
  sent deferred : FireOutcome

abbrev pub was_sent : FireOutcome → Bool
was_sent sent = true
was_sent deferred = false

-- `forgetAppliedOutcome`.
abbrev forget_applied_outcome : Routine → Step (Unit {0})
forget_applied_outcome run = set_applied_outcome run none

abbrev pub deferred_of : Routine → Option PendingFire → Bool
deferred_of run none = false
deferred_of run (some p) = same_routine p.run run && is_some p.defer_until

-- `deferredFor`.
unfoldable pub deferred_for : Routine → Step Bool
deferred_for run = read (λ s. deferred_of run s.pending)

-- `deferFire`: the alarm at the time that the API gave, a little apart for each item, and said once.
unfoldable pub defer_fire : Deps → Input → PendingFire → ℕ → Bool → Step FireOutcome
defer_fire d input info retry_at quiet = do
  let until = retry_at + (input.item % 30) * 1000
  set_pending_fire d (record info { defer_until = some until })
  said ←
      if quiet
      then pure (ok tt)
      else attempt (perform_live d (Call.comment (fire_deferred info.run until)))
  pure deferred

-- The end of a fire: sent, rate-limited, or refused, which `on_refused` cleans up.
unfoldable pub settle_fire :
    Deps → Input → PendingFire → Bool → Step (Unit {0}) → Answer (Unit {0}) → Step FireOutcome
settle_fire d input info quiet on_refused (ok _) = pure sent
settle_fire d input info quiet on_refused (thrown (rate_limited m at)) =
    defer_fire d input info at quiet
settle_fire d input info quiet on_refused (thrown (refused m)) = do on_refused; throw (refused m)

-- `fireWatched`: armed before the fire, disarmed if the fire is refused.
unfoldable pub fire_watched : Deps → Input → PendingFire → Bool → Step FireOutcome
fire_watched d input info redeferral = do
  forget_applied_outcome info.run
  already ← deferred_for info.run
  set_pending_fire d info
  answer ← attempt (perform_live d (Call.fire info.run))
  settle_fire d input info (redeferral || already) clear_pending_fire answer

-- `fireUnwatched`.
unfoldable pub fire_unwatched : Deps → Input → Routine → Bool → Step FireOutcome
fire_unwatched d input run redeferral = do
  forget_applied_outcome run
  already ← deferred_for run
  clear_pending_fire
  answer ← attempt (perform_live d (Call.fire run))
  settle_fire d input (record (fresh_fire run) { unwatched = true }) (redeferral || already)
      (pure tt) answer

-- A log row of this input.
abbrev pub row :
    Input → Derived → RowName → Option RowEffect → Option String → Option Dropped → Mode → Row
row input from name eff run dropped mode = record {
  delivery = input.delivery;
  actor = actor_of input;
  from_state = from;
  name = name;
  to_effect = eff;
  run = run;
  dropped = dropped;
  mode = mode;
}

abbrev pub log_row : Deps → Row → Step (Unit {0})
log_row d r = perform d (Call.log r)

unfoldable pub perform_op : Deps → LabelOp → Step (Unit {0})
perform_op d (add n) = perform_live d (Call.add_label n)
perform_op d (remove n) = perform_live d (Call.remove_label n)
perform_op d close_item = perform_live d Call.close_issue

unfoldable pub perform_ops : Deps → List LabelOp → Step (Unit {0})
perform_ops d [] = pure tt
perform_ops d (o ∷ os) = do perform_op d o; perform_ops d os

-- The state that a rule's run is watched in: the target of a label, or the state it stays in.
abbrev pub target_of : State → Effect → State
target_of current (label v) = v
target_of current _ = current

abbrev is_untracked : State → Bool
is_untracked untracked = true
is_untracked (on l) = false

-- The row of an item that stays in view, or its end where it is untracked with nothing out for it.
status_in : State → State → Rule → FireOutcome → StatusUpdate
status_in state target r fired =
    if is_untracked state && not (is_some r.run)
    then gone false
    else transition (settled state) r.run (is_some r.run && (was_sent fired && is_watched target))

status_for : Effect → State → Rule → FireOutcome → StatusUpdate
unfolding status_in
status_for close current r fired = gone false
status_for (label v) current r fired = status_in v v r fired
status_for unlabel current r fired = status_in untracked current r fired
status_for noop current r fired = status_in current current r fired

-- `statusAfter`.
unfoldable pub status_after : State → Rule → FireOutcome → StatusUpdate
unfolding status_for
status_after current r fired = status_for r.to current r fired

abbrev pub message : Failure → String
message (rate_limited m at) = m
message (refused m) = m

abbrev pub run_name : Option Routine → Option String
run_name none = none
run_name (some r) = some (routine_name r)

abbrev is_sweep : Option String → Bool
is_sweep none = false
is_sweep (some a) = str_eq a "sweep"

-- `reportRefusedFire`: its own errors are dropped.
unfoldable pub report_refused_fire :
    Deps → Mode → Input → State → Event → Rule → Routine → Failure → Step (Unit {0})
report_refused_fire d mode input current event r run e = do
  let reason = d.outside.engine.slice 300 (message e)
  logged ← attempt (
      log_row d (
        row input (settled current) (domain event) (some (of_rule r.to)) (run_name r.run)
          (some (Dropped.fire_refused reason)) mode))
  when (is_some input.delivery && not (is_sweep (actor_of input))) (do
    said ←
        attempt (perform_live d (Call.comment (Notice.fire_refused run reason (just_added event))))
    pure tt)

-- A refused fire is reported, and thrown on.
unfoldable pub report_and_throw :
    Deps → Mode → Input → State → Event → Rule → Routine → Answer FireOutcome → Step FireOutcome
report_and_throw d mode input current event r run (ok fired) = pure fired
report_and_throw d mode input current event r run (thrown e) = do
  report_refused_fire d mode input current event r run e
  throw e

-- The fire of an applied rule, or the end of the watch where it fires nothing.
unfoldable pub fire_rule :
    Deps → Mode → Input → State → Event → Rule → Option Routine → Step FireOutcome
fire_rule d mode input current event r none = do clear_pending_fire; pure sent
fire_rule d mode input current event r (some run) = do
  answer ← attempt (
      if is_watched (target_of current r.to)
      then fire_watched d input (fresh_fire run) false
      else fire_unwatched d input run false)
  report_and_throw d mode input current event r run answer

unfoldable pub apply_rule : Deps → Input → Event → List Name → State → Rule → Step CoordinateResult
apply_rule all input event labels current r = do
  let d = deps_for all (domain event)
  let mode = mode_for all (domain event)
  perform_ops d (label_ops labels r)
  fired ← fire_rule d mode input current event r r.run
  log_row d
      (row input (settled current) (domain event) (some (of_rule r.to)) (run_name r.run) none mode)
  when (all.enforced (domain event)) (record_status (status_after current r fired))
  pure (applied current event r)

-- No rule for the state and the event: nothing for a contextual event, else a row.
unfoldable pub drop_event : Deps → Input → Event → State → Step CoordinateResult
drop_event all input event current =
    if is_contextual event then pure (ignored current event) else do
      log_row (deps_for all (domain event)) (
          row input (settled current) (domain event) none none (some no_matching_rule)
            (mode_for all (domain event)))
      pure (dropped_no_rule current event)

unfoldable pub apply_in : Deps → Input → Event → List Name → Derived → Step CoordinateResult
apply_in all input event labels ambiguous = do
  log_row (deps_for all (domain event)) (
      row input ambiguous (domain event) none none (some ambiguous_labels)
        (mode_for all (domain event)))
  pure ambiguous_state
apply_in all input event labels (settled current) = elim (reduce current event) [
  | none ↦ drop_event all input event current
  | some r ↦ apply_rule all input event labels current r
]

-- `applyEvent`.
unfoldable pub apply_event : Deps → Input → Event → List Name → Step CoordinateResult
apply_event all input event labels =
    apply_in all input event labels (derive_state (before_event event labels))
