-- ===== src/Coordinate/Reconcile.antt =====
-- worker/src/coordinate/reconcile.ts: the sweep's question for one item, whether it was left behind.
use umbraco_mcp_ops.Prelude.{
  ℕ, ◌+◌, ◌-◌, ◌*◌, ◌/◌, max, Bool, true, false, not, ◌&&◌, ◌||◌, ◌==◌, ltb, leb, Option, none,
  some, is_some, List, if◌then◌else◌,
}
use umbraco_mcp_ops.Graph.Label.{
  Label, Name, tracked, includes, same_label, ai_ready, auto_releasing, auto_reworking,
  auto_merging, ai_reviewing,
}
use umbraco_mcp_ops.Graph.Event.{
  Event, watchdog_expired, labelled_ai_ready, labelled_auto_releasing, labelled_auto_reworking,
  labelled_auto_merging, labelled_ai_reviewing, merge_gate_failed_hard,
}
use umbraco_mcp_ops.Graph.Routine.{Routine, routine_name, review_loop, release_publish}
use umbraco_mcp_ops.Graph.Table.{untracked, on, Rule}
use umbraco_mcp_ops.Graph.Reduce.{reduce}
use umbraco_mcp_ops.Graph.Gate.{
  MergeGateFacts, BlockReason, MergeGateOutcome, hard_block_reason, derive_gate,
}
use umbraco_mcp_ops.Coordinate.DeriveState.{Derived, settled, ambiguous, derive_state}
use umbraco_mcp_ops.Coordinate.Types.{
  Idle, idle_for, ahead_by, Held, mode_shadow, watchdog_shadow, RowEffect, swept, swept_retry,
  reconcile_refire, Mode, enforce, shadow, domain, PendingFire, transition, Row, hard_block, Deps,
  Store, Input, sweep, CoordinateResult, is_applied,
}
use umbraco_mcp_ops.Coordinate.Steps.{Step, pure, read, ask, keep, clock, when, ◌>>=◌, ◌>>◌}
use umbraco_mcp_ops.Coordinate.Storage.{fresh_fire, set_ci_fix, record_status}
use umbraco_mcp_ops.Coordinate.Apply.{was_sent, fire_watched, row, log_row, apply_event}
use umbraco_mcp_ops.Coordinate.MergeGate.{block_merge, hand_to_rework, is_null, settled_gate_facts}
use umbraco_mcp_ops.Coordinate.ReviewGate.{review_gate}

-- WATCHDOG_LOST_AFTER_MS.
abbrev pub watchdog_lost_after : ℕ
watchdog_lost_after = 900000

-- TRIGGER_EVENTS.
unfoldable pub trigger_event : Label → Option Event
trigger_event ai_ready = some labelled_ai_ready
trigger_event auto_releasing = some labelled_auto_releasing
trigger_event auto_reworking = some labelled_auto_reworking
trigger_event auto_merging = some labelled_auto_merging
trigger_event ai_reviewing = some labelled_ai_reviewing
trigger_event _ = none

pub data ReconcileResult : Type 0 where
  watched completed : ReconcileResult
  gated : CoordinateResult → ReconcileResult
  not_triggered : Derived → ReconcileResult
  recent : Idle → ReconcileResult
  refired : Routine → Option Idle → ReconcileResult
  would_refire : Routine → Option Idle → Bool → Option Held → ReconcileResult

-- What the sweep asks: whether it may act, whether its cap on acts has room, and GitHub's time of the
-- item's last update.
pub record SweepAsk : Type 0 where
  pub enforced : Bool
  pub budget : Bool
  pub updated_at : Option ℕ

abbrev pub sweep_input : ℕ → Input
sweep_input n = record { item = n; delivery = none; actor = some sweep; payload = none }

-- A fire that is not due, or was due a short time ago, may be expiring at this moment.
abbrev pub expiring : ℕ → Option ℕ → Bool
expiring now none = false
expiring now (some due) = ltb now (due + watchdog_lost_after)

abbrev pub watched_as : ℕ → Option PendingFire → Option ℕ → Bool
watched_as now none alarm = false
watched_as now (some p) alarm = expiring now p.due_at || is_some alarm

-- Whether something watches the item already.
abbrev pub is_watched_now : ℕ → Store → Bool
is_watched_now now s = watched_as now s.pending s.alarm

abbrev pub run_of_rule : Option Rule → Option Routine
run_of_rule none = none
run_of_rule (some r) = r.run

abbrev pub run_of_event : Option Event → Option Routine
run_of_event none = none
run_of_event (some e) = run_of_rule (reduce untracked e)

abbrev run_for_label : Label → Bool → Option Routine
run_for_label l merged =
    if same_label l ai_reviewing
    then some review_loop
    else if same_label l auto_releasing && merged
    then some release_publish
    else run_of_event (trigger_event l)

-- The routine that a state's trigger label would start, by whether the Worker merged its release PR.
unfoldable pub run_for : Derived → Bool → Option Routine
unfolding trigger_event
run_for ambiguous merged = none
run_for (settled untracked) merged = none
run_for (settled (on l)) merged = run_for_label l merged

-- The later of two times, of those that are known.
abbrev pub latest : Option ℕ → Option ℕ → Option ℕ
latest none b = b
latest (some a) none = some a
latest (some a) (some b) = some (max a b)

-- `Math.round((now - last) / 6_000)`, a half rounded up.
abbrev pub idle_since : ℕ → ℕ → Idle
idle_since now last =
    if leb last now
    then idle_for ((now - last + 3000) / 6000)
    else ahead_by ((last - now + 2999) / 6000)

abbrev pub idle_of : ℕ → Option ℕ → Option Idle
idle_of now none = none
idle_of now (some last) = some (idle_since now last)

-- `idleMinutes < 2 * minutes`.
abbrev pub idle_below : ℕ → Idle → Bool
idle_below minutes (idle_for tenths) = ltb tenths (20 * minutes)
idle_below minutes (ahead_by tenths) = ltb 0 (tenths + 20 * minutes)

-- `completed !== null && (lastMs === null || completed >= lastMs)`.
abbrev pub is_finished : Option ℕ → Option ℕ → Bool
is_finished none last = false
is_finished (some at) none = true
is_finished (some at) (some last) = leb last at

-- Why a sweep that may act is held to a row.
abbrev pub held_back : Deps → Option Event → Option Held
held_back d none = none
held_back d (some e) =
    if not (d.enforced (domain e))
    then some mode_shadow
    else if not (d.enforced (domain watchdog_expired))
    then some watchdog_shadow
    else none

-- The same, for a sweep that may act and has room to.
abbrev pub held_of : Deps → SweepAsk → Label → Option Held
held_of d a label = if a.enforced && a.budget then held_back d (trigger_event label) else none

-- What is known of an item that was left behind.
pub record Left : Type 0 where
  pub item : ℕ
  pub labels : List Name
  pub label : Label
  pub run : Routine
  pub idle : Option Idle
  pub last : Option ℕ
  pub held : Option Held

abbrev sweep_row : Left → Label → RowEffect → Mode → Row
sweep_row l from eff mode =
    row (sweep_input l.item) (settled (on from)) reconcile_refire (some eff)
      (some (routine_name l.run)) none mode

unfoldable pub refire : Deps → Left → Step ReconcileResult
refire d l = do
  fired ← fire_watched d (sweep_input l.item) (fresh_fire l.run) false
  record_status (transition (settled (on l.label)) (some l.run) (was_sent fired))
  log_row d (sweep_row l l.label (swept l.idle l.held) enforce)
  pure (refired l.run l.idle)

-- Whether the stretch without activity that ends at a time was reported before.
abbrev pub same_stretch : Option ℕ → Option (Option ℕ) → Bool
same_stretch last none = false
same_stretch none (some none) = true
same_stretch (some a) (some (some b)) = a == b
same_stretch _ _ = false

unfoldable pub report_stretch : Deps → Left → Bool → Step ReconcileResult
report_stretch d l true = pure (would_refire l.run l.idle true l.held)
report_stretch d l false = do
  keep (λ s. record s { reconcile_reported = some l.last })
  log_row d (sweep_row l l.label (swept l.idle l.held) shadow)
  pure (would_refire l.run l.idle false l.held)

-- One row for a stretch without activity.
unfoldable pub report_once : Deps → Left → Step ReconcileResult
report_once d l = do
  said ← read (λ s. same_stretch l.last s.reconcile_reported)
  report_stretch d l said

abbrev gate_is_soft : MergeGateFacts → Bool
gate_is_soft facts = elim (derive_gate facts) [ MergeGateOutcome.soft ↦ true | _ ↦ false ]

-- A person's retry of a PR whose merge was blocked, with the gate passed: its own rule.
unfoldable pub retry_merge : Deps → Left → Step ReconcileResult
retry_merge d l = do
  result ← apply_event d (sweep_input l.item) labelled_auto_merging l.labels
  when (is_applied result)
      (log_row d (sweep_row l Label.merge_blocked (swept_retry l.idle) enforce))
  pure (gated result)

unfoldable pub merge_blocked_by :
    Deps → Left → Bool → MergeGateFacts → Option BlockReason → Step ReconcileResult
merge_blocked_by d l retry facts (some why) = do
  result ← block_merge d (sweep_input l.item) l.labels (hard_block why) merge_gate_failed_hard
  pure (gated result)
merge_blocked_by d l retry facts none =
    if gate_is_soft facts
    then (do result ← hand_to_rework d (sweep_input l.item) l.labels facts; pure (gated result))
    else if retry
    then retry_merge d l
    else refire d l

-- A lost fire of merge-flow, through the gate that a fresh label goes through.
unfoldable pub regate_merge : Deps → Left → Step ReconcileResult
regate_merge d l = do
  let retry = includes (tracked Label.merge_blocked) l.labels
  when retry (set_ci_fix none)
  facts ← settled_gate_facts d
  merge_blocked_by d l retry facts (hard_block_reason facts)

unfoldable pub act_on : Deps → Left → Bool → Step ReconcileResult
act_on d l enforced =
    if enforced && is_null l.held
    then (if same_label l.label auto_merging then regate_merge d l else refire d l)
    else report_once d l

-- The item was left behind: its CI gate again for a PR under review, else a fire or a row.
unfoldable pub act_within : Deps → SweepAsk → Left → Step ReconcileResult
act_within d ask l =
    if same_label l.label ai_reviewing && (ask.budget && d.enforced (domain watchdog_expired))
    then (do result ← review_gate d (sweep_input l.item) l.labels; pure (gated result))
    else act_on d l (ask.enforced && ask.budget)

unfoldable pub left_behind :
    Deps → SweepAsk → ℕ → List Name → Label → Routine → ℕ → Option ℕ → Step ReconcileResult
left_behind d ask n labels label run now last = do
  finished ← read (λ s. is_finished s.completed last)
  if finished
      then pure completed
      else act_within d ask (record {
        item = n;
        labels = labels;
        label = label;
        run = run;
        idle = idle_of now last;
        last = last;
        held = held_of d ask label;
      })

unfoldable pub unless_recent :
    Deps → SweepAsk → ℕ → List Name → Label → Routine → ℕ → Option ℕ → Step ReconcileResult
unless_recent d ask n labels label run now none = left_behind d ask n labels label run now none
unless_recent d ask n labels label run now (some last) =
    if idle_below (d.watchdog_minutes run) (idle_since now last)
    then pure (recent (idle_since now last))
    else left_behind d ask n labels label run now (some last)

unfoldable pub sweep_label :
    Deps → SweepAsk → ℕ → List Name → Label → ℕ → Option Routine → Step ReconcileResult
sweep_label d a n labels label now none = pure (not_triggered (settled (on label)))
sweep_label d a n labels label now (some run) = do
  logged ← ask d.outside.last_activity
  unless_recent d a n labels label run now (latest logged a.updated_at)

unfoldable pub sweep_state : Deps → SweepAsk → ℕ → List Name → ℕ → Derived → Step ReconcileResult
sweep_state d a n labels now (settled (on label)) = do
  merged ← read (λ s. is_some s.release_merged)
  sweep_label d a n labels label now (run_for (settled (on label)) merged)
sweep_state d a n labels now (settled untracked) = pure (not_triggered (settled untracked))
sweep_state d a n labels now ambiguous = pure (not_triggered ambiguous)

unfoldable pub unless_watched : Deps → SweepAsk → ℕ → ℕ → Bool → Step ReconcileResult
unless_watched d a n now true = pure watched
unless_watched d a n now false = do
  labels ← ask d.outside.labels
  sweep_state d a n labels now (derive_state labels)

-- `coordinateReconcile`.
unfoldable pub coordinate_reconcile : Deps → SweepAsk → ℕ → Step ReconcileResult
coordinate_reconcile d a n = do
  now ← clock d
  busy ← read (is_watched_now now)
  unless_watched d a n now busy
