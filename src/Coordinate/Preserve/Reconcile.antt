-- ===== src/Coordinate/Preserve/Reconcile.antt =====
-- Invariants of the handlers in Coordinate/Reconcile (worker/src/coordinate/reconcile.ts).
use umbraco_mcp_ops.Prelude.{◌≡◌, refl, is_some, ℕ, Bool, true, false, Option, none, some, List}
use umbraco_mcp_ops.Graph.Label.{
  Label, Name, ai_ready, pr_open, ai_blocked, auto_releasing, ai_discussing, auto_reworking,
  auto_merging, ai_stuck, merge_blocked, ai_reviewing, ready_for_release, ready_for_review,
}
use umbraco_mcp_ops.Graph.Routine.{Routine}
use umbraco_mcp_ops.Graph.Gate.{MergeGateFacts, BlockReason}
use umbraco_mcp_ops.Graph.Table.{untracked, on}
use umbraco_mcp_ops.Coordinate.DeriveState.{Derived, settled, ambiguous}
use umbraco_mcp_ops.Coordinate.Types.{World, Deps}
use umbraco_mcp_ops.Coordinate.Reconcile.{
  SweepAsk, Left, trigger_event, held_of, run_for, idle_below, idle_since, refire, report_stretch,
  report_once, retry_merge, merge_blocked_by, regate_merge, act_on, act_within, left_behind,
  unless_recent, sweep_label, sweep_state, unless_watched, coordinate_reconcile,
}
use umbraco_mcp_ops.Coordinate.Preserve.{
  Preserves, Frame, Acts, step_rules, bind-Preserves, read-Preserves, if-Preserves, pure-Preserves,
}
use umbraco_mcp_ops.Coordinate.Preserve.Apply.{apply_event-Preserves, fire_watched-Preserves}
use umbraco_mcp_ops.Coordinate.Preserve.MergeGate.{
  block_merge-Preserves, hand_to_rework-Preserves, settled_gate_facts-Preserves,
}
use umbraco_mcp_ops.Coordinate.Preserve.ReviewGate.{review_gate-Preserves}

module _ {P : World → Type 0} {d : Deps} where
  report_stretch-Preserves :
      (e : Deps) (l : Left) (said : Bool) → Frame P d → Preserves P (report_stretch e l said)
  unfolding report_stretch
  report_stretch-Preserves e l true F = search step_rules depth 30
  report_stretch-Preserves e l false F = search step_rules depth 30

  pub report_once-Preserves : (e : Deps) (l : Left) → Frame P d → Preserves P (report_once e l)
  unfolding report_once
  report_once-Preserves e l F = search (step_rules, report_stretch-Preserves) depth 30

  refire-Preserves : (l : Left) → Frame P d → Acts P d → Preserves P (refire d l)
  unfolding refire
  refire-Preserves l F A = search (step_rules, fire_watched-Preserves) depth 30

  retry_merge-Preserves : (l : Left) → Frame P d → Preserves P (retry_merge d l)
  unfolding retry_merge
  retry_merge-Preserves l F = search (step_rules, apply_event-Preserves) depth 30

  merge_blocked_by-Preserves :
      (l : Left) (retry : Bool) (facts : MergeGateFacts) (why : Option BlockReason)
      → Frame P d
      → Acts P d
      → Preserves P (merge_blocked_by d l retry facts why)
  unfolding merge_blocked_by
  merge_blocked_by-Preserves l retry facts (some why) F A =
      search (step_rules, block_merge-Preserves) depth 30
  merge_blocked_by-Preserves l retry facts none F A =
      search (step_rules, hand_to_rework-Preserves, retry_merge-Preserves, refire-Preserves) depth
        30

  regate_merge-Preserves : (l : Left) → Frame P d → Acts P d → Preserves P (regate_merge d l)
  unfolding regate_merge
  regate_merge-Preserves l F A =
      search (step_rules, settled_gate_facts-Preserves, merge_blocked_by-Preserves) depth 30

  act_on-Preserves :
      (l : Left) (enforced : Bool) → Frame P d → Acts P d → Preserves P (act_on d l enforced)
  unfolding act_on
  act_on-Preserves l enforced F A =
      search (step_rules, regate_merge-Preserves, refire-Preserves, report_once-Preserves) depth 30

  act_within-Preserves :
      (a : SweepAsk) (l : Left) → Frame P d → Acts P d → Preserves P (act_within d a l)
  unfolding act_within
  act_within-Preserves a l F A =
      search (step_rules, review_gate-Preserves, act_on-Preserves) depth 30

-- A label that has a routine to fire has a trigger event.
run_for-trigger :
    (l : Label) (merged : Bool)
    → (run : Routine) → run_for (settled (on l)) merged ≡ some run
    → is_some (trigger_event l) ≡ true
unfolding run_for
run_for-trigger ai_ready merged run e = refl
run_for-trigger pr_open merged run e = cc
run_for-trigger ai_blocked merged run e = cc
run_for-trigger auto_releasing merged run e = refl
run_for-trigger ai_discussing merged run e = cc
run_for-trigger auto_reworking merged run e = refl
run_for-trigger auto_merging merged run e = refl
run_for-trigger ai_stuck merged run e = cc
run_for-trigger merge_blocked merged run e = cc
run_for-trigger ai_reviewing merged run e = refl
run_for-trigger ready_for_release merged run e = cc
run_for-trigger ready_for_review merged run e = cc

-- What is shown of the items that were left behind holds of the whole question.
module _ {P : World → Type 0} (d : Deps) (a : SweepAsk)
    (act : (l : Left)
      → l.held ≡ held_of d a l.label
      → is_some (trigger_event l.label) ≡ true
      → Preserves P (act_within d a l)) where
  left_behind-Preserves :
      (n : ℕ) (labels : List Name) (label : Label) (run : Routine) (now : ℕ) (last : Option ℕ)
      → is_some (trigger_event label) ≡ true
      → Preserves P (left_behind d a n labels label run now last)
  unfolding left_behind
  left_behind-Preserves n labels label run now last h =
      bind-Preserves _ _ (read-Preserves _)
        (λ finished. if-Preserves finished _ _ (pure-Preserves _) (act _ refl h))

  unless_recent-Preserves :
      (n : ℕ) (labels : List Name) (label : Label) (run : Routine) (now : ℕ) (last : Option ℕ)
      → is_some (trigger_event label) ≡ true
      → Preserves P (unless_recent d a n labels label run now last)
  unfolding unless_recent
  unless_recent-Preserves n labels label run now none h =
      left_behind-Preserves n labels label run now none h
  unless_recent-Preserves n labels label run now (some last) h =
      if-Preserves (idle_below (d.watchdog_minutes run) (idle_since now last)) _ _
        (pure-Preserves _) (left_behind-Preserves n labels label run now (some last) h)

  sweep_label-Preserves :
      {d0 : Deps} (n : ℕ) (labels : List Name) (label : Label) (now : ℕ) (run : Option Routine)
      → ((r : Routine) → run ≡ some r → is_some (trigger_event label) ≡ true)
      → Frame P d0
      → Preserves P (sweep_label d a n labels label now run)
  unfolding sweep_label
  sweep_label-Preserves n labels label now none h F = search step_rules depth 30
  sweep_label-Preserves n labels label now (some run) h F =
      let k = h run refl in search (step_rules, unless_recent-Preserves) depth 30

  sweep_state-Preserves :
      {d0 : Deps} (n : ℕ) (labels : List Name) (now : ℕ) (s : Derived)
      → Frame P d0
      → Preserves P (sweep_state d a n labels now s)
  unfolding sweep_state
  sweep_state-Preserves n labels now (settled (on label)) F =
      bind-Preserves _ _ (read-Preserves _) (λ merged.
        sweep_label-Preserves n labels label now (run_for (settled (on label)) merged)
          (run_for-trigger label merged) F)
  sweep_state-Preserves n labels now (settled untracked) F = search step_rules depth 30
  sweep_state-Preserves n labels now ambiguous F = search step_rules depth 30

  unless_watched-Preserves :
      {d0 : Deps} (n now : ℕ) (busy : Bool)
      → Frame P d0
      → Preserves P (unless_watched d a n now busy)
  unfolding unless_watched
  unless_watched-Preserves n now true F = search step_rules depth 30
  unless_watched-Preserves n now false F = search (step_rules, sweep_state-Preserves) depth 30

  pub reconcile_within-Preserves :
      {d0 : Deps} (n : ℕ) → Frame P d0 → Preserves P (coordinate_reconcile d a n)
  unfolding coordinate_reconcile
  reconcile_within-Preserves n F = search (step_rules, unless_watched-Preserves) depth 30

pub coordinate_reconcile-Preserves :
    {P : World → Type 0} {d : Deps} (a : SweepAsk) (n : ℕ)
    → Frame P d
    → Acts P d
    → Preserves P (coordinate_reconcile d a n)
coordinate_reconcile-Preserves a n F A =
    reconcile_within-Preserves _ a (λ l _ _. act_within-Preserves a l F A) n F
