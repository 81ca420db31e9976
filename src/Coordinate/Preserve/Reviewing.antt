-- ===== src/Coordinate/Preserve/Reviewing.antt =====
-- Invariants of the handlers in Coordinate/Reviewing (worker/src/coordinate/webhook.ts).
use umbraco_mcp_ops.Prelude.{Bool, Option, List}
use umbraco_mcp_ops.Graph.Label.{Name}
use umbraco_mcp_ops.Graph.Table.{State, untracked, on}
use umbraco_mcp_ops.Coordinate.DeriveState.{Derived, settled, ambiguous}
use umbraco_mcp_ops.Coordinate.Types.{Dropped, Answer, ok, thrown, PullDetails, Deps, Input, World}
use umbraco_mcp_ops.Coordinate.Preserve.{Preserves, Frame, step_rules}
use umbraco_mcp_ops.Coordinate.Reviewing.{
  fresh_review, review_labelled, review_if_on, drop_hand_off, hand_off_to_open, hand_off_to,
  review_handed_off,
}
use umbraco_mcp_ops.Coordinate.Preserve.ReviewGate.{review_gate-Preserves}
use umbraco_mcp_ops.Coordinate.Preserve.Apply.{apply_event-Preserves}

module _ {P : World → Type 0} {d : Deps} where
  pub fresh_review-Preserves : (a0 : Bool) → Frame P d → Preserves P (fresh_review a0)
  unfolding fresh_review
  fresh_review-Preserves stuck F = search step_rules depth 30

  pub review_labelled-Preserves :
      (a0 : Input) (a1 : List Name) → Frame P d → Preserves P (review_labelled d a0 a1)
  unfolding review_labelled
  review_labelled-Preserves input labels F =
      search (step_rules, fresh_review-Preserves, apply_event-Preserves, review_gate-Preserves)
        depth 30

  pub review_if_on-Preserves :
      (a0 : Input) (a1 : List Name) → Frame P d → Preserves P (review_if_on d a0 a1)
  unfolding review_if_on
  review_if_on-Preserves input labels F = search (step_rules, review_labelled-Preserves) depth 30

  pub drop_hand_off-Preserves :
      (a0 : Input) (a1 : Dropped) (a2 : Option State)
      → Frame P d
      → Preserves P (drop_hand_off d a0 a1 a2)
  unfolding drop_hand_off
  drop_hand_off-Preserves input why from F = search step_rules depth 30

  pub hand_off_to_open-Preserves :
      (a0 : Input) (a1 : List Name) (a2 : Derived)
      → Frame P d
      → Preserves P (hand_off_to_open d a0 a1 a2)
  unfolding hand_off_to_open
  hand_off_to_open-Preserves input labels ambiguous F =
      search (step_rules, apply_event-Preserves) depth 30
  hand_off_to_open-Preserves input labels (settled (on l)) F =
      search (step_rules, drop_hand_off-Preserves) depth 30
  hand_off_to_open-Preserves input labels (settled untracked) F =
      search (step_rules, review_if_on-Preserves, apply_event-Preserves) depth 30

  pub hand_off_to-Preserves :
      (a0 : Input) (a1 : List Name) (a2 : Answer PullDetails)
      → Frame P d
      → Preserves P (hand_off_to d a0 a1 a2)
  unfolding hand_off_to
  hand_off_to-Preserves input labels (thrown e) F =
      search (step_rules, drop_hand_off-Preserves) depth 30
  hand_off_to-Preserves input labels (ok pull) F =
      search (step_rules, hand_off_to_open-Preserves, drop_hand_off-Preserves) depth 30

  pub review_handed_off-Preserves :
      (a0 : Input) (a1 : List Name) → Frame P d → Preserves P (review_handed_off d a0 a1)
  unfolding review_handed_off
  review_handed_off-Preserves input labels F =
      search (step_rules, review_if_on-Preserves, hand_off_to-Preserves) depth 30
