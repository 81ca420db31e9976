-- ===== src/Coordinate/Preserve/ReviewGate.antt =====
-- Invariants of the handlers in Coordinate/ReviewGate (worker/src/coordinate/review-gate.ts).
use umbraco_mcp_ops.Prelude.{ℕ, String, Bool, true, false, List}
use umbraco_mcp_ops.Graph.Label.{Name}
use umbraco_mcp_ops.Graph.Gate.{MergeGateFacts}
use umbraco_mcp_ops.Coordinate.Types.{StopReason, Deps, Input, World}
use umbraco_mcp_ops.Coordinate.Preserve.{Preserves, Frame, step_rules}
use umbraco_mcp_ops.Coordinate.ReviewGate.{
  cap_review, count_review_ci_fix, hand_review_after, hand_review_to_rework, gate_review,
  review_gate_for, review_gate, review_findings_round, handle_review_findings,
}
use umbraco_mcp_ops.Coordinate.Preserve.Apply.{apply_event-Preserves}

module _ {P : World → Type 0} {d : Deps} where
  pub cap_review-Preserves :
      (a0 : Input) (a1 : List Name) (a2 : StopReason)
      → Frame P d
      → Preserves P (cap_review d a0 a1 a2)
  unfolding cap_review
  cap_review-Preserves input labels why F = search (step_rules, apply_event-Preserves) depth 30

  pub count_review_ci_fix-Preserves :
      (a0 : List String) (a1 : ℕ) → Frame P d → Preserves P (count_review_ci_fix d a0 a1)
  unfolding count_review_ci_fix
  count_review_ci_fix-Preserves failed attempts F = search step_rules depth 30

  pub hand_review_after-Preserves :
      (a0 : Input) (a1 : List Name) (a2 : List String) (a3 : ℕ)
      → Frame P d
      → Preserves P (hand_review_after d a0 a1 a2 a3)
  unfolding hand_review_after
  hand_review_after-Preserves input labels failed attempts F =
      search
        (step_rules, cap_review-Preserves, apply_event-Preserves, count_review_ci_fix-Preserves)
        depth 30

  pub hand_review_to_rework-Preserves :
      (a0 : Input) (a1 : List Name) (a2 : MergeGateFacts)
      → Frame P d
      → Preserves P (hand_review_to_rework d a0 a1 a2)
  unfolding hand_review_to_rework
  hand_review_to_rework-Preserves input labels facts F =
      search (step_rules, hand_review_after-Preserves) depth 30

  pub gate_review-Preserves :
      (a0 : Input) (a1 : List Name) (a2 : MergeGateFacts)
      → Frame P d
      → Preserves P (gate_review d a0 a1 a2)
  unfolding gate_review
  gate_review-Preserves input labels facts F =
      search (step_rules, hand_review_to_rework-Preserves, apply_event-Preserves) depth 30

  pub review_gate_for-Preserves :
      (a0 : Input) (a1 : List Name) (a2 : Bool)
      → Frame P d
      → Preserves P (review_gate_for d a0 a1 a2)
  unfolding review_gate_for
  review_gate_for-Preserves input labels true F = search step_rules depth 30
  review_gate_for-Preserves input labels false F =
      search (step_rules, gate_review-Preserves) depth 30

  pub review_gate-Preserves :
      (a0 : Input) (a1 : List Name) → Frame P d → Preserves P (review_gate d a0 a1)
  unfolding review_gate
  review_gate-Preserves input labels F = search (step_rules, review_gate_for-Preserves) depth 30

  pub review_findings_round-Preserves :
      (a0 : Input) (a1 : List Name) (a2 : ℕ)
      → Frame P d
      → Preserves P (review_findings_round d a0 a1 a2)
  unfolding review_findings_round
  review_findings_round-Preserves input labels rounds F =
      search (step_rules, cap_review-Preserves, apply_event-Preserves) depth 30

  pub handle_review_findings-Preserves :
      (a0 : Input) (a1 : List Name) → Frame P d → Preserves P (handle_review_findings d a0 a1)
  unfolding handle_review_findings
  handle_review_findings-Preserves input labels F =
      search (step_rules, review_findings_round-Preserves) depth 30
