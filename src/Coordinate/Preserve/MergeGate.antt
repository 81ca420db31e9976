-- ===== src/Coordinate/Preserve/MergeGate.antt =====
-- Invariants of the handlers in Coordinate/MergeGate (worker/src/coordinate/merge-gate.ts).
use umbraco_mcp_ops.Prelude.{ℕ, zero, suc, String, List, Bool-cases, inl, inr}
use umbraco_mcp_ops.Graph.Label.{Name}
use umbraco_mcp_ops.Graph.Event.{Event}
use umbraco_mcp_ops.Graph.Gate.{MergeGateFacts}
use umbraco_mcp_ops.Coordinate.Types.{BlockNotice, Deps, Input, World}
use umbraco_mcp_ops.Coordinate.Preserve.{
  Preserves, Frame, step_rules, pure-Preserves, bind-Preserves, ask-Preserves, Frame-Core,
}
use umbraco_mcp_ops.Coordinate.MergeGate.{
  block_merge, count_ci_fix, hand_to_rework_after, hand_to_rework, reread_facts, settled_gate_facts,
  is_null,
}
use umbraco_mcp_ops.Coordinate.Preserve.Apply.{apply_event-Preserves}

module _ {P : World → Type 0} {d : Deps} where
  pub block_merge-Preserves :
      (a0 : Input) (a1 : List Name) (a2 : BlockNotice) (a3 : Event)
      → Frame P d
      → Preserves P (block_merge d a0 a1 a2 a3)
  unfolding block_merge
  block_merge-Preserves input labels reason event F =
      search (step_rules, apply_event-Preserves) depth 30

  pub count_ci_fix-Preserves :
      (a0 : List Name) (a1 : List String) (a2 : ℕ)
      → Frame P d
      → Preserves P (count_ci_fix d a0 a1 a2)
  unfolding count_ci_fix
  count_ci_fix-Preserves labels failed attempts F = search step_rules depth 30

  pub hand_to_rework_after-Preserves :
      (a0 : Input) (a1 : List Name) (a2 : List String) (a3 : ℕ)
      → Frame P d
      → Preserves P (hand_to_rework_after d a0 a1 a2 a3)
  unfolding hand_to_rework_after
  hand_to_rework_after-Preserves input labels failed attempts F =
      search (step_rules, block_merge-Preserves, apply_event-Preserves, count_ci_fix-Preserves)
        depth 30

  pub hand_to_rework-Preserves :
      (a0 : Input) (a1 : List Name) (a2 : MergeGateFacts)
      → Frame P d
      → Preserves P (hand_to_rework d a0 a1 a2)
  unfolding hand_to_rework
  hand_to_rework-Preserves input labels facts F =
      search (step_rules, hand_to_rework_after-Preserves) depth 30

  pub reread_facts-Preserves :
      (a0 : ℕ) (a1 : MergeGateFacts) → Frame P d → Preserves P (reread_facts d a0 a1)
  unfolding reread_facts
  reread_facts-Preserves zero facts F = pure-Preserves facts
  reread_facts-Preserves (suc n) facts F = elim (Bool-cases (is_null facts.mergeable)) [
    | inl e ↦
        rw (reread_facts, e)
          (bind-Preserves _ _ (ask-Preserves d.outside.facts (Frame-Core F))
            (λ again. reread_facts-Preserves n again F))
    | inr e ↦ rw (reread_facts, e) (pure-Preserves facts)
  ]

  pub settled_gate_facts-Preserves : Frame P d → Preserves P (settled_gate_facts d)
  unfolding settled_gate_facts
  settled_gate_facts-Preserves F = search (step_rules, reread_facts-Preserves) depth 30
