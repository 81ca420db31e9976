-- ===== src/Coordinate/Preserve/Rework.antt =====
-- Invariants of the handlers in Coordinate/Rework (worker/src/coordinate/webhook.ts).
use umbraco_mcp_ops.Prelude.{ltb, ◌≤◌, ◌≡◌, false, arith, ℕ, Bool, Option, none, some, List}
use umbraco_mcp_ops.Graph.Label.{Name}
use umbraco_mcp_ops.Graph.Event.{Event}
use umbraco_mcp_ops.Coordinate.DeriveState.{Derived}
use umbraco_mcp_ops.Coordinate.Types.{Deps, Input, World}
use umbraco_mcp_ops.Coordinate.Preserve.{Preserves, Frame, step_rules, set_review_reworks-Preserves}
use umbraco_mcp_ops.Coordinate.Rework.{
  release_claim, release_now, release_later, drop_stray_push, cap_review_rework, keep_rounds,
  count_round, past_cap, Claim, ReworkEnd, no_claim, ci_claim, review_claim,
}
use umbraco_mcp_ops.Coordinate.Preserve.Apply.{apply_event-Preserves}

module _ {P : World → Type 0} {d : Deps} where
  pub release_claim-Preserves : (a0 : Claim) → Frame P d → Preserves P (release_claim a0)
  unfolding release_claim
  release_claim-Preserves no_claim F = search step_rules depth 30
  release_claim-Preserves (ci_claim c) F = search step_rules depth 30
  release_claim-Preserves (review_claim r) F = search step_rules depth 30

  pub release_now-Preserves : (a0 : ReworkEnd) → Frame P d → Preserves P (release_now a0)
  unfolding release_now
  release_now-Preserves r F = search (step_rules, release_claim-Preserves) depth 30

  pub release_later-Preserves : (a0 : ReworkEnd) → Frame P d → Preserves P (release_later a0)
  unfolding release_later
  release_later-Preserves r F = search (step_rules, release_claim-Preserves) depth 30

  pub drop_stray_push-Preserves :
      (a0 : Input) (a1 : Event) → Frame P d → Preserves P (drop_stray_push d a0 a1)
  unfolding drop_stray_push
  drop_stray_push-Preserves input event F = search step_rules depth 30

  pub cap_review_rework-Preserves :
      (a0 : Input) (a1 : List Name) (a2 : ℕ)
      → Frame P d
      → Preserves P (cap_review_rework d a0 a1 a2)
  unfolding cap_review_rework
  cap_review_rework-Preserves input labels rounds F =
      search (step_rules, apply_event-Preserves) depth 30

  -- A round that is not past its cap.
  pub keep_rounds-Preserves :
      (a0 : Option ℕ)
      → Frame P d
      → past_cap d.caps.review_reworks a0 ≡ false
      → Preserves P (keep_rounds a0)
  unfolding keep_rounds
  keep_rounds-Preserves none F h = search step_rules depth 30
  keep_rounds-Preserves (some n) F h =
      set_review_reworks-Preserves n F (within n d.caps.review_reworks h)
    where
      within : (k cap : ℕ) → ltb cap k ≡ false → k ≤ cap
      within k cap e = ground (arith, e)

  pub count_round-Preserves :
      (a0 : Derived) (a1 : Option ℕ) (a2 : Bool)
      → Frame P d
      → past_cap d.caps.review_reworks a1 ≡ false
      → Preserves P (count_round a0 a1 a2)
  unfolding count_round
  count_round-Preserves before rounds restart F h =
      search (step_rules, keep_rounds-Preserves) depth 30
