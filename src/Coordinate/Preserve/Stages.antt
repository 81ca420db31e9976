-- ===== src/Coordinate/Preserve/Stages.antt =====
-- Invariants of the handlers in Coordinate/Stages (worker/src/coordinate/stages.ts).
use umbraco_mcp_ops.Prelude.{ℕ, String, Bool, true, Option, none, some, List, [], ◌∷◌}
use umbraco_mcp_ops.Graph.Label.{Name}
use umbraco_mcp_ops.Graph.Json.{Number, natural}
use umbraco_mcp_ops.Graph.Translate.{Payload, PullRequest, Shipped, Release}
use umbraco_mcp_ops.Coordinate.Types.{Deps, Input, World}
use umbraco_mcp_ops.Coordinate.Preserve.{
  Preserves, Frame, step_rules, pure-Preserves, bind-Preserves, forward-Preserves, Frame-Core,
}
use umbraco_mcp_ops.Coordinate.Stages.{
  forward_each, hand_off_commit, hand_off_merged, hand_off_review, post_log, export_work_log,
  hand_off_release, keep_shipped, handle_pr_merged, contains_merge, handle_released, hand_off_id,
}
use umbraco_mcp_ops.Coordinate.Preserve.Apply.{apply_event-Preserves}

module _ {P : World → Type 0} {d : Deps} where
  pub forward_each-Preserves :
      (a0 : Option String) (a1 : Payload) (a2 : List ℕ)
      → Frame P d
      → Preserves P (forward_each d a0 a1 a2)
  unfolding forward_each
  forward_each-Preserves delivery p [] F = pure-Preserves tt
  forward_each-Preserves delivery p (n ∷ ns) F =
      bind-Preserves _ _
        (forward-Preserves d (natural n) p (hand_off_id d delivery (natural n)) (Frame-Core F))
        (λ _. forward_each-Preserves delivery p ns F)

  pub hand_off_commit-Preserves :
      (a0 : Input) (a1 : PullRequest) (a2 : Option String)
      → Frame P d
      → Preserves P (hand_off_commit d a0 a1 a2)
  unfolding hand_off_commit
  hand_off_commit-Preserves input pr none F = search step_rules depth 30
  hand_off_commit-Preserves input pr (some sha) F =
      search (step_rules, forward_each-Preserves) depth 30

  pub hand_off_merged-Preserves :
      (a0 : Input) (a1 : Option PullRequest) → Frame P d → Preserves P (hand_off_merged d a0 a1)
  unfolding hand_off_merged
  hand_off_merged-Preserves input none F = search step_rules depth 30
  hand_off_merged-Preserves input (some pr) F =
      search (step_rules, hand_off_commit-Preserves) depth 30

  pub hand_off_review-Preserves :
      (a0 : Input) (a1 : Number) → Frame P d → Preserves P (hand_off_review d a0 a1)
  unfolding hand_off_review
  hand_off_review-Preserves input pr F = search step_rules depth 30

  pub post_log-Preserves : (a0 : Option String) → Frame P d → Preserves P (post_log d a0)
  unfolding post_log
  post_log-Preserves none F = search step_rules depth 30
  post_log-Preserves (some body) F = search step_rules depth 30

  pub export_work_log-Preserves :
      (a0 : Input) (a1 : Option PullRequest) → Frame P d → Preserves P (export_work_log d a0 a1)
  unfolding export_work_log
  export_work_log-Preserves input none F = search step_rules depth 30
  export_work_log-Preserves input (some pr) F = search (step_rules, post_log-Preserves) depth 30

  pub hand_off_release-Preserves :
      (a0 : Input) (a1 : String) (a2 : String)
      → Frame P d
      → Preserves P (hand_off_release d a0 a1 a2)
  unfolding hand_off_release
  hand_off_release-Preserves input version tag F =
      search (step_rules, forward_each-Preserves) depth 30

  pub keep_shipped-Preserves :
      (a0 : Bool) (a1 : Option Shipped) → Frame P d → Preserves P (keep_shipped a0 a1)
  unfolding keep_shipped
  keep_shipped-Preserves true (some x) F = search step_rules depth 30
  keep_shipped-Preserves _ _ F = search step_rules depth 30

  pub handle_pr_merged-Preserves :
      (a0 : Input) (a1 : List Name) (a2 : Option Shipped)
      → Frame P d
      → Preserves P (handle_pr_merged d a0 a1 a2)
  unfolding handle_pr_merged
  handle_pr_merged-Preserves input labels shipped F =
      search (step_rules, apply_event-Preserves, keep_shipped-Preserves) depth 30

  pub contains_merge-Preserves :
      (a0 : Option Release) (a1 : Option Shipped) → Frame P d → Preserves P (contains_merge d a0 a1)
  unfolding contains_merge
  contains_merge-Preserves (some r) (some shipped) F = search step_rules depth 30
  contains_merge-Preserves _ _ F = search step_rules depth 30

  pub handle_released-Preserves :
      (a0 : Input) (a1 : List Name) (a2 : Option Release)
      → Frame P d
      → Preserves P (handle_released d a0 a1 a2)
  unfolding handle_released
  handle_released-Preserves input labels release F =
      search (step_rules, contains_merge-Preserves, apply_event-Preserves) depth 30
