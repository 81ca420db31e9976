-- ===== src/Coordinate/Preserve/Release.antt =====
-- Invariants of the handlers in Coordinate/Release (worker/src/coordinate/release.ts).
use umbraco_mcp_ops.Prelude.{String, Option, some, List}
use umbraco_mcp_ops.Graph.Label.{Name}
use umbraco_mcp_ops.Graph.Json.{Number}
use umbraco_mcp_ops.Graph.Outcome.{Outcome, MergeMethod}
use umbraco_mcp_ops.Coordinate.Types.{
  RefusedMerge, Answer, ok, thrown, PullDetails, Deps, Input, CoordinateResult, World,
}
use umbraco_mcp_ops.Coordinate.Preserve.{Preserves, Frame, step_rules}
use umbraco_mcp_ops.Coordinate.Release.{
  trusted_author, refuse_release, release_after_merge, after_merge_call, merge_release,
  release_approved_as, handle_release_approved, retry_release_publish,
}
use umbraco_mcp_ops.Coordinate.Preserve.Apply.{apply_event-Preserves}

module _ {P : World → Type 0} {d : Deps} where
  pub trusted_author-Preserves : (a0 : Input) → Frame P d → Preserves P (trusted_author d a0)
  unfolding trusted_author
  trusted_author-Preserves input F = search step_rules depth 30

  pub refuse_release-Preserves :
      (a0 : Input) (a1 : List Name) (a2 : String) (a3 : CoordinateResult) (a4 : RefusedMerge)
      → Frame P d
      → Preserves P (refuse_release d a0 a1 a2 a3 a4)
  unfolding refuse_release
  refuse_release-Preserves input labels version result why F =
      search (step_rules, apply_event-Preserves) depth 30

  pub release_after_merge-Preserves :
      (a0 : Input) (a1 : List Name) (a2 : Number) (a3 : String) (a4 : MergeMethod)
      → Frame P d
      → Preserves P (release_after_merge d a0 a1 a2 a3 a4)
  unfolding release_after_merge
  release_after_merge-Preserves input labels pr sha method F =
      search (step_rules, apply_event-Preserves) depth 30

  pub after_merge_call-Preserves :
      (a0 : Input) (a1 : List Name) (a2 : Number) (a3 : String) (a4 : String) (a5 : MergeMethod)
      (a6 : CoordinateResult) (a7 : Answer (Unit {0}))
      → Frame P d
      → Preserves P (after_merge_call d a0 a1 a2 a3 a4 a5 a6 a7)
  unfolding after_merge_call
  after_merge_call-Preserves input labels pr sha version method result (ok _) F =
      search (step_rules, release_after_merge-Preserves) depth 30
  after_merge_call-Preserves input labels pr sha version method result (thrown e) F =
      search (step_rules, release_after_merge-Preserves, refuse_release-Preserves) depth 30

  pub merge_release-Preserves :
      (a0 : Input) (a1 : List Name) (a2 : Number) (a3 : String) (a4 : String) (a5 : MergeMethod)
      (a6 : CoordinateResult) (a7 : PullDetails)
      → Frame P d
      → Preserves P (merge_release d a0 a1 a2 a3 a4 a5 a6 a7)
  unfolding merge_release
  merge_release-Preserves input labels pr sha version method result pull F =
      search
        (
          step_rules, release_after_merge-Preserves, refuse_release-Preserves,
          after_merge_call-Preserves,
        )
        depth 30

  pub release_approved_as-Preserves :
      (a0 : Input) (a1 : List Name) (a2 : Option Outcome)
      → Frame P d
      → Preserves P (release_approved_as d a0 a1 a2)
  unfolding release_approved_as
  release_approved_as-Preserves input labels (some (Outcome.release_approved pr sha version method))
        F =
      search (step_rules, trusted_author-Preserves, apply_event-Preserves, merge_release-Preserves)
        depth 30
  release_approved_as-Preserves input labels _ F = search step_rules depth 30

  pub handle_release_approved-Preserves :
      (a0 : Input) (a1 : List Name) → Frame P d → Preserves P (handle_release_approved d a0 a1)
  unfolding handle_release_approved
  handle_release_approved-Preserves input labels F =
      search (step_rules, release_approved_as-Preserves) depth 30

  pub retry_release_publish-Preserves :
      (a0 : Input) (a1 : List Name) → Frame P d → Preserves P (retry_release_publish d a0 a1)
  unfolding retry_release_publish
  retry_release_publish-Preserves input labels F =
      search (step_rules, apply_event-Preserves) depth 30
