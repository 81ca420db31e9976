-- ===== src/Coordinate/Preserve/Events.antt =====
-- Invariants of the handlers in Coordinate/Events (worker/src/coordinate/webhook.ts).
use umbraco_mcp_ops.Prelude.{
  Bool-cases, inl, inr, Bool, Option, none, some, List, Option-cases, inl, inr,
}
use umbraco_mcp_ops.Graph.Label.{Name}
use umbraco_mcp_ops.Graph.Event.{
  Event, labelled_auto_reworking, labelled_ai_reviewing, labelled_auto_merging,
  labelled_auto_releasing, pr_merged, released, release_approved, release_published,
  build_succeeded, review_passed,
}
use umbraco_mcp_ops.Graph.Outcome.{Outcome}
use umbraco_mcp_ops.Graph.Gate.{MergeGateFacts, hard_block_reason}
use umbraco_mcp_ops.Graph.Translate.{Payload}
use umbraco_mcp_ops.Coordinate.Types.{Deps, Input, CoordinateResult, ignored, World}
use umbraco_mcp_ops.Coordinate.Rework.{ReworkEnd}
use umbraco_mcp_ops.Coordinate.Rework.{past_cap}
use umbraco_mcp_ops.Coordinate.Preserve.{
  bind-Preserves, read-Preserves, Preserves, Frame, step_rules,
}
use umbraco_mcp_ops.Coordinate.Events.{
  log_override_at, labels_shown, log_manual_override, result_or_override, finish_event,
  handle_labelled_rework, handle_labelled_review, gate_merge, handle_labelled_merge,
  after_published, handle_release_published, handle_merge_blocked, after_built, handle_built,
  handle_review_passed, route_event, LabelChange,
}
use umbraco_mcp_ops.Coordinate.Preserve.Stages.{
  hand_off_release-Preserves, hand_off_review-Preserves, handle_pr_merged-Preserves,
  handle_released-Preserves,
}
use umbraco_mcp_ops.Coordinate.Preserve.Rework.{
  cap_review_rework-Preserves, count_round-Preserves, release_later-Preserves,
}
use umbraco_mcp_ops.Coordinate.Preserve.MergeGate.{
  block_merge-Preserves, hand_to_rework-Preserves, settled_gate_facts-Preserves,
}
use umbraco_mcp_ops.Coordinate.Preserve.Apply.{apply_event-Preserves}
use umbraco_mcp_ops.Coordinate.Preserve.Release.{
  handle_release_approved-Preserves, retry_release_publish-Preserves, trusted_author-Preserves,
}
use umbraco_mcp_ops.Coordinate.Preserve.Reviewing.{
  review_handed_off-Preserves, review_if_on-Preserves,
}
use umbraco_mcp_ops.Coordinate.Preserve.ReviewGate.{handle_review_findings-Preserves}

module _ {P : World → Type 0} {d : Deps} where
  pub log_override_at-Preserves :
      (a0 : Input) (a1 : LabelChange) (a2 : List Name)
      → Frame P d
      → Preserves P (log_override_at d a0 a1 a2)
  unfolding log_override_at
  log_override_at-Preserves input c now F = search step_rules depth 30

  pub labels_shown-Preserves :
      (a0 : Option (List Name)) (a1 : Option (List Name))
      → Frame P d
      → Preserves P (labels_shown d a0 a1)
  unfolding labels_shown
  labels_shown-Preserves (some now) labels F = search step_rules depth 30
  labels_shown-Preserves none (some now) F = search step_rules depth 30
  labels_shown-Preserves none none F = search step_rules depth 30

  pub log_manual_override-Preserves :
      (a0 : Input) (a1 : LabelChange) (a2 : Option (List Name))
      → Frame P d
      → Preserves P (log_manual_override d a0 a1 a2)
  unfolding log_manual_override
  log_manual_override-Preserves input c labels F =
      search (step_rules, labels_shown-Preserves, log_override_at-Preserves) depth 30

  pub result_or_override-Preserves :
      (a0 : Input) (a1 : List Name) (a2 : Option LabelChange) (a3 : CoordinateResult)
      → Frame P d
      → Preserves P (result_or_override d a0 a1 a2 a3)
  unfolding result_or_override
  result_or_override-Preserves input labels (some c) (ignored s e) F =
      search (step_rules, log_manual_override-Preserves) depth 30
  result_or_override-Preserves input labels human result F = search step_rules depth 30

  pub finish_event-Preserves :
      (a0 : Input) (a1 : List Name) (a2 : Option LabelChange) (a3 : ReworkEnd) (a4 : Bool)
      → Frame P d
      → Preserves P (finish_event d a0 a1 a2 a3 a4)
  unfolding finish_event
  finish_event-Preserves input labels human ended restart F =
      search
        (step_rules, apply_event-Preserves, release_later-Preserves, result_or_override-Preserves)
        depth 30

  pub handle_labelled_rework-Preserves :
      (a0 : Input) (a1 : List Name) (a2 : Option LabelChange) (a3 : ReworkEnd)
      → Frame P d
      → Preserves P (handle_labelled_rework d a0 a1 a2 a3)
  unfolding handle_labelled_rework
  handle_labelled_rework-Preserves input labels human ended F =
      bind-Preserves _ _ (read-Preserves _) (λ rounds.
        elim (Bool-cases (past_cap d.caps.review_reworks rounds)) [
          | inl e ↦ rw e (search (cap_review_rework-Preserves))
          | inr e ↦
              rw e (search (step_rules, count_round-Preserves, finish_event-Preserves) depth 30)
        ])

  pub handle_labelled_review-Preserves :
      (a0 : Input) (a1 : List Name) (a2 : Option Payload)
      → Frame P d
      → Preserves P (handle_labelled_review d a0 a1 a2)
  unfolding handle_labelled_review
  handle_labelled_review-Preserves input labels none F =
      search (step_rules, review_if_on-Preserves) depth 30
  handle_labelled_review-Preserves input labels (some p) F =
      search (step_rules, review_handed_off-Preserves, review_if_on-Preserves) depth 30

  pub gate_merge-Preserves :
      (a0 : Input) (a1 : List Name) (a2 : Option LabelChange) (a3 : ReworkEnd) (a4 : MergeGateFacts)
      → Frame P d
      → Preserves P (gate_merge d a0 a1 a2 a3 a4)
  unfolding gate_merge
  gate_merge-Preserves input labels human ended facts F =
      elim (Option-cases (hard_block_reason facts)) [
        | inl e ↦
            rw (gate_merge, e)
              (search (step_rules, hand_to_rework-Preserves, finish_event-Preserves) depth 30)
        | inr (why, e) ↦ rw (gate_merge, e) (search (step_rules, block_merge-Preserves) depth 30)
      ]

  pub handle_labelled_merge-Preserves :
      (a0 : Input) (a1 : List Name) (a2 : Option LabelChange) (a3 : ReworkEnd)
      → Frame P d
      → Preserves P (handle_labelled_merge d a0 a1 a2 a3)
  unfolding handle_labelled_merge
  handle_labelled_merge-Preserves input labels human ended F =
      search (step_rules, settled_gate_facts-Preserves, gate_merge-Preserves) depth 30

  pub after_published-Preserves :
      (a0 : Input) (a1 : CoordinateResult) (a2 : Option Outcome)
      → Frame P d
      → Preserves P (after_published d a0 a1 a2)
  unfolding after_published
  after_published-Preserves input published (some (Outcome.release_published version tag)) F =
      search (step_rules, hand_off_release-Preserves) depth 30
  after_published-Preserves input published _ F = search step_rules depth 30

  pub handle_release_published-Preserves :
      (a0 : Input) (a1 : List Name) → Frame P d → Preserves P (handle_release_published d a0 a1)
  unfolding handle_release_published
  handle_release_published-Preserves input labels F =
      search
        (step_rules, trusted_author-Preserves, apply_event-Preserves, after_published-Preserves)
        depth 30

  pub handle_merge_blocked-Preserves :
      (a0 : Input) (a1 : List Name) (a2 : Option Outcome)
      → Frame P d
      → Preserves P (handle_merge_blocked d a0 a1 a2)
  unfolding handle_merge_blocked
  handle_merge_blocked-Preserves input labels (some (Outcome.merge_blocked reason)) F =
      search (step_rules, block_merge-Preserves) depth 30
  handle_merge_blocked-Preserves input labels _ F = search step_rules depth 30

  pub after_built-Preserves :
      (a0 : Input) (a1 : CoordinateResult) (a2 : Option Outcome)
      → Frame P d
      → Preserves P (after_built d a0 a1 a2)
  unfolding after_built
  after_built-Preserves input built (some (Outcome.build_succeeded pr)) F =
      search (step_rules, trusted_author-Preserves, hand_off_review-Preserves) depth 30
  after_built-Preserves input built _ F = search step_rules depth 30

  pub handle_built-Preserves :
      (a0 : Input) (a1 : List Name) → Frame P d → Preserves P (handle_built d a0 a1)
  unfolding handle_built
  handle_built-Preserves input labels F =
      search (step_rules, apply_event-Preserves, after_built-Preserves) depth 30

  pub handle_review_passed-Preserves :
      (a0 : Input) (a1 : List Name) → Frame P d → Preserves P (handle_review_passed d a0 a1)
  unfolding handle_review_passed
  handle_review_passed-Preserves input labels F =
      search (step_rules, apply_event-Preserves) depth 30

  pub route_event-Preserves :
      (a0 : Input) (a1 : List Name) (a2 : Option LabelChange) (a3 : ReworkEnd) (a4 : Event)
      → Frame P d
      → Preserves P (route_event d a0 a1 a2 a3 a4)
  unfolding route_event
  route_event-Preserves input labels human ended labelled_auto_reworking F =
      search (step_rules, handle_labelled_rework-Preserves) depth 30
  route_event-Preserves input labels human ended labelled_ai_reviewing F =
      search (step_rules, handle_labelled_review-Preserves) depth 30
  route_event-Preserves input labels human ended Event.review_findings F =
      search (step_rules, handle_review_findings-Preserves, finish_event-Preserves) depth 30
  route_event-Preserves input labels human ended pr_merged F =
      search (step_rules, handle_pr_merged-Preserves) depth 30
  route_event-Preserves input labels human ended released F =
      search (step_rules, handle_released-Preserves) depth 30
  route_event-Preserves input labels human ended release_approved F =
      search (step_rules, handle_release_approved-Preserves) depth 30
  route_event-Preserves input labels human ended labelled_auto_releasing F =
      search (step_rules, retry_release_publish-Preserves, finish_event-Preserves) depth 30
  route_event-Preserves input labels human ended release_published F =
      search (step_rules, handle_release_published-Preserves) depth 30
  route_event-Preserves input labels human ended Event.merge_blocked F =
      search (step_rules, handle_merge_blocked-Preserves) depth 30
  route_event-Preserves input labels human ended build_succeeded F =
      search (step_rules, handle_built-Preserves, finish_event-Preserves) depth 30
  route_event-Preserves input labels human ended review_passed F =
      search (step_rules, handle_review_passed-Preserves) depth 30
  route_event-Preserves input labels human ended labelled_auto_merging F =
      search (step_rules, handle_labelled_merge-Preserves) depth 30
  route_event-Preserves input labels human ended _ F =
      search (step_rules, finish_event-Preserves) depth 30
