-- ===== src/Coordinate/Preserve/Webhook.antt =====
-- Invariants of the handlers in Coordinate/Webhook (worker/src/coordinate/webhook.ts).
use umbraco_mcp_ops.Prelude.{
  String, Bool, true, false, Option, none, some, List, Option-cases, inl, inr,
}
use umbraco_mcp_ops.Graph.Label.{Name}
use umbraco_mcp_ops.Graph.Event.{Event}
use umbraco_mcp_ops.Graph.Gate.{MergeGateFacts, hard_block_reason}
use umbraco_mcp_ops.Graph.Translate.{Payload}
use umbraco_mcp_ops.Coordinate.Types.{
  PendingFire, Answer, ok, thrown, Deps, Input, CoordinateResult, World,
}
use umbraco_mcp_ops.Coordinate.OutcomeDedupe.{ReportedOutcome}
use umbraco_mcp_ops.Coordinate.Rework.{ReworkEnd}
use umbraco_mcp_ops.Coordinate.Events.{LabelChange}
use umbraco_mcp_ops.Coordinate.Preserve.{
  Preserves, Frame, step_rules, Claims, mark_seen-Preserves, unmark_seen-Preserves,
}
use umbraco_mcp_ops.Coordinate.Webhook.{
  merge_when_green, check_merge, check_labels, handle_check_suite, event_in, trusted_event,
  event_known, event_or_none, process_event, after_event, remember_if, process_fresh,
  process_reported, process_webhook, release_if_thrown, claim_delivery, coordinate_webhook,
}
use umbraco_mcp_ops.Coordinate.Preserve.MergeGate.{
  block_merge-Preserves, hand_to_rework-Preserves, settled_gate_facts-Preserves,
}
use umbraco_mcp_ops.Coordinate.Preserve.Rework.{drop_stray_push-Preserves, release_now-Preserves}
use umbraco_mcp_ops.Coordinate.Preserve.Apply.{apply_event-Preserves}
use umbraco_mcp_ops.Coordinate.Preserve.Events.{
  log_manual_override-Preserves, route_event-Preserves,
}
use umbraco_mcp_ops.Coordinate.Preserve.Release.{trusted_author-Preserves}
use umbraco_mcp_ops.Coordinate.Preserve.OutcomeDedupe.{
  log_deduped-Preserves, remember_applied-Preserves,
}
use umbraco_mcp_ops.Coordinate.Preserve.Stages.{
  export_work_log-Preserves, hand_off_merged-Preserves,
}
use umbraco_mcp_ops.Coordinate.Preserve.ReviewGate.{review_gate-Preserves}

module _ {P : World → Type 0} {d : Deps} where
  pub merge_when_green-Preserves :
      (a0 : Input) (a1 : List Name) (a2 : MergeGateFacts) (a3 : Option String)
      → Frame P d
      → Preserves P (merge_when_green d a0 a1 a2 a3)
  unfolding merge_when_green
  merge_when_green-Preserves input labels facts none F = search step_rules depth 30
  merge_when_green-Preserves input labels facts (some sha) F =
      search (step_rules, apply_event-Preserves) depth 30

  pub check_merge-Preserves :
      (a0 : Input) (a1 : List Name) (a2 : MergeGateFacts)
      → Frame P d
      → Preserves P (check_merge d a0 a1 a2)
  unfolding check_merge
  check_merge-Preserves input labels facts F = elim (Option-cases (hard_block_reason facts)) [
    | inl e ↦
        rw (check_merge, e)
          (search (step_rules, hand_to_rework-Preserves, merge_when_green-Preserves) depth 30)
    | inr (why, e) ↦ rw (check_merge, e) (search (step_rules, block_merge-Preserves) depth 30)
  ]

  pub check_labels-Preserves :
      (a0 : Input) (a1 : List Name) → Frame P d → Preserves P (check_labels d a0 a1)
  unfolding check_labels
  check_labels-Preserves input labels F =
      search
        (step_rules, review_gate-Preserves, settled_gate_facts-Preserves, check_merge-Preserves)
        depth 30

  pub handle_check_suite-Preserves :
      (a0 : Input) (a1 : Payload) → Frame P d → Preserves P (handle_check_suite d a0 a1)
  unfolding handle_check_suite
  handle_check_suite-Preserves input p F = search (step_rules, check_labels-Preserves) depth 30

  pub event_in-Preserves :
      (a0 : Input) (a1 : List Name) (a2 : Option LabelChange) (a3 : ReworkEnd)
      → Frame P d
      → Preserves P (event_in d a0 a1 a2 a3)
  unfolding event_in
  event_in-Preserves input labels human ended F =
      search (step_rules, release_now-Preserves, drop_stray_push-Preserves, route_event-Preserves)
        depth 30

  pub trusted_event-Preserves :
      (a0 : Input) (a1 : Option LabelChange) (a2 : Event) (a3 : Bool)
      → Frame P d
      → Preserves P (trusted_event d a0 a1 a2 a3)
  unfolding trusted_event
  trusted_event-Preserves input human event false F = search step_rules depth 30
  trusted_event-Preserves input human event true F =
      search (step_rules, event_in-Preserves) depth 30

  pub event_known-Preserves :
      (a0 : Input) (a1 : Payload) (a2 : Option LabelChange) (a3 : Event)
      → Frame P d
      → Preserves P (event_known d a0 a1 a2 a3)
  unfolding event_known
  event_known-Preserves input p human event F =
      search (step_rules, trusted_author-Preserves, trusted_event-Preserves) depth 30

  pub event_or_none-Preserves :
      (a0 : Input) (a1 : Payload) (a2 : Option LabelChange) (a3 : Option Event)
      → Frame P d
      → Preserves P (event_or_none d a0 a1 a2 a3)
  unfolding event_or_none
  event_or_none-Preserves input p human (some event) F =
      search (step_rules, event_known-Preserves) depth 30
  event_or_none-Preserves input p (some c) none F =
      search (step_rules, log_manual_override-Preserves) depth 30
  event_or_none-Preserves input p none none F = search step_rules depth 30

  pub process_event-Preserves :
      (a0 : Input) (a1 : Payload) → Frame P d → Preserves P (process_event d a0 a1)
  unfolding process_event
  process_event-Preserves input p F =
      search (step_rules, handle_check_suite-Preserves, event_or_none-Preserves) depth 30

  pub after_event-Preserves :
      (a0 : Input) (a1 : Payload) → Frame P d → Preserves P (after_event d a0 a1)
  unfolding after_event
  after_event-Preserves input p F =
      search (step_rules, hand_off_merged-Preserves, export_work_log-Preserves) depth 30

  pub remember_if-Preserves :
      (a0 : Option ReportedOutcome) (a1 : Option PendingFire) (a2 : CoordinateResult)
      → Frame P d
      → Preserves P (remember_if a0 a1 a2)
  unfolding remember_if
  remember_if-Preserves none before result F = search step_rules depth 30
  remember_if-Preserves (some reported) before result F =
      search (step_rules, remember_applied-Preserves) depth 30

  pub process_fresh-Preserves :
      (a0 : Input) (a1 : Payload) (a2 : Option ReportedOutcome)
      → Frame P d
      → Preserves P (process_fresh d a0 a1 a2)
  unfolding process_fresh
  process_fresh-Preserves input p reported F =
      search (step_rules, process_event-Preserves, remember_if-Preserves, after_event-Preserves)
        depth 30

  pub process_reported-Preserves :
      (a0 : Input) (a1 : Payload) (a2 : Option ReportedOutcome)
      → Frame P d
      → Preserves P (process_reported d a0 a1 a2)
  unfolding process_reported
  process_reported-Preserves input p none F = search (step_rules, process_fresh-Preserves) depth 30
  process_reported-Preserves input p (some reported) F =
      search (step_rules, log_deduped-Preserves, process_fresh-Preserves) depth 30

  pub process_webhook-Preserves :
      (a0 : Input) (a1 : Payload) → Frame P d → Preserves P (process_webhook d a0 a1)
  unfolding process_webhook
  process_webhook-Preserves input p F = search (step_rules, process_reported-Preserves) depth 30

  pub release_if_thrown-Preserves :
      (a0 : String) (a1 : Answer CoordinateResult)
      → Frame P d
      → Claims P
      → Preserves P (release_if_thrown a0 a1)
  unfolding release_if_thrown
  release_if_thrown-Preserves id (ok result) F C = search step_rules depth 30
  release_if_thrown-Preserves id (thrown e) F C =
      search (step_rules, unmark_seen-Preserves) depth 30

  pub claim_delivery-Preserves :
      (a0 : Input) (a1 : Payload) (a2 : String) (a3 : Bool)
      → Frame P d
      → Claims P
      → Preserves P (claim_delivery d a0 a1 a2 a3)
  unfolding claim_delivery
  claim_delivery-Preserves input p id true F C = search step_rules depth 30
  claim_delivery-Preserves input p id false F C =
      search
        (step_rules, mark_seen-Preserves, process_webhook-Preserves, release_if_thrown-Preserves)
        depth 30

  pub coordinate_webhook-Preserves :
      (a0 : Input) (a1 : Payload) → Frame P d → Claims P → Preserves P (coordinate_webhook d a0 a1)
  unfolding coordinate_webhook
  coordinate_webhook-Preserves input p F C = elim (Option-cases input.delivery) [
    | inl e ↦ rw (coordinate_webhook, e) (search (process_webhook-Preserves))
    | inr (id, e) ↦
        rw (coordinate_webhook, e) (search (step_rules, claim_delivery-Preserves) depth 30)
  ]
