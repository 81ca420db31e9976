-- ===== src/Coordinate/Webhook.antt =====
-- worker/src/coordinate/webhook.ts: a webhook of one issue or PR, from its delivery to its result.
use umbraco_mcp_ops.Prelude.{
  String, Bool, true, false, ◌&&◌, ◌||◌, Option, none, some, List, is_some, get_or, str_eq,
  if◌then◌else◌,
}
use umbraco_mcp_ops.Graph.Label.{Name, tracked, includes, ai_reviewing, auto_merging}
use umbraco_mcp_ops.Graph.Event.{Event, rework_no_change, discussion_capped, merge_gate_passed}
use umbraco_mcp_ops.Graph.Gate.{MergeGateFacts, any_pending, hard_block_reason, failed_check_names}
use umbraco_mcp_ops.Graph.Translate.{
  Action, issues_labeled, issues_unlabeled, pull_request_labeled, pull_request_unlabeled,
  issues_closed, issues_reopened, pull_request_closed, pull_request_reopened, check_suite_completed,
  Payload, IssueFacts, IssueState, translate, default_bot_login,
}
use umbraco_mcp_ops.Coordinate.DeriveState.{derive_state}
use umbraco_mcp_ops.Coordinate.Types.{
  hard_block, gone, reopened, PendingFire, Answer, ok, thrown, Deps, Input, CoordinateResult,
  deduped, no_event, is_applied,
}
use umbraco_mcp_ops.Coordinate.Steps.{Step, pure, throw, read, ask, attempt, when, ◌>>=◌, ◌>>◌}
use umbraco_mcp_ops.Coordinate.Storage.{
  clear_pending_fire, get_pending_fire, set_merge_fired_for, has_seen, mark_seen, unmark_seen,
  record_status,
}
use umbraco_mcp_ops.Coordinate.Apply.{apply_event}
use umbraco_mcp_ops.Coordinate.MergeGate.{block_merge, hand_to_rework, settled_gate_facts}
use umbraco_mcp_ops.Coordinate.ReviewGate.{review_gate, is_empty}
use umbraco_mcp_ops.Coordinate.OutcomeDedupe.{
  ReportedOutcome, reported_outcome, was_applied, remember_applied, log_deduped,
}
use umbraco_mcp_ops.Coordinate.Release.{trusted_author}
use umbraco_mcp_ops.Coordinate.Stages.{hand_off_merged, export_work_log}
use umbraco_mcp_ops.Coordinate.Rework.{
  reads_as, ReworkEnd, rework_end, release_now, is_stray_push, drop_stray_push,
}
use umbraco_mcp_ops.Coordinate.Events.{LabelChange, log_manual_override, route_event}

-- A label event's sign, for the actions of `humanLabelChange`.
abbrev pub sign_of : Action → Option Bool
sign_of issues_labeled = some true
sign_of pull_request_labeled = some true
sign_of issues_unlabeled = some false
sign_of pull_request_unlabeled = some false
sign_of _ = none

change_of : Option Bool → Option Name → Option LabelChange
change_of (some sign) (some (tracked l)) = some (record { added = sign; label = l })
change_of _ _ = none

abbrev sent_by : Option String → Payload → Bool
sent_by none p = false
sent_by (some bot) p = elim p.sender [ none ↦ false | some s ↦ str_eq s.login bot ]

-- `humanLabelChange`.
unfoldable pub human_label_change : Payload → Option String → Option LabelChange
unfolding change_of
human_label_change p bot = if sent_by bot p then none else change_of (sign_of p.action) p.label

abbrev pub head_is : String → Option String → Bool
head_is sha none = false
head_is sha (some s) = str_eq s sha

-- Green CI under `auto-merging`: merge-flow again, once for each head commit.
unfoldable pub merge_when_green :
    Deps → Input → List Name → MergeGateFacts → Option String → Step CoordinateResult
merge_when_green d input labels facts none = pure no_event
merge_when_green d input labels facts (some sha) = do
  fired ← read (λ s. head_is sha s.merge_fired_for)
  if is_empty facts.check_runs || fired then pure no_event else (do
    result ← apply_event d input merge_gate_passed labels
    when (is_applied result) (set_merge_fired_for sha)
    pure result)

unfoldable pub check_merge : Deps → Input → List Name → MergeGateFacts → Step CoordinateResult
check_merge d input labels facts =
    if any_pending facts then pure no_event else elim (hard_block_reason facts) [
      | some why ↦ block_merge d input labels (hard_block why) Event.merge_gate_failed_hard
      | none ↦
          if is_empty (failed_check_names facts)
          then merge_when_green d input labels facts facts.head_sha
          else hand_to_rework d input labels facts
    ]

unfoldable pub check_labels : Deps → Input → List Name → Step CoordinateResult
check_labels d input labels =
    if reads_as ai_reviewing (derive_state labels)
    then review_gate d input labels
    else if includes (tracked auto_merging) labels
    then (do facts ← settled_gate_facts d; check_merge d input labels facts)
    else pure no_event

abbrev suite_done : Option Bool → Bool
suite_done (some done) = done
suite_done none = false

-- `handleCheckSuiteCompleted`.
unfoldable pub handle_check_suite : Deps → Input → Payload → Step CoordinateResult
handle_check_suite d input p =
    if suite_done p.suite_completed
    then (do labels ← ask d.outside.labels; check_labels d input labels)
    else pure no_event

-- The events whose report counts only from a trusted author.
abbrev pub wants_trust : Event → Bool
wants_trust rework_no_change = true
wants_trust Event.merge_blocked = true
wants_trust discussion_capped = true
wants_trust _ = false

abbrev on_closed_issue : Payload → Bool
on_closed_issue p = is_labeled p.action && closed_state p.issue
  where
    is_labeled : Action → Bool
    is_labeled issues_labeled = true
    is_labeled _ = false

    closed_state : Option IssueFacts → Bool
    closed_state none = false
    closed_state (some i) = elim i.state [ some IssueState.closed_issue ↦ true | _ ↦ false ]

-- The event with its rework bookkeeping done, then its own case.
unfoldable pub event_in :
    Deps → Input → List Name → Option LabelChange → ReworkEnd → Step CoordinateResult
event_in d input labels human ended = do
  release_now ended
  if is_stray_push ended (derive_state labels)
      then drop_stray_push d input ended.event
      else route_event d input labels human ended ended.event

unfoldable pub trusted_event :
    Deps → Input → Option LabelChange → Event → Bool → Step CoordinateResult
trusted_event d input human event false = pure no_event
trusted_event d input human event true = do
  labels ← ask d.outside.labels
  ended ← read (λ s. rework_end event (derive_state labels) s)
  event_in d input labels human ended

unfoldable pub event_known :
    Deps → Input → Payload → Option LabelChange → Event → Step CoordinateResult
event_known d input p human event =
    if on_closed_issue p then pure (CoordinateResult.closed_issue event) else (do
      trusted ← if wants_trust event then trusted_author d input else pure true
      trusted_event d input human event trusted)

unfoldable pub event_or_none :
    Deps → Input → Payload → Option LabelChange → Option Event → Step CoordinateResult
event_or_none d input p human (some event) = event_known d input p human event
event_or_none d input p (some c) none = log_manual_override d input c none
event_or_none d input p none none = pure no_event

abbrev is_suite : Action → Bool
is_suite check_suite_completed = true
is_suite _ = false

-- `processEvent`.
unfoldable pub process_event : Deps → Input → Payload → Step CoordinateResult
process_event d input p = if is_suite p.action then handle_check_suite d input p else (do
  bot ← ask d.outside.bot_login
  event_or_none d input p (human_label_change p bot)
      (translate d.outside.engine (get_or bot default_bot_login) p))

-- What `processWebhook` does after the event, by the action.
unfoldable pub after_event : Deps → Input → Payload → Step (Unit {0})
after_event d input p = do
  when (closes_pr p.action)
      (do hand_off_merged d input p.pull_request; export_work_log d input p.pull_request)
  when (closes_item p.action) (do
    record_status (gone true)
    waiting ← read (λ s. is_deferred s.pending)
    when waiting clear_pending_fire)
  when (reopens p.action) (record_status reopened)
  where
    closes_pr : Action → Bool
    closes_pr pull_request_closed = true
    closes_pr _ = false

    closes_item : Action → Bool
    closes_item issues_closed = true
    closes_item pull_request_closed = true
    closes_item _ = false

    reopens : Action → Bool
    reopens issues_reopened = true
    reopens pull_request_reopened = true
    reopens _ = false

    is_deferred : Option PendingFire → Bool
    is_deferred none = false
    is_deferred (some q) = is_some q.defer_until

unfoldable pub remember_if :
    Option ReportedOutcome → Option PendingFire → CoordinateResult → Step (Unit {0})
remember_if none before result = pure tt
remember_if (some reported) before result =
    when (is_applied result) (do kept ← attempt (remember_applied reported before); pure tt)

unfoldable pub process_fresh :
    Deps → Input → Payload → Option ReportedOutcome → Step CoordinateResult
process_fresh d input p reported = do
  before ← get_pending_fire
  result ← process_event d input p
  remember_if reported before result
  after_event d input p
  pure result

-- `processWebhook`.
unfoldable pub process_reported :
    Deps → Input → Payload → Option ReportedOutcome → Step CoordinateResult
process_reported d input p none = process_fresh d input p none
process_reported d input p (some reported) = do
  again ← read (was_applied reported)
  if again then log_deduped d input reported else process_fresh d input p (some reported)

unfoldable pub process_webhook : Deps → Input → Payload → Step CoordinateResult
process_webhook d input p = process_reported d input p (reported_outcome d.outside.engine p)

-- A delivery that throws releases its claim, so that its redelivery is processed.
unfoldable pub release_if_thrown : String → Answer CoordinateResult → Step CoordinateResult
release_if_thrown id (ok result) = pure result
release_if_thrown id (thrown e) = do unmark_seen id; throw e

unfoldable pub claim_delivery : Deps → Input → Payload → String → Bool → Step CoordinateResult
claim_delivery d input p id true = pure deduped
claim_delivery d input p id false = do
  mark_seen id
  answer ← attempt (process_webhook d input p)
  release_if_thrown id answer

-- `coordinateWebhook`.
unfoldable pub coordinate_webhook : Deps → Input → Payload → Step CoordinateResult
coordinate_webhook d input p = elim input.delivery [
  | none ↦ process_webhook d input p
  | some id ↦ do seen ← read (λ s. has_seen id s.seen); claim_delivery d input p id seen
]
