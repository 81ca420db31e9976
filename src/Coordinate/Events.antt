-- ===== src/Coordinate/Events.antt =====
-- worker/src/coordinate/webhook.ts, `processEvent`: what each domain event does once it is decided and
-- the labels are at hand.
use umbraco_mcp_ops.Prelude.{
  ◌-◌, Bool, true, false, not, ◌&&◌, Option, none, some, List, [], ◌∷◌, ◌++◌, is_some, get_or,
  if◌then◌else◌,
}
use Prim.Native.String.{◌++◌ as join}
use umbraco_mcp_ops.Graph.Label.{
  Label, Name, tracked, includes, without, ai_reviewing, ai_stuck, auto_merging, auto_reworking,
  auto_releasing,
}
use umbraco_mcp_ops.Graph.Event.{
  Event, labelled_auto_reworking, labelled_ai_reviewing, labelled_auto_merging,
  labelled_auto_releasing, pr_merged, released, release_approved, release_published,
  build_succeeded, review_passed,
}
use umbraco_mcp_ops.Graph.Table.{Effect, noop}
use umbraco_mcp_ops.Graph.Outcome.{Outcome}
use umbraco_mcp_ops.Graph.Gate.{
  MergeGateFacts, MergeGateOutcome, soft, hard_block_reason, derive_gate,
}
use umbraco_mcp_ops.Graph.Translate.{
  Action, issue_comment_created, orchestrator_review_requested, Payload, Shipped, Release,
}
use umbraco_mcp_ops.Coordinate.DeriveState.{derive_state}
use umbraco_mcp_ops.Coordinate.Types.{
  RowName, domain, manual, hard_block, reported_block, Call, review_restarts, Deps, Input,
  CoordinateResult, no_event, stale_label, ignored, applied, is_applied, deps_for, mode_for,
}
use umbraco_mcp_ops.Coordinate.Steps.{
  Step, pure, read, ask, attempt, perform_live, when, ◌>>=◌, ◌>>◌,
}
use umbraco_mcp_ops.Coordinate.Storage.{
  set_ci_fix, set_review_loop, set_rework_expired, set_release_merged, payload_sender,
}
use umbraco_mcp_ops.Coordinate.Apply.{apply_event, row, log_row}
use umbraco_mcp_ops.Coordinate.MergeGate.{block_merge, hand_to_rework, settled_gate_facts}
use umbraco_mcp_ops.Coordinate.ReviewGate.{handle_review_findings}
use umbraco_mcp_ops.Coordinate.Release.{
  trusted_author, artifact_of, handle_release_approved, retry_release_publish,
}
use umbraco_mcp_ops.Coordinate.Stages.{
  hand_off_review, hand_off_release, handle_pr_merged, handle_released,
}
use umbraco_mcp_ops.Coordinate.Rework.{
  reads_as, ReworkEnd, release_later, round_number, restarts_review, count_round, past_cap,
  cap_review_rework,
}
use umbraco_mcp_ops.Coordinate.Reviewing.{review_if_on, review_handed_off}

-- A person's label change: added or removed, and the label.
pub record LabelChange : Type 0 where
  pub added : Bool
  pub label : Label

abbrev payload_labels : Option Payload → Option (List Name)
payload_labels none = none
payload_labels (some p) = p.labels

-- The labels before a change that `now` already shows.
abbrev pub before_change : LabelChange → List Name → List Name
before_change c now = if c.added then without (tracked c.label) now else now ++ tracked c.label ∷ []

unfoldable pub log_override_at : Deps → Input → LabelChange → List Name → Step CoordinateResult
log_override_at d input c now = do
  log_row d
      (record (row input (derive_state (before_change c now)) RowName.manual_override
        (some (manual c.added c.label (payload_sender input.payload) (derive_state now))) none none
        (mode_for d RowName.manual_override)) { actor = payload_sender input.payload })
  pure (CoordinateResult.manual_override c.added c.label (payload_sender input.payload))

-- The event's own snapshot first, then the labels at hand, then a read.
unfoldable pub labels_shown : Deps → Option (List Name) → Option (List Name) → Step (List Name)
labels_shown d (some now) labels = pure now
labels_shown d none (some now) = pure now
labels_shown d none none = ask d.outside.labels

-- `logManualOverride`.
unfoldable pub log_manual_override :
    Deps → Input → LabelChange → Option (List Name) → Step CoordinateResult
log_manual_override d input c labels = do
  now ← labels_shown d (payload_labels input.payload) labels
  log_override_at d input c now

abbrev is_noop : Effect → Bool
is_noop noop = true
is_noop _ = false

-- Whether an applied rule moved the item.
abbrev pub moved : CoordinateResult → Bool
moved (applied s e r) = not (is_noop r.to)
moved _ = false

-- An ignored label change of a person's is still worth a row.
unfoldable pub result_or_override :
    Deps → Input → List Name → Option LabelChange → CoordinateResult → Step CoordinateResult
result_or_override d input labels (some c) (ignored s e) =
    log_manual_override d input c (some labels)
result_or_override d input labels human result = pure result

-- The end of `processEvent`: the event's rule, and what follows it.
unfoldable pub finish_event :
    Deps → Input → List Name → Option LabelChange → ReworkEnd → Bool → Step CoordinateResult
finish_event d input labels human ended restart = do
  result ← apply_event d input ended.event labels
  when (is_applied result) (release_later ended)
  when (reads_as ai_stuck (derive_state labels) && moved result) (set_rework_expired false)
  when (restart && is_applied result) (do
    said ←
        attempt (
          perform_live (deps_for d (domain labelled_auto_reworking)) (Call.comment review_restarts))
    pure tt)
  result_or_override d input labels human result

unfoldable pub handle_labelled_rework :
    Deps → Input → List Name → Option LabelChange → ReworkEnd → Step CoordinateResult
handle_labelled_rework d input labels human ended = do
  let before = derive_state (without (tracked auto_reworking) labels)
  rounds ← read (λ s. round_number before s.review_reworks)
  if past_cap d.caps.review_reworks rounds
      then cap_review_rework d input labels (get_or rounds 0 - 1)
      else (do
        restart ← read (λ s. restarts_review before s)
        count_round before rounds restart
        finish_event d input labels human ended restart)

abbrev is_review_request : Action → Bool
is_review_request orchestrator_review_requested = true
is_review_request _ = false

unfoldable pub handle_labelled_review :
    Deps → Input → List Name → Option Payload → Step CoordinateResult
handle_labelled_review d input labels none = review_if_on d input labels
handle_labelled_review d input labels (some p) =
    if is_review_request p.action
    then review_handed_off d input labels
    else review_if_on d input labels

abbrev is_soft : MergeGateOutcome → Bool
is_soft soft = true
is_soft _ = false

-- `auto-merging` added, where it is still on: the gate, before its rule.
unfoldable pub gate_merge :
    Deps
    → Input
    → List Name
    → Option LabelChange
    → ReworkEnd
    → MergeGateFacts
    → Step CoordinateResult
gate_merge d input labels human ended facts = elim (hard_block_reason facts) [
  | some why ↦ block_merge d input labels (hard_block why) Event.merge_gate_failed_hard
  | none ↦
      if is_soft (derive_gate facts)
      then hand_to_rework d input labels facts
      else finish_event d input labels human ended false
]

unfoldable pub handle_labelled_merge :
    Deps → Input → List Name → Option LabelChange → ReworkEnd → Step CoordinateResult
handle_labelled_merge d input labels human ended =
    if includes (tracked auto_merging) labels
    then (do
      when (includes (tracked Label.merge_blocked) labels) (set_ci_fix none)
      facts ← settled_gate_facts d
      gate_merge d input labels human ended facts)
    else pure (stale_label labelled_auto_merging)

unfoldable pub after_published :
    Deps → Input → CoordinateResult → Option Outcome → Step CoordinateResult
after_published d input published (some (Outcome.release_published version tag)) = do
  when (is_applied published)
      (do set_release_merged none; hand_off_release d input version (get_or tag (join "v" version)))
  pure published
after_published d input published _ = pure published

unfoldable pub handle_release_published : Deps → Input → List Name → Step CoordinateResult
handle_release_published d input labels = do
  trusted ← trusted_author d input
  if trusted
      then (do
        published ← apply_event d input release_published labels
        after_published d input published (artifact_of d input))
      else pure no_event

unfoldable pub handle_merge_blocked :
    Deps → Input → List Name → Option Outcome → Step CoordinateResult
handle_merge_blocked d input labels (some (Outcome.merge_blocked reason)) =
    block_merge d input labels (reported_block (d.outside.engine.slice 500 reason))
      Event.merge_blocked
handle_merge_blocked d input labels _ = pure no_event

unfoldable pub after_built :
    Deps → Input → CoordinateResult → Option Outcome → Step CoordinateResult
after_built d input built (some (Outcome.build_succeeded pr)) =
    if is_applied built
    then (do
      trusted ← trusted_author d input
      when trusted (hand_off_review d input pr)
      pure built)
    else pure built
after_built d input built _ = pure built

unfoldable pub handle_built : Deps → Input → List Name → Step CoordinateResult
handle_built d input labels = do
  built ← apply_event d input build_succeeded labels
  after_built d input built (artifact_of d input)

unfoldable pub handle_review_passed : Deps → Input → List Name → Step CoordinateResult
handle_review_passed d input labels = do
  passed ← apply_event d input review_passed labels
  when (is_applied passed) (do set_review_loop none; set_ci_fix none; set_rework_expired false)
  pure passed

abbrev pub is_comment_action : Option Payload → Bool
is_comment_action none = false
is_comment_action (some p) = elim p.action [ issue_comment_created ↦ true | _ ↦ false ]

abbrev shipped_of : Option Payload → Option Shipped
shipped_of none = none
shipped_of (some p) = p.shipped

abbrev release_of : Option Payload → Option Release
release_of none = none
release_of (some p) = p.release

-- The cases of `processEvent` by event, the rest to its end.
unfoldable pub route_event :
    Deps → Input → List Name → Option LabelChange → ReworkEnd → Event → Step CoordinateResult
route_event d input labels human ended labelled_auto_reworking =
    handle_labelled_rework d input labels human ended
route_event d input labels human ended labelled_ai_reviewing =
    handle_labelled_review d input labels input.payload
route_event d input labels human ended Event.review_findings =
    if reads_as ai_reviewing (derive_state labels)
    then handle_review_findings d input labels
    else finish_event d input labels human ended false
route_event d input labels human ended pr_merged =
    handle_pr_merged d input labels (shipped_of input.payload)
route_event d input labels human ended released =
    handle_released d input labels (release_of input.payload)
route_event d input labels human ended release_approved = handle_release_approved d input labels
route_event d input labels human ended labelled_auto_releasing = do
  merged ← read (λ s. is_some s.release_merged)
  if merged
      then (if includes (tracked auto_releasing) labels
          then retry_release_publish d input labels
          else pure (stale_label labelled_auto_releasing))
      else finish_event d input labels human ended false
route_event d input labels human ended release_published = handle_release_published d input labels
route_event d input labels human ended Event.merge_blocked =
    handle_merge_blocked d input labels (artifact_of d input)
route_event d input labels human ended build_succeeded =
    if is_comment_action input.payload
    then handle_built d input labels
    else finish_event d input labels human ended false
route_event d input labels human ended review_passed = handle_review_passed d input labels
route_event d input labels human ended labelled_auto_merging =
    handle_labelled_merge d input labels human ended
route_event d input labels human ended _ = finish_event d input labels human ended false
