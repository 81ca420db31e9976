-- ===== src/Graph/RoundTrip.antt =====
-- An outcome as JSON, in the shape that graph/outcomes.ts documents, read back by the parser; and the
-- names that outcomes and events share.
use umbraco_mcp_ops.Prelude.{String, ◌≡◌, refl, Option, none, some}
use umbraco_mcp_ops.Graph.Json.{Json, Fields, number, text, object, end, field}
use umbraco_mcp_ops.Graph.Outcome.{
  Outcome, merge, squash, rebase, method_name, outcome_name, parse_outcome,
}
use umbraco_mcp_ops.Graph.Event.{event_name}
use umbraco_mcp_ops.Graph.Translate.{outcome_event}

abbrev tag_fields : Option String → Fields
tag_fields none = end
tag_fields (some t) = field "tag" (text t) end

abbrev own_fields : Outcome → Fields
own_fields (Outcome.build_succeeded pr) = field "pr" (number pr) end
own_fields (Outcome.build_blocked reason) = field "reason" (text reason) end
own_fields (Outcome.release_blocked reason) = field "reason" (text reason) end
own_fields (Outcome.release_published version tag) = field "version" (text version) (tag_fields tag)
own_fields (Outcome.release_approved pr sha version method) = field "pr" (number pr) (
    field "sha" (text sha)
      (field "version" (text version) (field "merge_method" (text (method_name method)) end)))
own_fields Outcome.review_passed = end
own_fields (Outcome.review_findings n) = field "findings" (number n) end
own_fields (Outcome.review_blocked reason) = field "reason" (text reason) end
own_fields (Outcome.rework_no_change reason) = field "reason" (text reason) end
own_fields (Outcome.merge_blocked reason) = field "reason" (text reason) end
own_fields Outcome.discussion_capped = end

-- The object that a routine writes for an outcome.
abbrev pub written : Outcome → Json
written o = object (field "outcome" (text (outcome_name o)) (own_fields o))

-- Every outcome, written as an object of the documented shape, is read back as itself.
pub parse_outcome-written : (o : Outcome) → parse_outcome (written o) ≡ some o
unfolding parse_outcome outcome_name method_name
parse_outcome-written (Outcome.build_succeeded pr) = refl
parse_outcome-written (Outcome.build_blocked reason) = refl
parse_outcome-written (Outcome.release_blocked reason) = refl
parse_outcome-written (Outcome.release_published version none) = refl
parse_outcome-written (Outcome.release_published version (some tag)) = refl
parse_outcome-written (Outcome.release_approved pr sha version merge) = refl
parse_outcome-written (Outcome.release_approved pr sha version squash) = refl
parse_outcome-written (Outcome.release_approved pr sha version rebase) = refl
parse_outcome-written Outcome.review_passed = refl
parse_outcome-written (Outcome.review_findings n) = refl
parse_outcome-written (Outcome.review_blocked reason) = refl
parse_outcome-written (Outcome.rework_no_change reason) = refl
parse_outcome-written (Outcome.merge_blocked reason) = refl
parse_outcome-written Outcome.discussion_capped = refl

-- An outcome carries the name of the event that it becomes.
pub outcome_name-eq : (o : Outcome) → outcome_name o ≡ event_name (outcome_event o)
unfolding outcome_name event_name outcome_event
outcome_name-eq (Outcome.build_succeeded pr) = refl
outcome_name-eq (Outcome.build_blocked reason) = refl
outcome_name-eq (Outcome.release_blocked reason) = refl
outcome_name-eq (Outcome.release_published version tag) = refl
outcome_name-eq (Outcome.release_approved pr sha version method) = refl
outcome_name-eq Outcome.review_passed = refl
outcome_name-eq (Outcome.review_findings n) = refl
outcome_name-eq (Outcome.review_blocked reason) = refl
outcome_name-eq (Outcome.rework_no_change reason) = refl
outcome_name-eq (Outcome.merge_blocked reason) = refl
outcome_name-eq Outcome.discussion_capped = refl
