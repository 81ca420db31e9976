-- ===== src/Graph/Equality.antt =====
-- The tests of equality on labels, states, events and routines decide equality.
use umbraco_mcp_ops.Prelude.{◌≡◌, refl, ap, true, ◌↔◌, some, get_elem?, ==_iff, ==_comm}
use umbraco_mcp_ops.Graph.Label.{Label, all_labels, label_index, same_label}
use umbraco_mcp_ops.Graph.Event.{Event, all_events, event_index, same_event}
use umbraco_mcp_ops.Graph.Routine.{Routine, all_routines, routine_index, same_routine}
use umbraco_mcp_ops.Graph.Table.{State, untracked, on, same_state}

-- Every label stands in its list at its own index, so the list is complete and without repeats.
pub get_elem?-label_index : (x : Label) → get_elem? all_labels (label_index x) ≡ some x
get_elem?-label_index Label.ai_ready = refl
get_elem?-label_index Label.pr_open = refl
get_elem?-label_index Label.ai_blocked = refl
get_elem?-label_index Label.auto_releasing = refl
get_elem?-label_index Label.ai_discussing = refl
get_elem?-label_index Label.auto_reworking = refl
get_elem?-label_index Label.auto_merging = refl
get_elem?-label_index Label.ai_stuck = refl
get_elem?-label_index Label.merge_blocked = refl
get_elem?-label_index Label.ai_reviewing = refl
get_elem?-label_index Label.ready_for_release = refl
get_elem?-label_index Label.ready_for_review = refl

pub label_index-injective : (a b : Label) → label_index a ≡ label_index b → a ≡ b
label_index-injective a b h =
    cc (get_elem?-label_index a, get_elem?-label_index b, ap (get_elem? all_labels) h)

pub same_label_iff : (a b : Label) → (same_label a b ≡ true) ↔ (a ≡ b)
same_label_iff a b =
    (λ h. label_index-injective a b ((==_iff _ _).0 h), λ e. (==_iff _ _).1 (ap label_index e))

-- Every event stands in its list at its own index, so the list is complete and without repeats.
pub get_elem?-event_index : (x : Event) → get_elem? all_events (event_index x) ≡ some x
get_elem?-event_index Event.labelled_ai_ready = refl
get_elem?-event_index Event.build_succeeded = refl
get_elem?-event_index Event.build_blocked = refl
get_elem?-event_index Event.labelled_auto_releasing = refl
get_elem?-event_index Event.release_blocked = refl
get_elem?-event_index Event.release_published = refl
get_elem?-event_index Event.release_approved = refl
get_elem?-event_index Event.release_merged = refl
get_elem?-event_index Event.labelled_ai_discussing = refl
get_elem?-event_index Event.discussion_reply = refl
get_elem?-event_index Event.unlabelled_ai_ready = refl
get_elem?-event_index Event.unlabelled_auto_releasing = refl
get_elem?-event_index Event.issue_closed = refl
get_elem?-event_index Event.labelled_auto_reworking = refl
get_elem?-event_index Event.rework_pushed = refl
get_elem?-event_index Event.ci_fix_pushed = refl
get_elem?-event_index Event.unlabelled_auto_reworking = refl
get_elem?-event_index Event.rework_cap_reached = refl
get_elem?-event_index Event.labelled_auto_merging = refl
get_elem?-event_index Event.merge_gate_failed_soft = refl
get_elem?-event_index Event.merge_gate_failed_hard = refl
get_elem?-event_index Event.merge_gate_passed = refl
get_elem?-event_index Event.unlabelled_auto_merging = refl
get_elem?-event_index Event.merged = refl
get_elem?-event_index Event.labelled_ai_reviewing = refl
get_elem?-event_index Event.unlabelled_ai_reviewing = refl
get_elem?-event_index Event.review_ci_passed = refl
get_elem?-event_index Event.review_ci_failed = refl
get_elem?-event_index Event.review_fix_pushed = refl
get_elem?-event_index Event.review_passed = refl
get_elem?-event_index Event.review_findings = refl
get_elem?-event_index Event.review_blocked = refl
get_elem?-event_index Event.rework_no_change = refl
get_elem?-event_index Event.merge_blocked = refl
get_elem?-event_index Event.discussion_capped = refl
get_elem?-event_index Event.watchdog_expired = refl
get_elem?-event_index Event.pr_merged = refl
get_elem?-event_index Event.released = refl

pub event_index-injective : (a b : Event) → event_index a ≡ event_index b → a ≡ b
event_index-injective a b h =
    cc (get_elem?-event_index a, get_elem?-event_index b, ap (get_elem? all_events) h)

pub same_event_iff : (a b : Event) → (same_event a b ≡ true) ↔ (a ≡ b)
same_event_iff a b =
    (λ h. event_index-injective a b ((==_iff _ _).0 h), λ e. (==_iff _ _).1 (ap event_index e))

-- Every routine stands in its list at its own index, so the list is complete and without repeats.
pub get_elem?-routine_index : (x : Routine) → get_elem? all_routines (routine_index x) ≡ some x
get_elem?-routine_index Routine.issue_build_loop = refl
get_elem?-routine_index Routine.auto_release_loop = refl
get_elem?-routine_index Routine.issue_discuss_loop = refl
get_elem?-routine_index Routine.rework_loop = refl
get_elem?-routine_index Routine.merge_flow = refl
get_elem?-routine_index Routine.review_loop = refl
get_elem?-routine_index Routine.release_publish = refl

pub routine_index-injective : (a b : Routine) → routine_index a ≡ routine_index b → a ≡ b
routine_index-injective a b h =
    cc (get_elem?-routine_index a, get_elem?-routine_index b, ap (get_elem? all_routines) h)

pub same_routine_iff : (a b : Routine) → (same_routine a b ≡ true) ↔ (a ≡ b)
same_routine_iff a b =
    (λ h. routine_index-injective a b ((==_iff _ _).0 h), λ e. (==_iff _ _).1 (ap routine_index e))

pub same_state_iff : (a b : State) → (same_state a b ≡ true) ↔ (a ≡ b)
same_state_iff untracked untracked = (λ h. refl, λ h. refl)
same_state_iff untracked (on m) = (λ h. cc, λ h. cc)
same_state_iff (on l) untracked = (λ h. cc, λ h. cc)
same_state_iff (on l) (on m) =
    (λ h. ap on ((same_label_iff l m).0 h), λ h. (same_label_iff l m).1 (cc))

pub same_state_refl : (s : State) → same_state s s ≡ true
same_state_refl s = (same_state_iff s s).1 refl

pub same_state_comm : (a b : State) → same_state a b ≡ same_state b a
same_state_comm untracked untracked = refl
same_state_comm untracked (on m) = refl
same_state_comm (on l) untracked = refl
same_state_comm (on l) (on m) = ==_comm (label_index l) (label_index m)
