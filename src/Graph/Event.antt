-- ===== src/Graph/Event.antt =====
-- graph/constants/events.ts: the domain events, with the strings that the log writes for them.
use umbraco_mcp_ops.Prelude.{ℕ, String, Bool, List, [], ◌∷◌, ◌==◌}

pub data Event : Type 0 where
  labelled_ai_ready build_succeeded build_blocked labelled_auto_releasing : Event
  release_blocked release_published release_approved release_merged : Event
  labelled_ai_discussing discussion_reply unlabelled_ai_ready unlabelled_auto_releasing : Event
  issue_closed labelled_auto_reworking rework_pushed ci_fix_pushed : Event
  unlabelled_auto_reworking rework_cap_reached labelled_auto_merging merge_gate_failed_soft : Event
  merge_gate_failed_hard merge_gate_passed unlabelled_auto_merging merged : Event
  labelled_ai_reviewing unlabelled_ai_reviewing review_ci_passed review_ci_failed : Event
  review_fix_pushed review_passed review_findings review_blocked : Event
  rework_no_change merge_blocked discussion_capped watchdog_expired : Event
  pr_merged released : Event

-- ALL_EVENTS.
abbrev pub all_events : List Event
all_events =
    labelled_ai_ready ∷ build_succeeded ∷ build_blocked ∷ labelled_auto_releasing ∷ release_blocked
    ∷ release_published ∷ release_approved ∷ release_merged ∷ labelled_ai_discussing
    ∷ discussion_reply ∷ unlabelled_ai_ready ∷ unlabelled_auto_releasing ∷ issue_closed
    ∷ labelled_auto_reworking ∷ rework_pushed ∷ ci_fix_pushed ∷ unlabelled_auto_reworking
    ∷ rework_cap_reached ∷ labelled_auto_merging ∷ merge_gate_failed_soft ∷ merge_gate_failed_hard
    ∷ merge_gate_passed ∷ unlabelled_auto_merging ∷ merged ∷ labelled_ai_reviewing
    ∷ unlabelled_ai_reviewing ∷ review_ci_passed ∷ review_ci_failed ∷ review_fix_pushed
    ∷ review_passed ∷ review_findings ∷ review_blocked ∷ rework_no_change ∷ merge_blocked
    ∷ discussion_capped ∷ watchdog_expired ∷ pr_merged ∷ released ∷ []

-- Where an event stands in ALL_EVENTS: equality of events is equality of these numbers.
abbrev pub event_index : Event → ℕ
event_index labelled_ai_ready = 0
event_index build_succeeded = 1
event_index build_blocked = 2
event_index labelled_auto_releasing = 3
event_index release_blocked = 4
event_index release_published = 5
event_index release_approved = 6
event_index release_merged = 7
event_index labelled_ai_discussing = 8
event_index discussion_reply = 9
event_index unlabelled_ai_ready = 10
event_index unlabelled_auto_releasing = 11
event_index issue_closed = 12
event_index labelled_auto_reworking = 13
event_index rework_pushed = 14
event_index ci_fix_pushed = 15
event_index unlabelled_auto_reworking = 16
event_index rework_cap_reached = 17
event_index labelled_auto_merging = 18
event_index merge_gate_failed_soft = 19
event_index merge_gate_failed_hard = 20
event_index merge_gate_passed = 21
event_index unlabelled_auto_merging = 22
event_index merged = 23
event_index labelled_ai_reviewing = 24
event_index unlabelled_ai_reviewing = 25
event_index review_ci_passed = 26
event_index review_ci_failed = 27
event_index review_fix_pushed = 28
event_index review_passed = 29
event_index review_findings = 30
event_index review_blocked = 31
event_index rework_no_change = 32
event_index merge_blocked = 33
event_index discussion_capped = 34
event_index watchdog_expired = 35
event_index pr_merged = 36
event_index released = 37

abbrev pub same_event : Event → Event → Bool
same_event a b = event_index a == event_index b

-- The event's string.
unfoldable pub event_name : Event → String
event_name labelled_ai_ready = "labelled_ai_ready"
event_name build_succeeded = "build_succeeded"
event_name build_blocked = "build_blocked"
event_name labelled_auto_releasing = "labelled_auto_releasing"
event_name release_blocked = "release_blocked"
event_name release_published = "release_published"
event_name release_approved = "release_approved"
event_name release_merged = "release_merged"
event_name labelled_ai_discussing = "labelled_ai_discussing"
event_name discussion_reply = "discussion_reply"
event_name unlabelled_ai_ready = "unlabelled_ai_ready"
event_name unlabelled_auto_releasing = "unlabelled_auto_releasing"
event_name issue_closed = "issue_closed"
event_name labelled_auto_reworking = "labelled_auto_reworking"
event_name rework_pushed = "rework_pushed"
event_name ci_fix_pushed = "ci_fix_pushed"
event_name unlabelled_auto_reworking = "unlabelled_auto_reworking"
event_name rework_cap_reached = "rework_cap_reached"
event_name labelled_auto_merging = "labelled_auto_merging"
event_name merge_gate_failed_soft = "merge_gate_failed_soft"
event_name merge_gate_failed_hard = "merge_gate_failed_hard"
event_name merge_gate_passed = "merge_gate_passed"
event_name unlabelled_auto_merging = "unlabelled_auto_merging"
event_name merged = "merged"
event_name labelled_ai_reviewing = "labelled_ai_reviewing"
event_name unlabelled_ai_reviewing = "unlabelled_ai_reviewing"
event_name review_ci_passed = "review_ci_passed"
event_name review_ci_failed = "review_ci_failed"
event_name review_fix_pushed = "review_fix_pushed"
event_name review_passed = "review_passed"
event_name review_findings = "review_findings"
event_name review_blocked = "review_blocked"
event_name rework_no_change = "rework_no_change"
event_name merge_blocked = "merge_blocked"
event_name discussion_capped = "discussion_capped"
event_name watchdog_expired = "watchdog_expired"
event_name pr_merged = "pr_merged"
event_name released = "released"
