-- ===== src/Graph/Table.antt =====
-- graph/graph.ts: states, effects, rules and the transition table, group by group in its order.
use umbraco_mcp_ops.Prelude.{Bool, true, false, Option, none, some, List, [], ◌∷◌, ◌++◌, map}
use umbraco_mcp_ops.Graph.Label.{
  Label, same_label, ai_ready, pr_open, ai_blocked, auto_releasing, ai_discussing, auto_reworking,
  auto_merging, ai_stuck, ai_reviewing, ready_for_release, ready_for_review,
}
use umbraco_mcp_ops.Graph.Event.{
  Event, labelled_ai_ready, build_succeeded, build_blocked, labelled_auto_releasing,
  release_blocked, release_published, release_approved, release_merged, labelled_ai_discussing,
  discussion_reply, unlabelled_ai_ready, unlabelled_auto_releasing, issue_closed,
  labelled_auto_reworking, rework_pushed, ci_fix_pushed, unlabelled_auto_reworking,
  rework_cap_reached, labelled_auto_merging, merge_gate_failed_soft, merge_gate_failed_hard,
  merge_gate_passed, unlabelled_auto_merging, merged, labelled_ai_reviewing,
  unlabelled_ai_reviewing, review_ci_passed, review_ci_failed, review_fix_pushed, review_passed,
  review_findings, review_blocked, rework_no_change, discussion_capped, watchdog_expired, pr_merged,
  released,
}
use umbraco_mcp_ops.Graph.Routine.{
  Routine, issue_build_loop, auto_release_loop, issue_discuss_loop, rework_loop, merge_flow,
  review_loop, release_publish,
}

-- `untracked` (the source's "none") is the state of an item with no tracked label.
pub data State : Type 0 where
  untracked : State
  on : Label → State

abbrev pub same_state : State → State → Bool
same_state untracked untracked = true
same_state (on a) (on b) = same_label a b
same_state _ _ = false

pub data Effect : Type 0 where
  label : State → Effect
  unlabel close noop : Effect

pub data VerifiedBy : Type 0 where
  deterministic external_judgment : VerifiedBy

pub record Rule : Type 0 where
  pub from : State
  pub event : Event
  pub to : Effect
  pub run : Option Routine
  pub verified_by : VerifiedBy

abbrev rule : State → Event → Effect → Option Routine → VerifiedBy → Rule
rule f e t r v = record { from = f; event = e; to = t; run = r; verified_by = v }

-- The issue lifecycle, the swaps that the orchestrator owns, and the release.
abbrev pub issue_rules : List Rule
issue_rules =
    rule untracked labelled_ai_ready (label (on ai_ready)) (some issue_build_loop) external_judgment
    ∷ rule (on pr_open) build_succeeded noop none external_judgment
    ∷ rule (on ai_blocked) build_blocked noop none external_judgment
    ∷ rule (on ai_ready) build_succeeded (label (on pr_open)) none external_judgment
    ∷ rule (on ai_ready) build_blocked (label (on ai_blocked)) none external_judgment
    ∷ rule (on auto_releasing) release_blocked unlabel none external_judgment
    ∷ rule untracked labelled_auto_releasing (label (on auto_releasing)) (some auto_release_loop)
        external_judgment
    ∷ rule untracked release_blocked noop none external_judgment
    ∷ rule (on auto_releasing) release_published close none external_judgment
    ∷ rule (on auto_releasing) release_approved noop none external_judgment
    ∷ rule (on auto_releasing) release_merged noop (some release_publish) deterministic
    ∷ rule untracked labelled_ai_discussing (label (on ai_discussing)) (some issue_discuss_loop)
        external_judgment
    ∷ rule (on ai_discussing) discussion_reply noop (some issue_discuss_loop) external_judgment
    ∷ rule (on auto_releasing) issue_closed noop none deterministic
    ∷ []

-- The PR lifecycle: rework, the merge gate, the merge.
abbrev pub pr_rules : List Rule
pr_rules =
    rule untracked labelled_auto_reworking (label (on auto_reworking)) (some rework_loop)
      external_judgment
    ∷ rule (on auto_reworking) rework_pushed unlabel none deterministic
    ∷ rule (on auto_reworking) rework_cap_reached (label (on ai_stuck)) none deterministic
    ∷ rule untracked labelled_auto_merging (label (on auto_merging)) (some merge_flow)
        external_judgment
    ∷ rule (on auto_merging) merge_gate_failed_soft (label (on auto_reworking)) (some rework_loop)
        deterministic
    ∷ rule (on auto_reworking) ci_fix_pushed (label (on auto_merging)) (some merge_flow)
        deterministic
    ∷ rule (on auto_merging) merge_gate_passed noop (some merge_flow) deterministic
    ∷ rule (on auto_merging) merge_gate_failed_hard (label (on Label.merge_blocked)) none
        deterministic
    ∷ rule (on Label.merge_blocked) labelled_auto_merging (label (on auto_merging))
        (some merge_flow) external_judgment
    ∷ rule (on auto_merging) merged close none deterministic
    ∷ []

-- The review of a PR, and a person's move on a PR that it passed.
abbrev pub review_rules : List Rule
review_rules =
    rule untracked labelled_ai_reviewing (label (on ai_reviewing)) none external_judgment
    ∷ rule (on ai_blocked) labelled_ai_reviewing (label (on ai_reviewing)) none external_judgment
    ∷ rule (on ai_reviewing) review_ci_passed noop (some review_loop) deterministic
    ∷ rule (on ai_reviewing) review_ci_failed (label (on auto_reworking)) (some rework_loop)
        deterministic
    ∷ rule (on auto_reworking) review_fix_pushed (label (on ai_reviewing)) none deterministic
    ∷ rule (on ai_reviewing) review_passed (label (on ready_for_review)) none external_judgment
    ∷ rule (on ready_for_review) labelled_auto_merging (label (on auto_merging)) (some merge_flow)
        external_judgment
    ∷ rule (on ready_for_review) labelled_auto_reworking (label (on auto_reworking))
        (some rework_loop) external_judgment
    ∷ rule (on ready_for_review) labelled_ai_reviewing (label (on ai_reviewing)) none
        external_judgment
    ∷ rule (on ready_for_review) merged close none deterministic
    ∷ rule (on ai_reviewing) review_findings (label (on auto_reworking)) (some rework_loop)
        external_judgment
    ∷ rule (on ai_reviewing) review_blocked (label (on ai_blocked)) none external_judgment
    ∷ rule (on ai_reviewing) rework_cap_reached (label (on ai_stuck)) none deterministic
    ∷ []

-- Outcomes that replace a session's last label write.
abbrev pub outcome_rules : List Rule
outcome_rules =
    rule (on auto_reworking) rework_no_change unlabel none external_judgment
    ∷ rule (on ai_stuck) rework_no_change unlabel none external_judgment
    ∷ rule (on auto_merging) Event.merge_blocked (label (on Label.merge_blocked)) none
        external_judgment
    ∷ rule (on ai_discussing) discussion_capped unlabel none external_judgment
    ∷ []

-- The issue's stages after its PR.
abbrev pub stage_rules : List Rule
stage_rules =
    rule (on pr_open) pr_merged (label (on ready_for_release)) none deterministic
    ∷ rule untracked pr_merged (label (on ready_for_release)) none deterministic
    ∷ rule (on ready_for_release) released close none deterministic
    ∷ []

-- Leaving `ai_stuck`: a late outcome, or a person's retry.
abbrev pub stuck_rules : List Rule
stuck_rules =
    rule (on ai_stuck) build_succeeded (label (on pr_open)) none external_judgment
    ∷ rule (on ai_stuck) build_blocked (label (on ai_blocked)) none external_judgment
    ∷ rule (on ai_stuck) release_blocked unlabel none external_judgment
    ∷ rule (on ai_stuck) release_published close none external_judgment
    ∷ rule (on ai_stuck) rework_pushed unlabel none deterministic
    ∷ rule (on ai_stuck) merged close none deterministic
    ∷ rule (on ai_stuck) review_passed (label (on ready_for_review)) none external_judgment
    ∷ rule (on ai_stuck) review_blocked (label (on ai_blocked)) none external_judgment
    ∷ rule (on ai_stuck) labelled_ai_ready (label (on ai_ready)) (some issue_build_loop)
        external_judgment
    ∷ rule (on ai_stuck) labelled_auto_releasing (label (on auto_releasing))
        (some auto_release_loop) external_judgment
    ∷ rule (on ai_stuck) labelled_auto_reworking (label (on auto_reworking)) (some rework_loop)
        external_judgment
    ∷ rule (on ai_stuck) labelled_auto_merging (label (on auto_merging)) (some merge_flow)
        external_judgment
    ∷ rule (on ai_stuck) labelled_ai_reviewing (label (on ai_reviewing)) none external_judgment
    ∷ []

-- A trigger label taken off, from every state that this can leave behind.
abbrev removal_rule : Event → State → Rule
removal_rule e s = rule s e noop none deterministic

abbrev pub removal_rules : List Rule
removal_rules =
    map (removal_rule unlabelled_ai_ready)
      (untracked ∷ on pr_open ∷ on ai_blocked ∷ on ai_stuck ∷ [])
    ++ (map (removal_rule unlabelled_auto_releasing) (untracked ∷ on ai_stuck ∷ [])
        ++ (map (removal_rule unlabelled_auto_reworking) (untracked ∷ on ai_stuck ∷ [])
            ++ (map (removal_rule unlabelled_auto_merging) (untracked ∷ on ai_stuck ∷ [])
                ++ map (removal_rule unlabelled_ai_reviewing) (untracked ∷ on ai_stuck ∷ []))))

-- A fired routine that never reported back.
abbrev watchdog_rule : Label → Rule
watchdog_rule l = rule (on l) watchdog_expired (label (on ai_stuck)) none deterministic

abbrev pub watchdog_rules : List Rule
watchdog_rules =
    map watchdog_rule
      (ai_ready ∷ auto_releasing ∷ auto_reworking ∷ auto_merging ∷ ai_reviewing ∷ [])

-- The table.
abbrev pub rules : List Rule
rules =
    issue_rules
    ++ (pr_rules
        ++ (review_rules
            ++ (outcome_rules
                ++ (stage_rules ++ (removal_rules ++ (watchdog_rules ++ stuck_rules))))))
