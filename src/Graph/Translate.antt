-- ===== src/Graph/Translate.antt =====
-- graph/github/from-github.ts: a webhook payload as at most one domain event.
-- A string of the payload that the code compares with fixed ones (the action, the author's
-- association, the kind of user, the issue's state) is a constructor for each, and one for the rest.
use umbraco_mcp_ops.Prelude.{
  ℕ, String, Bool, true, false, not, ◌&&◌, Option, none, some, List, str_eq, if◌then◌else◌, is_some,
}
use text.Mathlib.Text.{starts_with, find?}
use umbraco_mcp_ops.Graph.Label.{
  Name, tracked, ai_ready, pr_open, ai_blocked, auto_releasing, ai_discussing, auto_reworking,
  auto_merging, ai_reviewing,
}
use umbraco_mcp_ops.Graph.Event.{Event}
use umbraco_mcp_ops.Graph.Json.{Engine}
use umbraco_mcp_ops.Graph.Outcome.{Outcome, parse_outcome}

pub data Action : Type 0 where
  issues_labeled issues_unlabeled issues_closed issues_reopened issue_comment_created : Action
  pull_request_labeled pull_request_unlabeled pull_request_synchronize : Action
  pull_request_closed pull_request_reopened check_suite_completed : Action
  orchestrator_pr_merged orchestrator_review_requested orchestrator_released : Action
  other_action : String → Action

pub data UserType : Type 0 where
  bot_user person : UserType

pub record Sender : Type 0 where
  pub login : String
  pub user_type : UserType

pub data Association : Type 0 where
  owner member collaborator : Association
  other_association : String → Association

pub record Comment : Type 0 where
  pub body : String
  pub association : Option Association
  pub user_type : Option UserType

pub data IssueState : Type 0 where
  open_issue closed_issue : IssueState

pub record IssueFacts : Type 0 where
  pub state : Option IssueState
  pub is_pr : Option Bool

pub record PullRequest : Type 0 where
  pub merged : Bool
  pub body : Option String
  pub merge_commit_sha : Option String

pub record Shipped : Type 0 where
  pub pr : ℕ
  pub sha : String

pub record Release : Type 0 where
  pub version : String
  pub tag : String

pub record Payload : Type 0 where
  pub action : Action
  pub sender : Option Sender
  pub label : Option Name
  pub labels : Option (List Name)
  pub comment : Option Comment
  pub issue : Option IssueFacts
  pub pull_request : Option PullRequest
  pub shipped : Option Shipped
  pub release : Option Release
  pub review_request : Option ℕ
  pub suite_completed : Option Bool

-- COMMENT_SIGNATURE.
abbrev pub comment_signature : String
comment_signature = "<!-- issue-discuss-loop -->"

infixl 5 ◌>>=◌
abbrev ◌>>=◌ : {A B : Type 0} → Option A → (A → Option B) → Option B
none >>= f = none
some a >>= f = f a

-- `parseOutcomeArtifact`: the marker, then the fenced JSON, then its shape.
unfoldable pub parse_artifact : Engine → Option String → Option Outcome
parse_artifact e body = do
  b ← body
  found ← if str_eq b "" then none else e.marker b
  fenced ← e.fence b
  value ← e.parse_json fenced
  parse_outcome value

is_own_bot : Option Sender → String → Bool
is_own_bot none bot = false
is_own_bot (some s) bot = str_eq s.login bot

has_signature : Option Comment → Bool
has_signature none = false
has_signature (some c) = is_some (find? c.body comment_signature)

abbrev pub is_trusted : Option Association → Bool
is_trusted (some owner) = true
is_trusted (some member) = true
is_trusted (some collaborator) = true
is_trusted _ = false

abbrev is_person : Option UserType → Bool
is_person (some person) = true
is_person _ = false

abbrev is_open_issue : Option IssueFacts → Bool
is_open_issue none = false
is_open_issue (some i) = open_state i.state && not_pr i.is_pr
  where
    open_state : Option IssueState → Bool
    open_state (some open_issue) = true
    open_state _ = false

    not_pr : Option Bool → Bool
    not_pr (some false) = true
    not_pr _ = false

-- `isDiscussionReply`.
is_discussion_reply : Engine → Payload → Bool
is_discussion_reply e p = elim p.comment [
  | none ↦ false
  | some c ↦
      not (starts_with (e.trim_start c.body) "//")
      && (is_trusted c.association && (is_person c.user_type && is_open_issue p.issue))
]

issue_labelled : Option Name → Option Event
issue_labelled (some (tracked ai_ready)) = some Event.labelled_ai_ready
issue_labelled (some (tracked auto_releasing)) = some Event.labelled_auto_releasing
issue_labelled (some (tracked ai_discussing)) = some Event.labelled_ai_discussing
issue_labelled (some (tracked pr_open)) = some Event.build_succeeded
issue_labelled (some (tracked ai_blocked)) = some Event.build_blocked
issue_labelled _ = none

issue_unlabelled : Option Name → Option Event
issue_unlabelled (some (tracked ai_ready)) = some Event.unlabelled_ai_ready
issue_unlabelled (some (tracked auto_releasing)) = some Event.unlabelled_auto_releasing
issue_unlabelled _ = none

pr_labelled : Option Name → Option Event
pr_labelled (some (tracked auto_reworking)) = some Event.labelled_auto_reworking
pr_labelled (some (tracked auto_merging)) = some Event.labelled_auto_merging
pr_labelled (some (tracked ai_reviewing)) = some Event.labelled_ai_reviewing
pr_labelled _ = none

pr_unlabelled : Option Name → Option Event
pr_unlabelled (some (tracked auto_reworking)) = some Event.unlabelled_auto_reworking
pr_unlabelled (some (tracked auto_merging)) = some Event.unlabelled_auto_merging
pr_unlabelled (some (tracked ai_reviewing)) = some Event.unlabelled_ai_reviewing
pr_unlabelled _ = none

-- The event of an outcome that a comment carries.
unfoldable pub outcome_event : Outcome → Event
outcome_event (Outcome.build_succeeded pr) = Event.build_succeeded
outcome_event (Outcome.build_blocked reason) = Event.build_blocked
outcome_event (Outcome.release_blocked reason) = Event.release_blocked
outcome_event (Outcome.release_published version tag) = Event.release_published
outcome_event (Outcome.release_approved pr sha version method) = Event.release_approved
outcome_event Outcome.review_passed = Event.review_passed
outcome_event (Outcome.review_findings findings) = Event.review_findings
outcome_event (Outcome.review_blocked reason) = Event.review_blocked
outcome_event (Outcome.rework_no_change reason) = Event.rework_no_change
outcome_event (Outcome.merge_blocked reason) = Event.merge_blocked
outcome_event Outcome.discussion_capped = Event.discussion_capped

abbrev pub body_of : Option Comment → Option String
body_of none = none
body_of (some c) = some c.body

comment_event : Engine → Payload → Option Event
comment_event e p =
    if has_signature p.comment then none else elim (parse_artifact e (body_of p.comment)) [
      | some o ↦ some (outcome_event o)
      | none ↦ if is_discussion_reply e p then some Event.discussion_reply else none
    ]

merged_event : Option PullRequest → Option Event
merged_event none = none
merged_event (some pr) = if pr.merged then some Event.merged else none

abbrev when_present : {A : Type 0} → Option A → Event → Option Event
when_present none e = none
when_present (some a) e = some e

-- The label events of the orchestrator's own writes are dropped.
abbrev unless_own : Payload → String → Option Event → Option Event
unless_own p bot event = if is_own_bot p.sender bot then none else event

-- The `switch` of `translate`.
translate_action : Engine → String → Payload → Action → Option Event
translate_action e bot p issues_labeled = unless_own p bot (issue_labelled p.label)
translate_action e bot p issues_unlabeled = unless_own p bot (issue_unlabelled p.label)
translate_action e bot p issues_closed = some Event.issue_closed
translate_action e bot p issue_comment_created = comment_event e p
translate_action e bot p pull_request_labeled = unless_own p bot (pr_labelled p.label)
translate_action e bot p pull_request_unlabeled = unless_own p bot (pr_unlabelled p.label)
translate_action e bot p pull_request_synchronize = some Event.rework_pushed
translate_action e bot p pull_request_closed = merged_event p.pull_request
translate_action e bot p orchestrator_pr_merged = when_present p.shipped Event.pr_merged
translate_action e bot p orchestrator_review_requested =
    when_present p.review_request Event.labelled_ai_reviewing
translate_action e bot p orchestrator_released = when_present p.release Event.released
translate_action e bot p _ = none

unfoldable pub translate : Engine → String → Payload → Option Event
unfolding translate_action is_own_bot issue_labelled issue_unlabelled pr_labelled pr_unlabelled
    comment_event has_signature parse_artifact is_discussion_reply outcome_event merged_event
translate e bot p = translate_action e bot p p.action

-- BOT_LOGIN.
abbrev pub default_bot_login : String
default_bot_login = "umbraco-mcp-ops[bot]"

-- A payload with an action and nothing else.
abbrev pub blank_payload : Action → Payload
blank_payload a = record {
  action = a;
  sender = none;
  label = none;
  labels = none;
  comment = none;
  issue = none;
  pull_request = none;
  shipped = none;
  release = none;
  review_request = none;
  suite_completed = none;
}
