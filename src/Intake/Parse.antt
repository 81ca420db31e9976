-- ===== src/Intake/Parse.antt =====
-- worker/src/webhook-parse.ts: a delivery's body as the item that it is for, and as the payload that
-- the coordinator reads. Logins, names, bodies and states that are there are texts, as GitHub's schema
-- has them.
use umbraco_mcp_ops.Prelude.{
  String, Bool, true, false, ◌&&◌, ◌||◌, Option, none, some, is_some, List, [], ◌∷◌, ◌++◌, str_eq,
  if◌then◌else◌,
}
use Prim.Native.String.{◌++◌ as join}
use umbraco_mcp_ops.Graph.Label.{Name, read_label}
use umbraco_mcp_ops.Graph.Json.{
  Json, Items, null, bool, number, text, array, object, nil, item, Engine, as_text,
}
use umbraco_mcp_ops.Graph.Translate.{
  Action, issues_labeled, issues_unlabeled, issues_closed, issues_reopened, issue_comment_created,
  pull_request_labeled, pull_request_unlabeled, pull_request_synchronize, pull_request_closed,
  pull_request_reopened, check_suite_completed, orchestrator_pr_merged,
  orchestrator_review_requested, orchestrator_released, other_action, UserType, bot_user, person,
  Sender, Association, owner, member, collaborator, other_association, Comment, IssueState,
  open_issue, closed_issue, IssueFacts, PullRequest, Payload, blank_payload,
}
use umbraco_mcp_ops.Coordinate.Types.{Answer, ok, thrown, refused}
use umbraco_mcp_ops.Overrides.{field_of}
use umbraco_mcp_ops.RoutinesClient.{is_truthy}

-- The value if JavaScript takes it as true.
abbrev pub truthy : Option Json → Option Json
truthy v = if is_truthy v then v else none

-- A text that is not empty.
abbrev text_in : Option Json → Option String
text_in (some (text s)) = if str_eq s "" then none else some s
text_in _ = none

-- `combineEventAction`.
unfoldable pub combine_event_action : String → Option String → String
combine_event_action event none = event
combine_event_action event (some a) = if str_eq a "" then event else join event (join "." a)

-- The actions that the translation reads, by their names.
abbrev pub named_actions : List (String × Action)
named_actions =
    ("issues.labeled", issues_labeled)
    ∷ ("issues.unlabeled", issues_unlabeled)
    ∷ ("issues.closed", issues_closed)
    ∷ ("issues.reopened", issues_reopened)
    ∷ ("issue_comment.created", issue_comment_created)
    ∷ ("pull_request.labeled", pull_request_labeled)
    ∷ ("pull_request.unlabeled", pull_request_unlabeled)
    ∷ ("pull_request.synchronize", pull_request_synchronize)
    ∷ ("pull_request.closed", pull_request_closed)
    ∷ ("pull_request.reopened", pull_request_reopened)
    ∷ ("check_suite.completed", check_suite_completed)
    ∷ ("orchestrator.pr_merged", orchestrator_pr_merged)
    ∷ ("orchestrator.review_requested", orchestrator_review_requested)
    ∷ ("orchestrator.released", orchestrator_released)
    ∷ []

unfoldable pub read_action_in : List (String × Action) → String → Action
read_action_in [] s = other_action s
read_action_in ((k, a) ∷ rest) s =
    let later = read_action_in rest s in if str_eq k s then a else later

abbrev pub read_action : String → Action
read_action = read_action_in named_actions

-- `RoutingInfo`; a single number is as it stands in the body.
pub record RoutingInfo : Type 0 where
  pub owner : Json
  pub repo : Json
  pub issue_numbers : List Json

-- `a ?? b`.
abbrev or_else : Option Json → Option Json → Option Json
or_else (some null) b = b
or_else none b = b
or_else a b = a

-- `typeof v === "number"`.
abbrev number_in : Option Json → List Json
number_in (some (number n)) = number n ∷ []
number_in _ = []

-- The numbers of a check suite's PRs; reading one that is null throws.
unfoldable pub suite_numbers : Items → Option (List Json)
suite_numbers nil = some []
suite_numbers (item null vs) = none
suite_numbers (item v vs) = elim (suite_numbers vs) [
  | none ↦ none
  | some ns ↦ some (number_in (field_of "number" (some v)) ++ ns)
]

-- `(checkSuite?.pull_requests ?? []).flatMap(...)`, which throws on what is no list.
abbrev suite_pulls : Option Json → Option (List Json)
suite_pulls none = some []
suite_pulls (some null) = some []
suite_pulls (some (array vs)) = suite_numbers vs
suite_pulls (some _) = none

abbrev item_numbers : Option Json → Option Json → Option (List Json)
item_numbers (some n) suite = some (n ∷ [])
item_numbers none suite = suite_pulls (field_of "pull_requests" suite)

-- An absent value stays absent; null counts as a number that was given.
abbrev single_number : Option Json → Option Json
single_number body =
    or_else (field_of "number" (field_of "issue" body))
      (field_of "number" (field_of "pull_request" body))

routing_of : Option Json → Option Json → Option (List Json) → Answer (Option RoutingInfo)
routing_of o r none = thrown (refused "not a list")
routing_of (some o) (some r) (some (n ∷ ns)) =
    if is_truthy (some o) && is_truthy (some r)
    then ok (some (record { owner = o; repo = r; issue_numbers = n ∷ ns }))
    else ok none
routing_of _ _ (some _) = ok none

-- `extractRoutingInfo`, of a body that is not null.
unfoldable pub extract_routing_info : Json → Answer (Option RoutingInfo)
unfolding routing_of
extract_routing_info body =
    let repository = field_of "repository" (some body) in
    routing_of (field_of "login" (field_of "owner" repository)) (field_of "name" repository)
      (item_numbers (single_number (some body)) (field_of "check_suite" (some body)))

pub data ItemState : Type 0 where
  is_open is_closed is_merged : ItemState

pub record ItemMeta : Type 0 where
  pub is_pr : Bool
  pub title : Option String
  pub state : Option ItemState

abbrev is_object : Option Json → Bool
is_object (some (object fs)) = true
is_object (some (array vs)) = true
is_object _ = false

abbrev is_true : Option Json → Bool
is_true (some (bool b)) = b
is_true _ = false

abbrev state_in : Option String → Option ItemState
state_in none = none
state_in (some s) =
    if str_eq s "open" then some is_open else if str_eq s "closed" then some is_closed else none

-- `extractItemMeta`: a PR's own event, or an issue event, whose issue a PR's comment names with a
-- `pull_request` key.
unfoldable pub extract_item_meta : Engine → Json → Option ItemMeta
extract_item_meta e body =
    let pr = field_of "pull_request" (some body) in
    let issue = field_of "issue" (some body) in
    let thing = or_else pr issue in
    let linked = field_of "pull_request" issue in
    let merged =
      is_true (field_of "merged" thing)
      || (is_some (text_in (field_of "merged_at" thing))
          || is_some (text_in (field_of "merged_at" linked))) in
    if is_truthy thing && is_object thing
    then some (record {
      is_pr = is_truthy pr || is_truthy linked;
      title = elim (as_text (field_of "title" thing)) [
        | none ↦ none
        | some t ↦ some (e.slice 300 t)
      ];
      state = if merged then some is_merged else state_in (as_text (field_of "state" thing));
    })
    else none

-- `type === "Bot"`, the only type that is compared.
abbrev type_of : Option String → UserType
type_of none = person
type_of (some t) = if str_eq t "Bot" then bot_user else person

abbrev sender_in : Option Json → Option Sender
sender_in v = elim (text_in (field_of "login" v)) [
  | none ↦ none
  | some login ↦ some (record { login = login; user_type = type_of (as_text (field_of "type" v)) })
]

abbrev name_in : Option Json → Option Name
name_in v = elim (text_in v) [ none ↦ none | some s ↦ some (read_label s) ]

-- The names of a list of labels; reading one that is null throws.
abbrev named_before : Option Name → Answer (List Name) → Answer (List Name)
named_before n (thrown e) = thrown e
named_before none (ok ns) = ok ns
named_before (some n) (ok ns) = ok (n ∷ ns)

unfoldable pub names_in : Items → Answer (List Name)
names_in nil = ok []
names_in (item null vs) = thrown (refused "null")
names_in (item v vs) = named_before (name_in (field_of "name" (some v))) (names_in vs)

abbrev all_named : Answer (List Name) → Answer (Option (List Name))
all_named (ok ns) = ok (some ns)
all_named (thrown e) = thrown e

abbrev snapshot_of : Option Json → Answer (Option (List Name))
snapshot_of (some (array vs)) = all_named (names_in vs)
snapshot_of _ = ok none

abbrev read_association : String → Association
read_association s =
    if str_eq s "OWNER"
    then owner
    else if str_eq s "MEMBER"
    then member
    else if str_eq s "COLLABORATOR"
    then collaborator
    else other_association s

abbrev map_present {ℓ κ} : {A : Type ℓ} {B : Type κ} → (A → B) → Option A → Option B
map_present f none = none
map_present f (some a) = some (f a)

abbrev comment_in : Option Json → Option Comment
comment_in v = elim (as_text (field_of "body" v)) [
  | none ↦ none
  | some body ↦ some (record {
    body = body;
    association = map_present read_association (as_text (field_of "author_association" v));
    user_type = map_present (λ t. type_of (some t)) (as_text (field_of "type" (field_of "user" v)));
  })
]

abbrev issue_state_in : Option String → Option IssueState
issue_state_in none = none
issue_state_in (some s) =
    if str_eq s "open"
    then some open_issue
    else if str_eq s "closed"
    then some closed_issue
    else none

abbrev issue_in : Option Json → Option IssueFacts
issue_in v =
    if is_truthy v
    then some (record {
      state = issue_state_in (as_text (field_of "state" v));
      is_pr = some (is_some (field_of "pull_request" v));
    })
    else none

abbrev pull_request_in : Option Json → Option PullRequest
pull_request_in v =
    if is_truthy v
    then some (record {
      merged = is_true (field_of "merged" v);
      body = as_text (field_of "body" v);
      merge_commit_sha = as_text (field_of "merge_commit_sha" v);
    })
    else none

-- `status ?? "completed"`, compared with "completed".
abbrev suite_is_done : Option Json → Bool
suite_is_done none = true
suite_is_done (some null) = true
suite_is_done (some (text s)) = str_eq s "completed"
suite_is_done (some _) = false

abbrev suite_in : Option Json → Option Bool
suite_in v = if is_truthy v then some (suite_is_done (field_of "status" v)) else none

-- `toWebhookPayload`, with the labels that the body shows. A value of another type than GitHub sends is
-- taken as absent. The review, and a suite's conclusion, are read by nothing.
abbrev read_payload_with : Json → String → Answer (Option (List Name)) → Answer Payload
read_payload_with body event (thrown e) = thrown e
read_payload_with body event (ok labels) =
    let v = some body in
    ok
      (record (blank_payload
        (read_action (combine_event_action event (as_text (field_of "action" v))))) {
          sender = sender_in (field_of "sender" v);
          label = name_in (field_of "name" (field_of "label" v));
          labels = labels;
          comment = comment_in (field_of "comment" v);
          issue = issue_in (field_of "issue" v);
          pull_request = pull_request_in (field_of "pull_request" v);
          suite_completed = suite_in (field_of "check_suite" v);
        })

unfoldable pub to_webhook_payload : Json → String → Answer Payload
to_webhook_payload body event =
    let v = some body in
    read_payload_with body event
      (snapshot_of (field_of "labels" (or_else (field_of "issue" v) (field_of "pull_request" v))))
