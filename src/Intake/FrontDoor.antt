-- ===== src/Intake/FrontDoor.antt =====
-- worker/src/index.ts: the requests that the Worker takes, and what each passes on.
use umbraco_mcp_ops.Prelude.{
  ℕ, ◌+◌, String, Bool, false, not, ◌&&◌, ◌||◌, Option, none, some, is_some, List, [], ◌∷◌, ◌++◌,
  map, any, leb, str_eq, get_or, if◌then◌else◌, ◌⊎◌, inl, inr,
}
use Prim.Native.String.{◌++◌ as join}
use umbraco_mcp_ops.Graph.Json.{Json, null, number, natural, Number, text, Engine}
use umbraco_mcp_ops.Graph.Translate.{Payload}
use umbraco_mcp_ops.Coordinate.Types.{Answer, ok, thrown, refused}
use umbraco_mcp_ops.Overrides.{field_of}
use umbraco_mcp_ops.RoutinesClient.{is_truthy}
use umbraco_mcp_ops.Intake.Signature.{verify_signature}
use umbraco_mcp_ops.Intake.Parse.{
  RoutingInfo, ItemMeta, extract_routing_info, extract_item_meta, to_webhook_payload,
}

-- The settings that the front door reads, by whether they are set and not empty.
pub record FrontEnv : Type 0 where
  pub webhook_secret : Option String
  pub signal_secret : Option String
  pub log_read_secret : Option String
  pub log_read_repos : Option String
  pub has_scheduler : Bool

pub record Delivery : Type 0 where
  pub body : String
  pub signature : Option (List ℕ)
  pub event : Option String
  pub delivery : Option String
  pub authorization : Option String

-- What the platform and the other parts answer: the HMAC of a text under a secret; the parts of a list
-- of repos, trimmed and not empty; `toLowerCase`; a commit's open PRs; and the status of the n-th answer
-- of a coordinator.
pub record Around : Type 0 where
  pub engine : Engine
  pub hmac : String → String → List ℕ
  pub listed : String → List String
  pub lower : String → String
  pub open_pulls : Json → Json → Json → Answer (List ℕ)
  pub passed_on : ℕ → Answer ℕ

pub data Passed : Type 0 where
  ensured_scheduler : Passed
  recorded : Json → ItemMeta → Passed
  forwarded : RoutingInfo → Json → Payload → String → Passed
  signalled : Json → Json → Json → Passed
  swept : List String → Passed

-- A refusal's status; a delivery for no item; a coordinator's own answer, by its status; the answers
-- of several.
pub data Response : Type 0 where
  turned_away : ℕ → Response
  no_item : Response
  its_answer : ℕ → Response
  routed : List ℕ → ℕ → Response

-- `handleWebhook`: `if (secret && !verify(...))`.
abbrev pub forged_under : Around → Delivery → Option String → Bool
forged_under out r none = false
forged_under out r (some secret) = not (verify_signature (out.hmac secret r.body) r.signature)

abbrev pub is_forged : FrontEnv → Around → Delivery → Bool
is_forged env out r = forged_under out r env.webhook_secret

abbrev pub after_status : ℕ → Answer (List ℕ) → Answer (List ℕ)
after_status status (ok statuses) = ok (status ∷ statuses)
after_status status (thrown e) = thrown e

-- `doKey` and `fetch` of each PR's coordinator, in order; one that throws ends the delivery.
unfoldable pub forward_to_each :
    Around → RoutingInfo → Payload → String → ℕ → List Json → Answer (List ℕ) × List Passed
forward_to_each out info p id k [] = (ok [], [])
forward_to_each out info p id k (n ∷ ns) =
    let rest = forward_to_each out info p id (k + 1) ns in
    elim (out.passed_on k) [
      | thrown e ↦ (thrown e, forwarded info n p id ∷ [])
      | ok status ↦ (after_status status rest.0, forwarded info n p id ∷ rest.1)
    ]

abbrev pub any_refused : List ℕ → Bool
any_refused statuses = any (leb 400) statuses

abbrev pub answer_of : Answer (List ℕ) → Answer Response
answer_of (thrown e) = thrown e
answer_of (ok []) = ok (routed [] 200)
answer_of (ok (s ∷ [])) = ok (its_answer s)
answer_of (ok (s ∷ t ∷ ss)) =
    ok (routed (s ∷ t ∷ ss) (if any_refused (s ∷ t ∷ ss) then 500 else 200))

abbrev recorded_for : Engine → Json → List Json → List Passed
recorded_for e body (n ∷ []) = elim (extract_item_meta e body) [
  | none ↦ []
  | some meta ↦ recorded n meta ∷ []
]
recorded_for e body _ = []

-- Each PR's coordinator is asked only where the payload could be read.
abbrev pass_payload : Around → String → RoutingInfo → Answer Payload → Answer Response × List Passed
pass_payload out id info (thrown e) = (thrown e, [])
pass_payload out id info (ok p) =
    let sent = forward_to_each out info p id 0 info.issue_numbers in (answer_of sent.0, sent.1)

unfoldable pub pass_webhook :
    Around → Json → String → String → RoutingInfo → Answer Response × List Passed
pass_webhook out body event id info =
    let sent = pass_payload out id info (to_webhook_payload body event) in
    (sent.0, recorded_for out.engine body info.issue_numbers ++ sent.1)

abbrev commit_routing : Json → Json → Answer (List ℕ) → Answer (Option RoutingInfo)
commit_routing o r (thrown e) = thrown e
commit_routing o r (ok []) = ok none
commit_routing o r (ok (n ∷ ns)) =
    ok (
      some (record { owner = o; repo = r; issue_numbers = map (λ k. number (natural k)) (n ∷ ns) }))

by_commit : Around → Option Json → Option Json → Option Json → Answer (Option RoutingInfo)
by_commit out (some o) (some r) (some sha) =
    if is_truthy (some o) && (is_truthy (some r) && is_truthy (some sha))
    then commit_routing o r (out.open_pulls o r sha)
    else ok none
by_commit out _ _ _ = ok none

-- `routeByCommit`.
unfoldable pub route_by_commit : Around → Json → Answer (Option RoutingInfo)
unfolding by_commit
route_by_commit out body =
    let repository = field_of "repository" (some body) in
    by_commit out (field_of "login" (field_of "owner" repository)) (field_of "name" repository)
      (field_of "head_sha" (field_of "check_suite" (some body)))

-- `extractRoutingInfo(body) ?? (eventType === "check_suite" ? await routeByCommit(...) : null)`.
unfoldable pub route : Around → Json → String → Answer (Option RoutingInfo)
route out body event = elim (extract_routing_info body) [
  | thrown e ↦ thrown e
  | ok (some info) ↦ ok (some info)
  | ok none ↦ if str_eq event "check_suite" then route_by_commit out body else ok none
]

abbrev ensures : FrontEnv → List Passed
ensures env = if env.has_scheduler then ensured_scheduler ∷ [] else []

unfoldable pub webhook_routed :
    Around → Json → String → String → Answer (Option RoutingInfo) → Answer Response × List Passed
webhook_routed out body event id (thrown e) = (thrown e, [])
webhook_routed out body event id (ok none) = (ok no_item, [])
webhook_routed out body event id (ok (some info)) = pass_webhook out body event id info

-- Reading a key of null throws.
unfoldable pub webhook_parsed :
    FrontEnv → Around → String → String → Option Json → Answer Response × List Passed
webhook_parsed env out event id none = (ok (turned_away 400), [])
webhook_parsed env out event id (some null) = (thrown (refused "null"), ensures env)
webhook_parsed env out event id (some body) =
    let rest = webhook_routed out body event id (route out body event) in
    (rest.0, ensures env ++ rest.1)

abbrev header_of : Option String → Option String
header_of none = none
header_of (some s) = if str_eq s "" then none else some s

-- `handleWebhook`.
unfoldable pub handle_webhook : FrontEnv → Around → Delivery → Answer Response × List Passed
handle_webhook env out r =
    if is_forged env out r then (ok (turned_away 401), []) else elim (header_of r.event) [
      | none ↦ (ok (turned_away 400), [])
      | some event ↦
          webhook_parsed env out event (get_or r.delivery "") (out.engine.parse_json r.body)
    ]

-- Whether a request carries a secret as its bearer.
abbrev pub bears : String → Option String → Bool
bears secret none = false
bears secret (some a) = str_eq a (join "Bearer " secret)

abbrev pub is_unauthorized : Option String → Option String → Bool
is_unauthorized none authorization = false
is_unauthorized (some secret) authorization = not (bears secret authorization)

-- STATEFUL_SIGNALS.
abbrev pub is_stateful : Option Json → Bool
is_stateful (some (text k)) = str_eq k "outcome" || (str_eq k "blocked" || str_eq k "ended")
is_stateful _ = false

abbrev its_status : Answer ℕ → Answer Response
its_status (ok s) = ok (its_answer s)
its_status (thrown e) = thrown e

abbrev or_null : Option Json → Json
or_null none = null
or_null (some v) = v

-- Whether a signal names its repo and says something.
abbrev pub names_item : Json → Bool
names_item body =
    is_truthy (field_of "owner" (some body))
    && (is_truthy (field_of "repo" (some body)) && is_truthy (field_of "signal" (some body)))

unfoldable pub pass_signal : FrontEnv → Around → Json → Answer Response × List Passed
pass_signal env out body =
    let v = some body in
    let signal = field_of "signal" v in
    if not (names_item body)
    then (ok (turned_away 400), [])
    else if not (is_some env.signal_secret) && is_stateful (field_of "kind" signal)
    then (ok (turned_away 401), [])
    else (
      its_status (out.passed_on 0),
      signalled (or_null (field_of "owner" v)) (or_null (field_of "repo" v)) (or_null signal) ∷ [],
    )

unfoldable pub signal_read : FrontEnv → Around → Option Json → Answer Response × List Passed
signal_read env out none = (ok (turned_away 400), [])
signal_read env out (some null) = (thrown (refused "null"), [])
signal_read env out (some body) = pass_signal env out body

-- `handleRoutineSignal`.
unfoldable pub handle_signal : FrontEnv → Around → Delivery → Answer Response × List Passed
handle_signal env out r =
    if is_unauthorized env.signal_secret r.authorization
    then (ok (turned_away 401), [])
    else signal_read env out (out.engine.parse_json r.body)

-- `handleSweep`.
unfoldable pub handle_sweep : FrontEnv → Around → Delivery → Answer Response × List Passed
handle_sweep env out r = elim env.log_read_secret [
  | none ↦ (ok (turned_away 404), [])
  | some secret ↦
      if not env.has_scheduler
      then (ok (turned_away 404), [])
      else if not (bears secret r.authorization)
      then (ok (turned_away 401), [])
      else (its_status (out.passed_on 0), swept (out.listed (get_or env.log_read_repos "")) ∷ [])
]

-- What a read of the log asks for.
pub record LogQuery : Type 0 where
  pub owner : String
  pub repo : String
  pub issue : Option Number

abbrev positive : Option Number → Option ℕ
positive (some (natural n)) = if leb 1 n then some n else none
positive _ = none

-- `handleTransitions`, up to its rows: the issue whose rows it reads, or the status of its refusal.
unfoldable pub handle_transitions : FrontEnv → Around → Delivery → LogQuery → ℕ ⊎ ℕ
handle_transitions env out r q = elim env.log_read_secret [
  | none ↦ inl 404
  | some secret ↦
      if not (bears secret r.authorization)
      then inl 401
      else if str_eq q.owner "" || str_eq q.repo ""
      then inl 400
      else elim (positive q.issue) [
        | none ↦ inl 400
        | some n ↦
            if any (λ r. str_eq (out.lower (join q.owner (join "/" q.repo))) (out.lower r))
              (out.listed (get_or env.log_read_repos ""))
            then inr n
            else inl 403
      ]
]
