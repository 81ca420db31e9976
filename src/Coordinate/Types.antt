-- ===== src/Coordinate/Types.antt =====
-- worker/src/coordinate/types.ts: the vocabulary of the coordinator. What it keeps for an item
-- (the Durable Object's storage), what it says (log rows, comments, status updates), what it calls,
-- and what the outside answers.
-- A coordinator serves one item, so `owner`, `repo` and `issueNumber` stand only where a call names
-- another item. A comment is its kind and the values that its text quotes.
use umbraco_mcp_ops.Prelude.{
  ℕ, String, Bool, true, false, Option, none, some, List, str_eq, if◌then◌else◌, ◌&&◌,
}
use umbraco_mcp_ops.Graph.Label.{Label, Name}
use umbraco_mcp_ops.Graph.Event.{Event, watchdog_expired, same_event}
use umbraco_mcp_ops.Graph.Routine.{Routine, auto_release_loop, issue_build_loop}
use umbraco_mcp_ops.Graph.Table.{State, Effect, Rule}
use umbraco_mcp_ops.Graph.Json.{Engine, Number}
use umbraco_mcp_ops.Graph.Outcome.{MergeMethod}
use umbraco_mcp_ops.Graph.Gate.{MergeGateFacts, BlockReason}
use umbraco_mcp_ops.Graph.Translate.{Payload, Shipped, Association, UserType}
use umbraco_mcp_ops.Coordinate.DeriveState.{Derived}

pub data Mode : Type 0 where
  shadow enforce : Mode

-- The `event` column of a log row: a domain event, or one of the Worker's own row names.
pub data RowName : Type 0 where
  domain : Event → RowName
  manual_override review_gate_skipped reconcile_refire watchdog_recovered : RowName
  watchdog_retried deferred_fire_dropped deferred_fire_refused outcome_invalid : RowName
  routine_blocked : RowName

pub record PendingFire : Type 0 where
  pub run : Routine
  pub last_step : Option String
  pub last_step_at : Option ℕ
  pub due_at : Option ℕ
  pub fired_at : Option ℕ
  pub retried : Bool
  pub is_blocked : Bool
  pub defer_until : Option ℕ
  pub unwatched : Bool

-- The release PR that the Worker merged, by the number and commit that its approval named.
pub record ReleaseMerge : Type 0 where
  pub pr : Number
  pub sha : String

pub record CiFix : Type 0 where
  pub attempts : ℕ
  pub pending : Bool
  pub return_to : Option Label

pub record ReviewLoop : Type 0 where
  pub bot_rounds : ℕ
  pub fix_pending : Bool

pub record Caps : Type 0 where
  pub ci_fix_attempts : ℕ
  pub review_reworks : ℕ
  pub bot_review_reworks : ℕ

-- DEFAULT_CAPS.
abbrev pub default_caps : Caps
default_caps = record { ci_fix_attempts = 3; review_reworks = 3; bot_review_reworks = 3 }

pub record AppliedOutcome : Type 0 where
  pub run : Routine
  pub fired_at : Option ℕ
  pub outcome : Event

pub data StatusUpdate : Type 0 where
  transition : Derived → Option Routine → Bool → StatusUpdate
  step : String → ℕ → StatusUpdate
  done : StatusUpdate
  rework : ℕ → StatusUpdate
  gone : Bool → StatusUpdate
  reopened : StatusUpdate

-- Why a row records that nothing was applied.
pub data Dropped : Type 0 where
  ambiguous_labels no_matching_rule review_already_pending push_without_rework : Dropped
  no_such_pull pull_not_open not_wanted : Dropped
  hand_off_in_state : State → Dropped
  fire_refused : String → Dropped
  already_applied : String → Event → Dropped
  outcome_refused : Option Routine → Dropped
  invalid_outcome : String → Dropped

-- Minutes without activity, in tenths: so many since the last one, or until it where it lies ahead.
pub data Idle : Type 0 where
  idle_for ahead_by : ℕ → Idle

-- Why a sweep that may act only logged: MODE, or the repo's watchdog, is in shadow.
pub data Held : Type 0 where
  mode_shadow watchdog_shadow : Held

-- The `toEffect` column.
pub data RowEffect : Type 0 where
  of_rule : Effect → RowEffect
  manual : Bool → Label → Option String → Derived → RowEffect
  no_effect : RowEffect
  swept : Option Idle → Option Held → RowEffect
  swept_retry : Option Idle → RowEffect

pub record Row : Type 0 where
  pub delivery : Option String
  pub actor : Option String
  pub from_state : Derived
  pub name : RowName
  pub to_effect : Option RowEffect
  pub run : Option String
  pub dropped : Option Dropped
  pub mode : Mode

pub data BlockNotice : Type 0 where
  hard_block : BlockReason → BlockNotice
  ci_attempts_spent : ℕ → List String → BlockNotice
  reported_block : String → BlockNotice

pub data StopReason : Type 0 where
  ci_still_failing : ℕ → List String → StopReason
  rounds_spent : ℕ → ℕ → StopReason

pub data RefusedMerge : Type 0 where
  merged_elsewhere : Number → String → RefusedMerge
  merge_refused : Number → String → String → RefusedMerge

-- The comments that the coordinator writes.
pub data Notice : Type 0 where
  fire_deferred : Routine → ℕ → Notice
  fire_refused : Routine → String → Option Label → Notice
  handed_to_rework : List String → ℕ → ℕ → Label → Notice
  not_merging : BlockNotice → Notice
  stopped_review : StopReason → Notice
  review_round : ℕ → ℕ → Notice
  rework_rounds_spent : ℕ → ℕ → Notice
  review_restarts : Notice
  not_releasing : String → RefusedMerge → Notice
  release_merged : Number → MergeMethod → Notice
  work_log : String → Notice
  run_expired : Routine → Option String → Bool → Notice
  run_ended : Routine → String → Bool → Notice
  run_retried : Routine → ℕ → Notice
  run_blocked : Routine → String → Notice
  deferred_fire_dropped : Routine → Notice
  deferred_fire_failed : Routine → String → Notice

-- An error that a call throws: the routines API's rate limit, with the time to try again, or any other
-- by its message.
pub data Failure : Type 0 where
  rate_limited : String → ℕ → Failure
  refused : String → Failure

pub data Answer {ℓ} (A : Type ℓ) : Type ℓ where
  ok : A → Answer A
  thrown : Failure → Answer A

pub record PullDetails : Type 0 where
  pub head_sha : String
  pub is_merged : Bool
  pub is_open : Bool

pub record IssueComment : Type 0 where
  pub body : String
  pub created_at : ℕ
  pub login : String
  pub association : Association
  pub user_type : UserType

-- A call that changes something outside the coordinator's own storage, or sets or clears its alarm.
pub data Call : Type 0 where
  add_label : Name → Call
  remove_label : Name → Call
  close_issue : Call
  comment : Notice → Call
  fire : Routine → Call
  merge_pull : Number → String → MergeMethod → Call
  forward : Number → Payload → String → Call
  log : Row → Call
  status : StatusUpdate → Call
  arm : ℕ → Call
  disarm : Call

-- What the outside answers to the coordinator's n-th call: any answers at all.
pub record Outside : Type 0 where
  pub engine : Engine
  pub now : ℕ → ℕ
  pub write : ℕ → Answer (Unit {0})
  pub labels : ℕ → Answer (List Name)
  pub facts : ℕ → Answer MergeGateFacts
  pub pull : ℕ → Answer PullDetails
  pub comments : ℕ → Answer (List IssueComment)
  pub in_tag : ℕ → Answer Bool
  pub open_items : ℕ → Answer (List ℕ)
  pub bot_login : ℕ → Answer (Option String)
  pub work_log : ℕ → Answer (Option String)
  pub last_activity : ℕ → Answer (Option ℕ)

-- `Deps`. `live` is false where `shadowDeps` replaced the writes by functions that do nothing.
pub record Deps : Type 0 where
  pub outside : Outside
  pub live : Bool
  pub enforced : RowName → Bool
  pub caps : Caps
  pub watchdog_minutes : Routine → ℕ
  pub watchdog_retry : Bool

-- The Durable Object's storage for one item.
pub record Store : Type 0 where
  pub pending : Option PendingFire
  pub alarm : Option ℕ
  pub ci_fix : Option CiFix
  pub rework_expired : Bool
  pub review_reworks : ℕ
  pub review_loop : Option ReviewLoop
  pub shipped : Option Shipped
  pub release_merged : Option ReleaseMerge
  pub merge_fired_for : Option String
  pub applied : String → Option AppliedOutcome
  pub seen : List String
  pub completed : Option ℕ
  pub reconcile_reported : Option (Option ℕ)

pub record World : Type 0 where
  pub store : Store
  pub calls : ℕ
  pub trace : List Call

-- What caused a row when no webhook did.
pub data Actor : Type 0 where
  watchdog sweep routine_signal : Actor

abbrev pub actor_name : Actor → String
actor_name watchdog = "watchdog"
actor_name sweep = "sweep"
actor_name routine_signal = "routine-signal"

-- `CoordinateInput`, or an `IssueRef` with no delivery and no payload.
pub record Input : Type 0 where
  pub item : ℕ
  pub delivery : Option String
  pub actor : Option Actor
  pub payload : Option Payload

pub data CoordinateResult : Type 0 where
  deduped no_event ambiguous_state : CoordinateResult
  dropped_no_rule : State → Event → CoordinateResult
  ignored : State → Event → CoordinateResult
  stale_label : Event → CoordinateResult
  closed_issue : Event → CoordinateResult
  manual_override : Bool → Label → Option String → CoordinateResult
  applied : State → Event → Rule → CoordinateResult

abbrev pub is_applied : CoordinateResult → Bool
is_applied (applied s e r) = true
is_applied _ = false

-- `resolveMode`, of the text of MODE or WATCHDOG if it is set.
unfoldable pub resolve_mode : Option String → Mode
resolve_mode none = shadow
resolve_mode (some raw) = if str_eq raw "enforce" then enforce else shadow

abbrev enforces : Mode → Bool
enforces enforce = true
enforces shadow = false

-- `resolveEnforced`.
unfoldable pub resolve_enforced : Option String → Option String → RowName → Bool
unfolding resolve_mode
resolve_enforced mode expiry (domain e) =
    if same_event e watchdog_expired
    then enforces (resolve_mode mode) && enforces (resolve_mode expiry)
    else enforces (resolve_mode mode)
resolve_enforced mode expiry other = enforces (resolve_mode mode)

-- `shadowDeps`.
unfoldable pub shadow_deps : Deps → Deps
shadow_deps d = record d { live = false; enforced = λ _. false }

-- `depsFor`: its `io`, and its `mode`.
unfoldable pub deps_for : Deps → RowName → Deps
unfolding shadow_deps
deps_for d e = if d.enforced e then d else shadow_deps d

unfoldable pub mode_for : Deps → RowName → Mode
mode_for d e = if d.enforced e then enforce else shadow

-- `watchdogMinutesFor`.
unfoldable pub watchdog_minutes_for : Routine → ℕ
watchdog_minutes_for auto_release_loop = 60
watchdog_minutes_for issue_build_loop = 60
watchdog_minutes_for _ = 30
