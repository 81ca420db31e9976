-- ===== src/Graph/Gate.antt =====
-- graph/github/merge-gate.ts: the decision over a PR's checks, review and mergeability.
use umbraco_mcp_ops.Prelude.{
  String, Bool, true, false, not, ◌&&◌, Option, none, some, List, map, any, filter, get_or,
  if◌then◌else◌,
}

pub data CheckRunStatus : Type 0 where
  queued in_progress completed : CheckRunStatus

-- `no_conclusion` is the source's null.
pub data CheckRunConclusion : Type 0 where
  success failure neutral cancelled skipped timed_out action_required : CheckRunConclusion
  no_conclusion : CheckRunConclusion

pub record CheckRun : Type 0 where
  pub status : CheckRunStatus
  pub conclusion : CheckRunConclusion
  pub name : Option String

pub data ReviewState : Type 0 where
  approved changes_requested commented no_review : ReviewState

pub record MergeGateFacts : Type 0 where
  pub head_sha : Option String
  pub check_runs : List CheckRun
  pub latest_review : ReviewState
  pub mergeable : Option Bool

abbrev pub completed_status : CheckRunStatus → Bool
completed_status completed = true
completed_status _ = false

-- `c.status === "completed"`.
abbrev pub is_completed : CheckRun → Bool
is_completed c = completed_status c.status

-- NON_FAILING_CONCLUSIONS.
abbrev pub non_failing : CheckRunConclusion → Bool
non_failing success = true
non_failing neutral = true
non_failing skipped = true
non_failing _ = false

abbrev pub has_failed : CheckRun → Bool
has_failed c = is_completed c && not (non_failing c.conclusion)

unfoldable pub failed_check_names : MergeGateFacts → List String
failed_check_names f = map (λ c. get_or c.name "unnamed check") (filter has_failed f.check_runs)

-- `passes` is the source's null.
pub data MergeGateOutcome : Type 0 where
  still_pending soft hard passes : MergeGateOutcome

pub data BlockReason : Type 0 where
  merge_conflict requested_changes : BlockReason

abbrev asked_for_changes : ReviewState → Bool
asked_for_changes changes_requested = true
asked_for_changes _ = false

block_reason : Option Bool → ReviewState → Option BlockReason
block_reason mergeable latest = elim mergeable [
  | some false ↦ some merge_conflict
  | _ ↦ if asked_for_changes latest then some requested_changes else none
]

-- `hardBlockReason`.
unfoldable pub hard_block_reason : MergeGateFacts → Option BlockReason
unfolding block_reason
hard_block_reason f = block_reason f.mergeable f.latest_review

-- `checkRuns.some((c) => c.status !== "completed")`.
abbrev pub any_pending : MergeGateFacts → Bool
any_pending f = any (λ c. not (is_completed c)) f.check_runs

gate_of_settled : Bool → ReviewState → List CheckRun → MergeGateOutcome
gate_of_settled m latest runs =
    if not m
    then hard
    else if asked_for_changes latest
    then hard
    else if any (λ c. not (non_failing c.conclusion)) runs
    then soft
    else passes

gate_of_completed : Option Bool → ReviewState → List CheckRun → MergeGateOutcome
gate_of_completed none latest runs = still_pending
gate_of_completed (some m) latest runs = gate_of_settled m latest runs

-- `deriveMergeGateOutcome`.
unfoldable pub derive_gate : MergeGateFacts → MergeGateOutcome
unfolding gate_of_completed gate_of_settled
derive_gate f =
    if any_pending f
    then still_pending
    else gate_of_completed f.mergeable f.latest_review f.check_runs
