-- ===== src/Coordinate/Stages.antt =====
-- worker/src/coordinate/stages.ts: the hand-offs from one item to another.
use Prim.Native.String.{◌++◌}
use umbraco_mcp_ops.Prelude.{
  ℕ, String, Bool, true, false, not, Option, none, some, List, [], ◌∷◌, ◌==◌, filter, get_or,
  str_eq, if◌then◌else◌,
}
use umbraco_mcp_ops.Graph.Label.{Name}
use umbraco_mcp_ops.Graph.Event.{pr_merged, released, merged}
use umbraco_mcp_ops.Graph.Table.{State, untracked}
use umbraco_mcp_ops.Graph.Json.{Engine, Number, natural, is_number}
use umbraco_mcp_ops.Graph.ClosingRefs.{closing_issues}
use umbraco_mcp_ops.Graph.Translate.{
  orchestrator_pr_merged, orchestrator_review_requested, orchestrator_released, Payload,
  PullRequest, Shipped, Release, blank_payload,
}
use umbraco_mcp_ops.Coordinate.DeriveState.{Derived, settled, ambiguous, derive_state}
use umbraco_mcp_ops.Coordinate.Types.{
  domain, Call, forward, work_log, Deps, Input, CoordinateResult, ignored, is_applied, deps_for,
}
use umbraco_mcp_ops.Coordinate.Steps.{
  Step, pure, read, ask, attempt, perform, perform_live, ◌>>=◌, ◌>>◌,
}
use umbraco_mcp_ops.Coordinate.Storage.{set_shipped}
use umbraco_mcp_ops.Coordinate.Apply.{apply_event}

-- `handOffId`.
unfoldable pub hand_off_id : Deps → Option String → Number → String
hand_off_id d delivery n = get_or delivery "worker" ++ (":#" ++ d.outside.engine.show n)

-- One payload to each of some items, in order; a refused one ends the rest.
unfoldable pub forward_each : Deps → Option String → Payload → List ℕ → Step (Unit {0})
forward_each d delivery payload [] = pure tt
forward_each d delivery payload (n ∷ ns) = do
  perform d (forward (natural n) payload (hand_off_id d delivery (natural n)))
  forward_each d delivery payload ns

-- The issues that a PR closes, other than itself.
abbrev pub closes_of : Engine → ℕ → PullRequest → List ℕ
closes_of e item pr = filter (λ n. not (n == item)) (closing_issues e pr.body)

abbrev pub shipped_payload : ℕ → String → Payload
shipped_payload pr sha = record (blank_payload orchestrator_pr_merged) {
  shipped = some (record { pr = pr; sha = sha });
}

-- The merge commit of a PR that was merged.
abbrev pub merge_commit : PullRequest → Option String
merge_commit pr = if pr.merged then pr.merge_commit_sha else none

unfoldable pub hand_off_commit : Deps → Input → PullRequest → Option String → Step (Unit {0})
hand_off_commit d input pr none = pure tt
hand_off_commit d input pr (some sha) =
    forward_each d input.delivery (shipped_payload input.item sha)
      (closes_of d.outside.engine input.item pr)

-- `handOffMerged`.
unfoldable pub hand_off_merged : Deps → Input → Option PullRequest → Step (Unit {0})
hand_off_merged d input none = pure tt
hand_off_merged d input (some pr) = hand_off_commit d input pr (merge_commit pr)

-- `handOffReview`.
unfoldable pub hand_off_review : Deps → Input → Number → Step (Unit {0})
hand_off_review d input pr =
    if is_number input.item pr
    then pure tt
    else perform d (
        forward pr
          (record (blank_payload orchestrator_review_requested) {
            review_request = some input.item;
          })
          (hand_off_id d input.delivery pr))

unfoldable pub post_log : Deps → Option String → Step (Unit {0})
post_log d none = pure tt
post_log d (some body) = perform_live (deps_for d (domain merged)) (Call.comment (work_log body))

-- `exportWorkLog`; the text of the export is the work log's own (worker/src/work-log.ts).
unfoldable pub export_work_log : Deps → Input → Option PullRequest → Step (Unit {0})
export_work_log d input none = pure tt
export_work_log d input (some pr) =
    if pr.merged
    then (do done ← attempt (do body ← ask d.outside.work_log; post_log d body); pure tt)
    else pure tt

-- `handOffRelease`.
unfoldable pub hand_off_release : Deps → Input → String → String → Step (Unit {0})
hand_off_release d input version tag = do
  items ← ask d.outside.open_items
  forward_each d input.delivery
      (record (blank_payload orchestrator_released) {
        release = some (record { version = version; tag = tag });
      })
      items

unfoldable pub keep_shipped : Bool → Option Shipped → Step (Unit {0})
keep_shipped true (some x) = set_shipped (some x)
keep_shipped _ _ = pure tt

-- `prMerged`.
unfoldable pub handle_pr_merged : Deps → Input → List Name → Option Shipped → Step CoordinateResult
handle_pr_merged d input labels shipped = do
  result ← apply_event d input pr_merged labels
  keep_shipped (is_applied result) shipped
  pure result

-- `stateOf`.
abbrev pub state_of : Derived → State
state_of (settled s) = s
state_of ambiguous = untracked

unfoldable pub contains_merge : Deps → Option Release → Option Shipped → Step Bool
contains_merge d (some r) (some shipped) =
    if str_eq r.tag "" then pure false else ask d.outside.in_tag
contains_merge d _ _ = pure false

-- `released`.
unfoldable pub handle_released : Deps → Input → List Name → Option Release → Step CoordinateResult
handle_released d input labels release = do
  shipped ← read (λ s. s.shipped)
  contained ← contains_merge d release shipped
  if contained
      then apply_event d input released labels
      else pure (ignored (state_of (derive_state labels)) released)
