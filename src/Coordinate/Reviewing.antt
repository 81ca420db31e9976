-- ===== src/Coordinate/Reviewing.antt =====
-- worker/src/coordinate/webhook.ts: `ai-reviewing` added to a PR, by a person or by a build's hand-off.
use umbraco_mcp_ops.Prelude.{
  Bool, false, not, ◌||◌, Option, none, some, List, [], ◌∷◌, ◌++◌, is_some, if◌then◌else◌,
}
use text.Mathlib.Text.{find?}
use umbraco_mcp_ops.Graph.Label.{
  Name, tracked, includes, without, ai_reviewing, ai_stuck, ai_blocked, ready_for_review,
}
use umbraco_mcp_ops.Graph.Event.{labelled_ai_reviewing}
use umbraco_mcp_ops.Graph.Table.{State, untracked, on}
use umbraco_mcp_ops.Graph.Reduce.{reduce}
use umbraco_mcp_ops.Coordinate.DeriveState.{Derived, settled, ambiguous, derive_state}
use umbraco_mcp_ops.Coordinate.Types.{
  domain, Dropped, no_such_pull, pull_not_open, hand_off_in_state, Answer, ok, thrown, Failure,
  PullDetails, Call, Deps, Input, CoordinateResult, no_event, stale_label, dropped_no_rule,
  is_applied, deps_for, mode_for,
}
use umbraco_mcp_ops.Coordinate.Steps.{
  Step, pure, throw, read, ask, attempt, perform_live, when, ◌>>=◌, ◌>>◌,
}
use umbraco_mcp_ops.Coordinate.Storage.{set_ci_fix, set_review_loop, set_rework_expired}
use umbraco_mcp_ops.Coordinate.Apply.{apply_event, row, log_row, message}
use umbraco_mcp_ops.Coordinate.ReviewGate.{review_gate, review_is_out}
use umbraco_mcp_ops.Coordinate.Rework.{reads_as, reads_untracked}

-- What the rule of the label took off.
abbrev pub after_labelled : List Name → List Name
after_labelled labels =
    without (tracked ai_stuck)
      (without (tracked ai_blocked) (without (tracked ready_for_review) labels))

-- `gated.outcome === "no_event" ? labelled : gated`.
abbrev pub gated_or : CoordinateResult → CoordinateResult → CoordinateResult
gated_or labelled no_event = labelled
gated_or labelled gated = gated

-- From `ai-stuck` both counts of the review start fresh.
unfoldable pub fresh_review : Bool → Step (Unit {0})
fresh_review stuck = when stuck (do set_review_loop none; set_ci_fix none; set_rework_expired false)

-- The label is on: its rule, and then the CI gate.
unfoldable pub review_labelled : Deps → Input → List Name → Step CoordinateResult
review_labelled d input labels = do
  fresh_review (reads_as ai_stuck (derive_state (without (tracked ai_reviewing) labels)))
  labelled ← apply_event d input labelled_ai_reviewing labels
  if is_applied labelled
      then (do gated ← review_gate d input (after_labelled labels); pure (gated_or labelled gated))
      else pure labelled

-- The label, where it is still on and no review is out already.
unfoldable pub review_if_on : Deps → Input → List Name → Step CoordinateResult
review_if_on d input labels = do
  out ← read (λ s. review_is_out s.pending)
  if not (includes (tracked ai_reviewing) labels) || out
      then pure (stale_label labelled_ai_reviewing)
      else review_labelled d input labels

abbrev pub dropped_as : Option State → CoordinateResult
dropped_as none = stale_label labelled_ai_reviewing
dropped_as (some s) = dropped_no_rule s labelled_ai_reviewing

abbrev pub state_or_none : Option State → State
state_or_none none = untracked
state_or_none (some s) = s

unfoldable pub drop_hand_off : Deps → Input → Dropped → Option State → Step CoordinateResult
drop_hand_off d input why from = do
  log_row (deps_for d (domain labelled_ai_reviewing)) (
      row input (settled (state_or_none from)) (domain labelled_ai_reviewing) none none (some why)
        (mode_for d (domain labelled_ai_reviewing)))
  pure (dropped_as from)

-- The hand-off to an open PR, by the state that it reads as.
unfoldable pub hand_off_to_open : Deps → Input → List Name → Derived → Step CoordinateResult
hand_off_to_open d input labels ambiguous = apply_event d input labelled_ai_reviewing labels
hand_off_to_open d input labels (settled (on l)) =
    drop_hand_off d input (hand_off_in_state (on l)) (some (on l))
hand_off_to_open d input labels (settled untracked) =
    if is_some (reduce untracked labelled_ai_reviewing)
    then (do
      perform_live (deps_for d (domain labelled_ai_reviewing))
          (Call.add_label (tracked ai_reviewing))
      review_if_on d input (labels ++ tracked ai_reviewing ∷ []))
    else apply_event d input labelled_ai_reviewing labels

-- `/ failed: 404 /.test(e.message)`.
abbrev pub is_not_found : Failure → Bool
is_not_found e = is_some (find? (message e) " failed: 404 ")

unfoldable pub hand_off_to : Deps → Input → List Name → Answer PullDetails → Step CoordinateResult
hand_off_to d input labels (thrown e) =
    if is_not_found e then drop_hand_off d input no_such_pull none else throw e
hand_off_to d input labels (ok pull) =
    if pull.is_open
    then hand_off_to_open d input labels (derive_state labels)
    else drop_hand_off d input pull_not_open none

-- A build's PR, handed its review: the Worker adds the label itself.
unfoldable pub review_handed_off : Deps → Input → List Name → Step CoordinateResult
review_handed_off d input labels =
    if includes (tracked ai_reviewing) labels
    then (if reads_untracked (derive_state (without (tracked ai_reviewing) labels))
        then review_if_on d input labels
        else pure (stale_label labelled_ai_reviewing))
    else do pull ← attempt (ask d.outside.pull); hand_off_to d input labels pull
