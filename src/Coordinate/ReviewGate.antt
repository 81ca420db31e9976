-- ===== src/Coordinate/ReviewGate.antt =====
-- worker/src/coordinate/review-gate.ts: the review's CI gate, its rounds and their caps.
use umbraco_mcp_ops.Prelude.{
  ℕ, ◌+◌, ◌-◌, String, Bool, true, false, not, ◌||◌, Option, none, some, List, [], ◌∷◌, leb, ltb,
  if◌then◌else◌,
}
use umbraco_mcp_ops.Graph.Label.{Name, ai_reviewing}
use umbraco_mcp_ops.Graph.Event.{
  review_ci_passed, review_ci_failed, review_findings, rework_cap_reached,
}
use umbraco_mcp_ops.Graph.Routine.{review_loop, same_routine}
use umbraco_mcp_ops.Graph.Table.{on}
use umbraco_mcp_ops.Graph.Gate.{MergeGateFacts, failed_check_names, any_pending}
use umbraco_mcp_ops.Coordinate.DeriveState.{settled}
use umbraco_mcp_ops.Coordinate.Types.{
  domain, review_gate_skipped, review_already_pending, PendingFire, ReviewLoop, StatusUpdate,
  StopReason, ci_still_failing, rounds_spent, Call, stopped_review, handed_to_rework, review_round,
  Deps, Input, CoordinateResult, no_event, is_applied, deps_for, mode_for,
}
use umbraco_mcp_ops.Coordinate.Steps.{Step, pure, read, ask, perform_live, when, ◌>>=◌, ◌>>◌}
use umbraco_mcp_ops.Coordinate.Storage.{
  set_ci_fix, set_review_loop, set_rework_expired, record_status,
}
use umbraco_mcp_ops.Coordinate.Apply.{apply_event, row, log_row}
use umbraco_mcp_ops.Coordinate.MergeGate.{attempts_of}

-- `capReview`.
unfoldable pub cap_review : Deps → Input → List Name → StopReason → Step CoordinateResult
cap_review d input labels why = do
  result ← apply_event d input rework_cap_reached labels
  when (is_applied result) (do
    set_rework_expired false
    perform_live (deps_for d (domain rework_cap_reached)) (Call.comment (stopped_review why)))
  pure result

-- What `handReviewToRework` does once its rule applied.
unfoldable pub count_review_ci_fix : Deps → List String → ℕ → Step (Unit {0})
count_review_ci_fix d failed attempts = do
  set_ci_fix
      (some (record { attempts = attempts + 1; pending = true; return_to = some ai_reviewing }))
  when (d.enforced (domain review_ci_failed)) (record_status (StatusUpdate.rework (attempts + 1)))
  perform_live (deps_for d (domain review_ci_failed))
      (Call.comment (handed_to_rework failed (attempts + 1) d.caps.ci_fix_attempts ai_reviewing))

-- `handReviewToRework`, given the attempts so far.
unfoldable pub hand_review_after :
    Deps → Input → List Name → List String → ℕ → Step CoordinateResult
hand_review_after d input labels failed attempts =
    if leb d.caps.ci_fix_attempts attempts
    then cap_review d input labels (ci_still_failing attempts failed)
    else do
      result ← apply_event d input review_ci_failed labels
      when (is_applied result) (count_review_ci_fix d failed attempts)
      pure result

unfoldable pub hand_review_to_rework :
    Deps → Input → List Name → MergeGateFacts → Step CoordinateResult
hand_review_to_rework d input labels facts = do
  attempts ← read (λ s. attempts_of s.ci_fix)
  hand_review_after d input labels (failed_check_names facts) attempts

abbrev pub is_empty {ℓ} : {A : Type ℓ} → List A → Bool
is_empty [] = true
is_empty (x ∷ xs) = false

-- Whether `review-loop` is the routine that is out.
abbrev pub review_is_out : Option PendingFire → Bool
review_is_out none = false
review_is_out (some p) = same_routine p.run review_loop

unfoldable pub gate_review : Deps → Input → List Name → MergeGateFacts → Step CoordinateResult
gate_review d input labels facts =
    if is_empty facts.check_runs || any_pending facts
    then pure no_event
    else if not (is_empty (failed_check_names facts))
    then hand_review_to_rework d input labels facts
    else apply_event d input review_ci_passed labels

unfoldable pub review_gate_for : Deps → Input → List Name → Bool → Step CoordinateResult
review_gate_for d input labels true = do
  log_row d (
      row input (settled (on ai_reviewing)) review_gate_skipped none none
        (some review_already_pending) (mode_for d (domain review_ci_passed)))
  pure no_event
review_gate_for d input labels false = do
  facts ← ask d.outside.facts
  gate_review d input labels facts

-- `reviewGate`.
unfoldable pub review_gate : Deps → Input → List Name → Step CoordinateResult
review_gate d input labels = do
  out ← read (λ s. review_is_out s.pending)
  review_gate_for d input labels out

abbrev pub rounds_of : Option ReviewLoop → ℕ
rounds_of none = 0
rounds_of (some r) = r.bot_rounds

-- `reviewFindings`, given the number of this round.
unfoldable pub review_findings_round : Deps → Input → List Name → ℕ → Step CoordinateResult
review_findings_round d input labels rounds =
    if ltb d.caps.bot_review_reworks rounds
    then cap_review d input labels (rounds_spent (rounds - 1) d.caps.bot_review_reworks)
    else do
      result ← apply_event d input review_findings labels
      when (is_applied result) (do
        set_review_loop (some (record { bot_rounds = rounds; fix_pending = true }))
        perform_live (deps_for d (domain review_findings))
            (Call.comment (review_round rounds d.caps.bot_review_reworks)))
      pure result

unfoldable pub handle_review_findings : Deps → Input → List Name → Step CoordinateResult
handle_review_findings d input labels = do
  rounds ← read (λ s. rounds_of s.review_loop + 1)
  review_findings_round d input labels rounds
