-- ===== src/Coordinate/MergeGate.antt =====
-- worker/src/coordinate/merge-gate.ts: a hard block, failing CI, and the settled facts.
use umbraco_mcp_ops.Prelude.{
  ℕ, zero, suc, ◌+◌, String, Bool, true, false, Option, none, some, List, leb, if◌then◌else◌,
}
use umbraco_mcp_ops.Graph.Label.{Label, Name, tracked, includes, auto_merging}
use umbraco_mcp_ops.Graph.Event.{Event, merge_gate_failed_soft, merge_gate_failed_hard}
use umbraco_mcp_ops.Graph.Gate.{MergeGateFacts, failed_check_names}
use umbraco_mcp_ops.Coordinate.Types.{
  domain, CiFix, StatusUpdate, BlockNotice, ci_attempts_spent, Call, not_merging, handed_to_rework,
  Deps, Input, CoordinateResult, is_applied, deps_for,
}
use umbraco_mcp_ops.Coordinate.Steps.{Step, pure, read, ask, perform_live, when, ◌>>=◌, ◌>>◌}
use umbraco_mcp_ops.Coordinate.Storage.{set_ci_fix, record_status}
use umbraco_mcp_ops.Coordinate.Apply.{apply_event}

-- `(await deps.getCiFix())?.attempts ?? 0`.
abbrev pub attempts_of : Option CiFix → ℕ
attempts_of none = 0
attempts_of (some c) = c.attempts

-- `blockMerge`.
unfoldable pub block_merge : Deps → Input → List Name → BlockNotice → Event → Step CoordinateResult
block_merge d input labels reason event = do
  result ← apply_event d input event labels
  when (is_applied result)
      (perform_live (deps_for d (domain event)) (Call.comment (not_merging reason)))
  pure result

-- What `handToRework` does once its rule applied.
unfoldable pub count_ci_fix : Deps → List Name → List String → ℕ → Step (Unit {0})
count_ci_fix d labels failed attempts = do
  when (includes (tracked Label.merge_blocked) labels) (
      perform_live (deps_for d (domain merge_gate_failed_soft))
        (Call.remove_label (tracked Label.merge_blocked)))
  set_ci_fix (some (record { attempts = attempts + 1; pending = true; return_to = none }))
  when (d.enforced (domain merge_gate_failed_soft))
      (record_status (StatusUpdate.rework (attempts + 1)))
  perform_live (deps_for d (domain merge_gate_failed_soft))
      (Call.comment (handed_to_rework failed (attempts + 1) d.caps.ci_fix_attempts auto_merging))

-- `handToRework`, given the attempts so far.
unfoldable pub hand_to_rework_after :
    Deps → Input → List Name → List String → ℕ → Step CoordinateResult
hand_to_rework_after d input labels failed attempts =
    if leb d.caps.ci_fix_attempts attempts
    then block_merge d input labels (ci_attempts_spent attempts failed) merge_gate_failed_hard
    else do
      result ← apply_event d input merge_gate_failed_soft labels
      when (is_applied result) (count_ci_fix d labels failed attempts)
      pure result

unfoldable pub hand_to_rework : Deps → Input → List Name → MergeGateFacts → Step CoordinateResult
hand_to_rework d input labels facts = do
  attempts ← read (λ s. attempts_of s.ci_fix)
  hand_to_rework_after d input labels (failed_check_names facts) attempts

-- MERGEABLE_RETRIES.
abbrev mergeable_retries : ℕ
mergeable_retries = 2

abbrev pub is_null : {A : Type 0} → Option A → Bool
is_null none = true
is_null (some _) = false

-- The loop of `settledGateFacts`, by the re-reads that are left.
unfoldable pub reread_facts : Deps → ℕ → MergeGateFacts → Step MergeGateFacts
reread_facts d zero facts = pure facts
reread_facts d (suc n) facts = elim (is_null facts.mergeable) [
  | false ↦ pure facts
  | true ↦ do again ← ask d.outside.facts; reread_facts d n again
]

unfoldable pub settled_gate_facts : Deps → Step MergeGateFacts
settled_gate_facts d = do facts ← ask d.outside.facts; reread_facts d mergeable_retries facts
