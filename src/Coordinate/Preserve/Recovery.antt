-- ===== src/Coordinate/Preserve/Recovery.antt =====
-- Invariants of the handlers in Coordinate/Recovery (worker/src/coordinate/watchdog.ts).
use umbraco_mcp_ops.Prelude.{ℕ, Option, none, some, List, [], ◌∷◌}
use umbraco_mcp_ops.Graph.Table.{State}
use umbraco_mcp_ops.Coordinate.Types.{
  World, Deps, Input, PendingFire, IssueComment, CoordinateResult, Answer, ok, thrown, deduped,
  no_event, ambiguous_state, dropped_no_rule, ignored, stale_label, closed_issue, manual_override,
  applied,
}
use umbraco_mcp_ops.Coordinate.Steps.{Step}
use umbraco_mcp_ops.Coordinate.Recovery.{
  recovered_as, replayed, recover_from, recover_in, recover_since, recover_outcome,
}
use umbraco_mcp_ops.Coordinate.Preserve.{Preserves, Frame, Claims, step_rules}
use umbraco_mcp_ops.Coordinate.Preserve.Webhook.{coordinate_webhook-Preserves}
use mathlib.Core.List.{reverse}

module _ {P : World → Type 0} {d : Deps} where
  recovered_as-Preserves :
      (input : Input) (p : PendingFire) (from : State) (r : CoordinateResult)
      → Frame P d
      → Preserves P (recovered_as d input p from r)
  unfolding recovered_as
  recovered_as-Preserves input p from r F = search step_rules depth 30

  replayed-Preserves :
      (input : Input) (p : PendingFire) (rest : Step (Option CoordinateResult))
      (a : Answer CoordinateResult)
      → Preserves P rest
      → Frame P d
      → Preserves P (replayed d input p rest a)
  unfolding replayed
  replayed-Preserves input p rest (ok (applied from e r)) K F =
      search (step_rules, recovered_as-Preserves) depth 30
  replayed-Preserves input p rest (ok deduped) K F = K
  replayed-Preserves input p rest (ok no_event) K F = K
  replayed-Preserves input p rest (ok ambiguous_state) K F = K
  replayed-Preserves input p rest (ok (dropped_no_rule s e)) K F = K
  replayed-Preserves input p rest (ok (ignored s e)) K F = K
  replayed-Preserves input p rest (ok (stale_label e)) K F = K
  replayed-Preserves input p rest (ok (closed_issue e)) K F = K
  replayed-Preserves input p rest (ok (manual_override b l s)) K F = K
  replayed-Preserves input p rest (thrown e) K F = search step_rules depth 30

  recover_from-Preserves :
      (input : Input) (p : PendingFire) (fired : ℕ) (cs : List IssueComment)
      → Frame P d
      → Claims P
      → Preserves P (recover_from d input p fired cs)
  unfolding recover_from
  recover_from-Preserves input p fired [] F C = search step_rules depth 30
  recover_from-Preserves input p fired (c ∷ cs) F C =
      let K = recover_from-Preserves input p fired cs F C in
      search (step_rules, replayed-Preserves, coordinate_webhook-Preserves) depth 30

  recover_in-Preserves :
      (input : Input) (p : PendingFire) (fired : ℕ) (a : Answer (List IssueComment))
      → Frame P d
      → Claims P
      → Preserves P (recover_in d input p fired a)
  unfolding recover_in
  recover_in-Preserves input p fired (thrown e) F C = search step_rules depth 30
  recover_in-Preserves input p fired (ok comments) F C =
      recover_from-Preserves input p fired (reverse comments) F C

  recover_since-Preserves :
      (input : Input) (p : PendingFire) (fired : Option ℕ)
      → Frame P d
      → Claims P
      → Preserves P (recover_since d input p fired)
  unfolding recover_since
  recover_since-Preserves input p none F C = search step_rules depth 30
  recover_since-Preserves input p (some fired) F C =
      search (step_rules, recover_in-Preserves) depth 30

  pub recover_outcome-Preserves :
      (input : Input) (p : PendingFire)
      → Frame P d
      → Claims P
      → Preserves P (recover_outcome d input p)
  unfolding recover_outcome
  recover_outcome-Preserves input p F C = recover_since-Preserves input p p.fired_at F C
