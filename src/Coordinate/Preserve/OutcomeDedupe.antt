-- ===== src/Coordinate/Preserve/OutcomeDedupe.antt =====
-- Invariants of the handlers in Coordinate/OutcomeDedupe (worker/src/coordinate/outcome-dedupe.ts).
use umbraco_mcp_ops.Prelude.{Option, none, some}
use umbraco_mcp_ops.Coordinate.Types.{PendingFire, Deps, Input, World}
use umbraco_mcp_ops.Coordinate.Preserve.{Preserves, Frame, step_rules}
use umbraco_mcp_ops.Coordinate.OutcomeDedupe.{remember_applied, log_deduped, ReportedOutcome}

module _ {P : World → Type 0} {d : Deps} where
  pub remember_applied-Preserves :
      (a0 : ReportedOutcome) (a1 : Option PendingFire)
      → Frame P d
      → Preserves P (remember_applied a0 a1)
  unfolding remember_applied
  remember_applied-Preserves reported none F = search step_rules depth 30
  remember_applied-Preserves reported (some before) F = search step_rules depth 30

  pub log_deduped-Preserves :
      (a0 : Input) (a1 : ReportedOutcome) → Frame P d → Preserves P (log_deduped d a0 a1)
  unfolding log_deduped
  log_deduped-Preserves input reported F = search step_rules depth 30
