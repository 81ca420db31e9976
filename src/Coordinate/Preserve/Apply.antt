-- ===== src/Coordinate/Preserve/Apply.antt =====
-- Invariants of the handlers in Coordinate/Apply (worker/src/coordinate/apply.ts).
use umbraco_mcp_ops.Prelude.{ℕ, Bool, Option, none, some, Option-cases, inl, inr, List, [], ◌∷◌}
use umbraco_mcp_ops.Graph.Label.{Name}
use umbraco_mcp_ops.Graph.Event.{Event}
use umbraco_mcp_ops.Graph.Routine.{Routine}
use umbraco_mcp_ops.Graph.Table.{State, Rule}
use umbraco_mcp_ops.Graph.Reduce.{reduce, add, remove, close_item, LabelOp}
use umbraco_mcp_ops.Coordinate.Types.{
  World, Deps, Input, PendingFire, Answer, ok, thrown, Failure, rate_limited, refused, Mode,
}
use umbraco_mcp_ops.Coordinate.Steps.{Step}
use umbraco_mcp_ops.Coordinate.Preserve.{Preserves, Acts, Core, step_rules, bind-Preserves}
use umbraco_mcp_ops.Coordinate.Apply.{
  fire_watched, fire_unwatched, settle_fire, defer_fire, deferred_for, perform_op, FireOutcome,
  perform_ops, report_refused_fire, report_and_throw, fire_rule, apply_rule, drop_event, apply_in,
  apply_event,
}
use umbraco_mcp_ops.Coordinate.DeriveState.{Derived, ambiguous, settled, derive_state, before_event}

module _ {P : World → Type 0} {d : Deps} where
  defer_fire-Preserves :
      (i : Input) (info : PendingFire) (n : ℕ) (q : Bool)
      → Acts P d
      → Preserves P (defer_fire d i info n q)
  unfolding defer_fire
  defer_fire-Preserves i info n q A = search step_rules

  pub settle_fire-Preserves :
      (i : Input) (info : PendingFire) (q : Bool) (m : Step (Unit {0})) (a : Answer (Unit {0}))
      → Acts P d
      → Preserves P m
      → Preserves P (settle_fire d i info q m a)
  unfolding settle_fire
  settle_fire-Preserves i info q m (ok u) A k = search step_rules
  settle_fire-Preserves i info q m (thrown (rate_limited s n)) A k =
      search (step_rules, defer_fire-Preserves)
  settle_fire-Preserves i info q m (thrown (refused s)) A k = search step_rules

  pub fire_watched-Preserves :
      {all : Deps} (i : Input) (info : PendingFire) (q : Bool)
      → Core P all
      → Acts P d
      → Preserves P (fire_watched d i info q)
  unfolding fire_watched deferred_for
  fire_watched-Preserves i info q F A = search (step_rules, settle_fire-Preserves) depth 20

  pub fire_unwatched-Preserves :
      {all : Deps} (i : Input) (r : Routine) (q : Bool)
      → Core P all
      → Acts P d
      → Preserves P (fire_unwatched d i r q)
  unfolding fire_unwatched deferred_for
  fire_unwatched-Preserves i r q F A = search (step_rules, settle_fire-Preserves) depth 20

  perform_op-Preserves : (o : LabelOp) → Acts P d → Preserves P (perform_op d o)
  unfolding perform_op
  perform_op-Preserves (add n) A = search step_rules
  perform_op-Preserves (remove n) A = search step_rules
  perform_op-Preserves close_item A = search step_rules

  perform_ops-Preserves : (os : List LabelOp) → Acts P d → Preserves P (perform_ops d os)
  unfolding perform_ops
  perform_ops-Preserves [] A = search step_rules
  perform_ops-Preserves (o ∷ os) A =
      bind-Preserves (perform_op d o) (λ _. perform_ops d os) (perform_op-Preserves o A)
        (λ _. perform_ops-Preserves os A)

  report_refused_fire-Preserves :
      {all : Deps} (m : Mode) (i : Input) (s : State) (e : Event) (r : Rule) (run : Routine)
      (f : Failure)
      → Core P all
      → Acts P d
      → Preserves P (report_refused_fire d m i s e r run f)
  unfolding report_refused_fire
  report_refused_fire-Preserves m i s e r run f F A = search step_rules depth 20

  report_and_throw-Preserves :
      {all : Deps} (m : Mode) (i : Input) (s : State) (e : Event) (r : Rule) (run : Routine)
      (a : Answer FireOutcome)
      → Core P all
      → Acts P d
      → Preserves P (report_and_throw d m i s e r run a)
  unfolding report_and_throw
  report_and_throw-Preserves m i s e r run (ok o) F A = search step_rules depth 20
  report_and_throw-Preserves m i s e r run (thrown f) F A =
      search (step_rules, report_refused_fire-Preserves) depth 20

  fire_rule-Preserves :
      {all : Deps} (m : Mode) (i : Input) (s : State) (e : Event) (r : Rule) (run : Option Routine)
      → Core P all
      → Acts P d
      → Preserves P (fire_rule d m i s e r run)
  unfolding fire_rule
  fire_rule-Preserves m i s e r none F A = search step_rules depth 20
  fire_rule-Preserves m i s e r (some run) F A =
      search
        (step_rules, report_and_throw-Preserves, fire_watched-Preserves, fire_unwatched-Preserves)
        depth 20

module _ {P : World → Type 0} {d : Deps} where
  apply_rule-Preserves :
      (i : Input) (e : Event) (ls : List Name) (s : State) (r : Rule)
      → Core P d
      → Preserves P (apply_rule d i e ls s r)
  unfolding apply_rule
  apply_rule-Preserves i e ls s r F =
      search (step_rules, perform_ops-Preserves, fire_rule-Preserves) depth 20

  drop_event-Preserves :
      (i : Input) (e : Event) (s : State) → Core P d → Preserves P (drop_event d i e s)
  unfolding drop_event
  drop_event-Preserves i e s F = search step_rules depth 20

  apply_in-Preserves :
      (i : Input) (e : Event) (ls : List Name) (s : Derived)
      → Core P d
      → Preserves P (apply_in d i e ls s)
  unfolding apply_in reduce
  apply_in-Preserves i e ls ambiguous F = search step_rules depth 20
  apply_in-Preserves i e ls (settled s) F = elim (Option-cases (reduce s e)) [
    | inl h ↦ rw h (search (drop_event-Preserves))
    | inr (r, h) ↦ rw h (search (apply_rule-Preserves))
  ]

  pub apply_event-Preserves :
      (i : Input) (e : Event) (ls : List Name) → Core P d → Preserves P (apply_event d i e ls)
  unfolding apply_event
  apply_event-Preserves i e ls F = apply_in-Preserves i e ls (derive_state (before_event e ls)) F
