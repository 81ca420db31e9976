-- ===== src/Coordinate/BlockedOnce.antt =====
-- The comment on a run that waits for a permission (`noteBlocked` of
-- worker/src/coordinate/routine-signal.ts).
use umbraco_mcp_ops.Prelude.{ℕ, String, ◌≡◌, refl, ◌∙◌, ap, true, none, some, ◌++◌, [], ◌∷◌}
use Prim.Native.String.{◌++◌ as join}
use umbraco_mcp_ops.Graph.Signal.{RoutineSignal, UpdateKind, parse_signal}
use umbraco_mcp_ops.Coordinate.Types.{
  Deps, World, Store, PendingFire, ok, Call, arm, status, step, routine_blocked, run_blocked,
  deps_for,
}
use umbraco_mcp_ops.Coordinate.Steps.{pure, clock, keep, note, perform_live, ◌>>=◌}
use umbraco_mcp_ops.Coordinate.Storage.{set_pending_fire, stamped, due_time}
use umbraco_mcp_ops.Coordinate.RoutineSignal.{
  blocked_noted, blocked_already_noted, coordinate_signal, signal_parsed, signal_update,
  handle_update, report_step, note_blocked, quote,
}
use umbraco_mcp_ops.Coordinate.Preserve.{
  Preserves, bind-Preserves, pure-Preserves, if-Preserves, attempt-Preserves,
}
use umbraco_mcp_ops.Coordinate.Signals.{Unmoved, perform-Unmoved, signal_pending-own}
use umbraco_mcp_ops.Coordinate.Shadow.{external_calls, internal_last}

-- The fire, with the step that it is blocked on.
abbrev blocked_fire : Deps → PendingFire → String → ℕ → PendingFire
blocked_fire d p detail now = stamped d now (record p {
  last_step = some (join "blocked: " (quote d.outside.engine detail));
  last_step_at = some now;
  is_blocked = true;
})

perform_live-Unmoved : (s : Store) (d : Deps) (c : Call) → Preserves (Unmoved s) (perform_live d c)
unfolding perform_live
perform_live-Unmoved s d c = if-Preserves d.live _ _ (perform-Unmoved s d c) (pure-Preserves tt)

-- What is left of the first report, said or not: the fire is marked.
note_blocked-pending :
    (d : Deps) (p : PendingFire) (detail : String) (w : World)
    → (note_blocked d p detail w).1.store.pending
      ≡ some (blocked_fire d p detail (d.outside.now w.calls))
unfolding note_blocked report_step set_pending_fire clock keep note ◌>>=◌ Unmoved
note_blocked-pending d p detail w =
    ap (λ (s : Store). s.pending)
      ((if-Preserves {P = Unmoved _} p.is_blocked _ _ (pure-Preserves blocked_already_noted) (
          bind-Preserves _ _
            (attempt-Preserves _ (
              perform_live-Unmoved _ (deps_for d routine_blocked)
                (Call.comment (run_blocked p.run (quote d.outside.engine detail)))))
            λ _. pure-Preserves blocked_noted)).at
        _ refl)

note_blocked-again :
    (d : Deps) (p : PendingFire) (detail : String) (w : World)
    → p.is_blocked ≡ true
    → ((note_blocked d p detail w).0 ≡ ok blocked_already_noted)
      × (external_calls (note_blocked d p detail w).1.trace ≡ external_calls w.trace)
unfolding note_blocked report_step set_pending_fire clock keep note pure ◌>>=◌
note_blocked-again d p detail w e =
    let now = d.outside.now w.calls in
    rw e (
      refl,
      internal_last (status (step (join "blocked: " (quote d.outside.engine detail)) now))
            (w.trace ++ arm (due_time d now p) ∷ []) refl
          ∙ internal_last (arm (due_time d now p)) w.trace refl,
    )

-- That a run waits for a permission is said once for its fire: once the routine whose fire is out
-- reported it, whatever the outside answered, a second report of it is answered as noted before
-- and adds nothing to the calls that change GitHub or start a routine.
pub coordinate_signal-blocked_once :
    (d : Deps) (s t : RoutineSignal) (n : ℕ) (p : PendingFire) (w : World) (detail again : String)
    → w.store.pending ≡ some p
    → p.defer_until ≡ none
    → parse_signal s
      ≡ some (record { routine = p.run; issue = n; kind = UpdateKind.blocked detail })
    → parse_signal t ≡ some (record { routine = p.run; issue = n; kind = UpdateKind.blocked again })
    → ((coordinate_signal d t (coordinate_signal d s w).1).0 ≡ ok blocked_already_noted)
      × (external_calls (coordinate_signal d t (coordinate_signal d s w).1).1.trace
          ≡ external_calls (coordinate_signal d s w).1.trace)
unfolding coordinate_signal signal_parsed signal_update handle_update
coordinate_signal-blocked_once d s t n p w detail again out live e f =
    let now = d.outside.now w.calls in
    let first = signal_pending-own d s n p w out live (UpdateKind.blocked detail) in
    let w' = (note_blocked d p detail w).1 in
    let q = blocked_fire d p detail now in
    let second =
      signal_pending-own d t n q w' (note_blocked-pending d p detail w) live
        (UpdateKind.blocked again) in
    rw (e, f, first, second) (note_blocked-again d q again w' refl)
