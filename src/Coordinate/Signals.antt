-- ===== src/Coordinate/Signals.antt =====
-- What a routine's direct signal does to the item's watch (worker/src/coordinate/routine-signal.ts).
use umbraco_mcp_ops.Prelude.{
  ℕ, ◌+◌, ◌*◌, String, ◌≡◌, refl, ◌∙◌, Bool, true, false, Option, none, some, ap, get_or, ==_refl,
}
use umbraco_mcp_ops.Graph.Routine.{Routine, same_routine, routine_index}
use umbraco_mcp_ops.Graph.Outcome.{Outcome}
use umbraco_mcp_ops.Graph.Signal.{RoutineSignal, RoutineUpdate, UpdateKind, parse_signal}
use umbraco_mcp_ops.Coordinate.Types.{Input, Deps, World, Store, PendingFire, Answer, ok, Call}
use umbraco_mcp_ops.Coordinate.Steps.{pure, read, ask, clock, keep, note, perform, ◌>>=◌}
use umbraco_mcp_ops.Coordinate.Storage.{set_pending_fire, clear_pending_fire, stamped}
use umbraco_mcp_ops.Coordinate.OutcomeDedupe.{ReportedOutcome, log_deduped}
use umbraco_mcp_ops.Coordinate.RoutineSignal.{
  signal_input, heartbeat_extended, completion_acknowledged, log_refused, live_fire, live_unless,
  signal_for, signal_for_run, signal_pending, signal_fresh, signal_update, signal_parsed,
  coordinate_signal, handle_update, report_step,
}
use umbraco_mcp_ops.Coordinate.Preserve.{Preserves, bind-Preserves, pure-Preserves}

-- The storage is as it was.
unfoldable pub Unmoved : Store → World → Type 0
Unmoved s w = w.store ≡ s

module _ (s : Store) where
  pub perform-Unmoved : (d : Deps) (c : Call) → Preserves (Unmoved s) (perform d c)
  unfolding perform Unmoved
  perform-Unmoved d c = record { at = λ w h. h }

  ask-Unmoved : {A : Type 0} (g : ℕ → Answer A) → Preserves (Unmoved s) (ask g)
  unfolding ask Unmoved
  ask-Unmoved g = record { at = λ w h. h }

  log_refused-Unmoved :
      (d : Deps) (u : RoutineUpdate) (running : Option Routine) (k : UpdateKind)
      → Preserves (Unmoved s) (log_refused d u running k)
  unfolding log_refused
  log_refused-Unmoved d u running (UpdateKind.outcome o) = perform-Unmoved d _
  log_refused-Unmoved d u running (UpdateKind.process t) = pure-Preserves tt
  log_refused-Unmoved d u running (UpdateKind.completion o) = pure-Preserves tt
  log_refused-Unmoved d u running (UpdateKind.blocked t) = pure-Preserves tt
  log_refused-Unmoved d u running (UpdateKind.ended t) = pure-Preserves tt

-- No fire of this routine is out: none is pending, it waits out a rate limit, or it is another's.
abbrev pub IsStray : Routine → Option PendingFire → Type 0
IsStray r none = Unit
IsStray r (some p) = same_routine p.run r ≡ false

module _ (d : Deps) (u : RoutineUpdate) (s : Store) where
  signal_for-Unmoved :
      (q : Option PendingFire) → IsStray u.routine q → Preserves (Unmoved s) (signal_for d u q)
  unfolding signal_for signal_for_run
  signal_for-Unmoved none h =
      bind-Preserves _ _ (log_refused-Unmoved s d u none u.kind) λ _. pure-Preserves _
  signal_for-Unmoved (some p) h =
      rw h
        (bind-Preserves _ _ (log_refused-Unmoved s d u (some p.run) u.kind) λ _. pure-Preserves _)

  log_deduped-Unmoved :
      (input : Input) (r : ReportedOutcome) → Preserves (Unmoved s) (log_deduped d input r)
  unfolding log_deduped
  log_deduped-Unmoved input r =
      bind-Preserves _ _ (ask-Unmoved s _)
        λ labels. bind-Preserves _ _ (perform-Unmoved s d _) λ _. pure-Preserves _

-- The signal of a routine that has no fire out.
module _ (d : Deps) (u : RoutineUpdate) (w : World)
    (h : IsStray u.routine (live_fire w.store.pending)) where
  pending-kept : (signal_pending d u w).1.store ≡ w.store
  unfolding signal_pending read ◌>>=◌ Unmoved
  pending-kept = (signal_for-Unmoved d u w.store (live_fire w.store.pending) h).at w refl

  fresh-kept : (r : ReportedOutcome) (again : Bool) → (signal_fresh d u r again w).1.store ≡ w.store
  unfolding signal_fresh Unmoved
  fresh-kept r true =
      (bind-Preserves _ _ (log_deduped-Unmoved d u w.store (signal_input u.issue) r)
          (λ _. pure-Preserves _)).at
        w refl
  fresh-kept r false = pending-kept

  update-kept : (k : UpdateKind) → (signal_update d u k w).1.store ≡ w.store
  unfolding signal_update read ◌>>=◌
  update-kept (UpdateKind.outcome o) = fresh-kept _ _
  update-kept (UpdateKind.process t) = pending-kept
  update-kept (UpdateKind.completion o) = pending-kept
  update-kept (UpdateKind.blocked t) = pending-kept
  update-kept (UpdateKind.ended t) = pending-kept

-- A signal of any kind, from a routine that has no fire out (none is pending, it waits out a rate
-- limit, or the pending one is another routine's), leaves the storage as it is: the watch goes on.
pub coordinate_signal-stray :
    (d : Deps) (s : RoutineSignal) (u : RoutineUpdate) (w : World)
    → parse_signal s ≡ some u
    → IsStray u.routine (live_fire w.store.pending)
    → (coordinate_signal d s w).1.store ≡ w.store
unfolding coordinate_signal signal_parsed
coordinate_signal-stray d s u w e h = rw e (update-kept d u w h u.kind)

live_of : (p : PendingFire) (at : Option ℕ) → at ≡ none → live_unless p at ≡ some p
live_of p none e = refl
live_of p (some t) e = cc

due_of : (at : Option ℕ) (now : ℕ) → at ≡ none → get_or at now ≡ now
due_of none now e = refl
due_of (some t) now e = cc

-- What a routine reports of its own fire, once its kind is known.
module _ (d : Deps) (s : RoutineSignal) (n : ℕ) (p : PendingFire) (w : World)
    (out : w.store.pending ≡ some p) (live : p.defer_until ≡ none) where
  pub signal_pending-own :
      (k : UpdateKind)
      → signal_pending d (record { routine = p.run; issue = n; kind = k }) w
        ≡ handle_update d n p k w
  unfolding signal_pending signal_for signal_for_run read ◌>>=◌
  signal_pending-own k =
      rw (ap live_fire out ∙ live_of p p.defer_until live, ==_refl (routine_index p.run)) refl

  -- A step reported by the routine whose fire is out, and does not wait out a rate limit, extends
  -- its watch: the same fire stays pending with the step, and its alarm is a whole timeout from
  -- then.
  pub coordinate_signal-heartbeat :
      (said : String)
      → parse_signal s
        ≡ some (record { routine = p.run; issue = n; kind = UpdateKind.process said })
      → ((coordinate_signal d s w).0 ≡ ok heartbeat_extended)
        × ((coordinate_signal d s w).1.store.pending
            ≡ some (
                stamped d (d.outside.now w.calls) (record p {
                  last_step = some said;
                  last_step_at = some (d.outside.now w.calls);
                })))
        × ((coordinate_signal d s w).1.store.alarm
            ≡ some (d.outside.now w.calls + d.watchdog_minutes p.run * 60000))
  unfolding coordinate_signal signal_parsed signal_update handle_update report_step set_pending_fire
      clock keep note pure ◌>>=◌
  coordinate_signal-heartbeat said e =
      rw (e, signal_pending-own (UpdateKind.process said))
        (refl, refl, ap some (due_of p.defer_until _ live))

  -- A completion reported by the routine whose fire is out, and does not wait out a rate limit,
  -- ends its watch: nothing is pending, no alarm is set, and the time is kept as the run's
  -- completion.
  coordinate_signal-completion :
      (o : Outcome)
      → parse_signal s
        ≡ some (record { routine = p.run; issue = n; kind = UpdateKind.completion o })
      → ((coordinate_signal d s w).0 ≡ ok completion_acknowledged)
        × ((coordinate_signal d s w).1.store.pending ≡ none)
        × ((coordinate_signal d s w).1.store.alarm ≡ none)
        × ((coordinate_signal d s w).1.store.completed ≡ some (d.outside.now w.calls))
  unfolding coordinate_signal signal_parsed signal_update handle_update clear_pending_fire clock
      keep note pure ◌>>=◌
  coordinate_signal-completion o e =
      rw (e, signal_pending-own (UpdateKind.completion o)) (refl, refl, refl, refl)
