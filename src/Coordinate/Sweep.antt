-- ===== src/Coordinate/Sweep.antt =====
-- What the sweep's question of worker/src/coordinate/reconcile.ts does and leaves alone.
use umbraco_mcp_ops.Prelude.{
  ℕ, ◌+◌, ◌*◌, ◌<◌, Bool, true, false, ◌&&◌, ◌≡◌, refl, ◌∙◌, ap, ◌⊎◌, inl, inr, Option, none, some,
  is_some, Bool-cases, and_false, ==_refl, arith, or_true, List,
}
use umbraco_mcp_ops.Graph.Event.{Event, watchdog_expired}
use umbraco_mcp_ops.Graph.Label.{Label, Name, same_label, ai_reviewing}
use umbraco_mcp_ops.Graph.Routine.{Routine}
use umbraco_mcp_ops.Graph.Table.{on}
use umbraco_mcp_ops.Coordinate.DeriveState.{settled, derive_state}
use umbraco_mcp_ops.Coordinate.Types.{
  domain, Deps, World, PendingFire, Call, Answer, ok, thrown, Held, shadow_deps,
}
use umbraco_mcp_ops.Coordinate.Steps.{pure, read, ask, keep, clock, perform, ◌>>=◌, continue}
use umbraco_mcp_ops.Coordinate.Reconcile.{
  SweepAsk, Left, watched, would_refire, recent, trigger_event, held_of, held_back, is_watched_now,
  expiring, act_on, act_within, coordinate_reconcile, report_once, report_stretch, same_stretch,
  unless_watched, sweep_state, sweep_label, unless_recent, run_for, idle_since, idle_below, latest,
}
use umbraco_mcp_ops.Coordinate.MergeGate.{is_null}
use umbraco_mcp_ops.Coordinate.Preserve.{Preserves, Frame}
use umbraco_mcp_ops.Coordinate.Preserve.Reconcile.{
  reconcile_within-Preserves, report_once-Preserves,
}
use umbraco_mcp_ops.Coordinate.Shadow.{external_calls, Quiet, Quiet-Frame}

-- An item whose fire is pending, with an alarm set or until a quarter of an hour after it is due,
-- is watched: the sweep answers so, and leaves the storage, the calls and the trace as they are.
coordinate_reconcile-watched :
    (d : Deps) (a : SweepAsk) (n : ℕ) (p : PendingFire) (w : World)
    → w.store.pending ≡ some p
    → (is_some w.store.alarm ≡ true) ⊎ (expiring (d.outside.now w.calls) p.due_at ≡ true)
    → coordinate_reconcile d a n w ≡ (ok watched, w)
unfolding coordinate_reconcile unless_watched clock read pure ◌>>=◌
coordinate_reconcile-watched d a n p w h (inl k) = rw (h, k, or_true) refl
coordinate_reconcile-watched d a n p w h (inr k) = rw (h, k) refl

same_stretch_refl : (last : Option ℕ) → same_stretch last (some last) ≡ true
same_stretch_refl none = refl
same_stretch_refl (some t) = ==_refl t

continue_pure :
    {A B : Type 0} (r : Answer A) (b : B) (w : World) → (continue r (λ _. pure b) w).1 ≡ w
unfolding pure
continue_pure (ok a) b w = refl
continue_pure (thrown e) b w = refl

report_stretch-again :
    (d : Deps) (l : Left) (w : World) (said : Bool)
    → same_stretch l.last w.store.reconcile_reported ≡ said
    → same_stretch l.last (report_stretch d l said w).1.store.reconcile_reported ≡ true
unfolding report_stretch keep perform pure ◌>>=◌ continue_pure
report_stretch-again d l w true h = h
report_stretch-again d l w false h =
    rw (continue_pure (d.outside.write w.calls) (would_refire l.run l.idle false l.held) _)
      (same_stretch_refl l.last)

-- A stretch without activity is reported once: whatever became of the first report, the same
-- question asked again writes nothing and changes nothing, and says that it was reported before.
pub report_once-again :
    (d : Deps) (l : Left) (w : World)
    → report_once d l (report_once d l w).1
      ≡ (ok (would_refire l.run l.idle true l.held), (report_once d l w).1)
unfolding report_once report_stretch read pure ◌>>=◌
report_once-again d l w = rw (report_stretch-again d l w _ refl) refl

-- Where the repo's watchdog is in shadow, something holds a sweep that may act.
held_back-some :
    (d : Deps) (e : Option Event)
    → d.enforced (domain watchdog_expired) ≡ false
    → is_some e ≡ true
    → is_some (held_back d e) ≡ true
held_back-some d none h k = cc
held_back-some d (some e) h k = elim (Bool-cases (d.enforced (domain e))) [
  | inl x ↦ rw (x, h) refl
  | inr x ↦ rw x refl
]

shadow-Frame : (d : Deps) (before : List Call) → Frame (Quiet before) (shadow_deps d)
unfolding shadow_deps
shadow-Frame d before = Quiet-Frame (shadow_deps d) before (λ e. refl)

no_gate : (s b w : Bool) → (b ≡ false) ⊎ (w ≡ false) → (s && (b && w)) ≡ false
no_gate s b w (inl h) = rw (h, and_false s) refl
no_gate s b w (inr h) = rw (h, and_false b, and_false s) refl

is_null-some : (o : Option Held) → is_some o ≡ true → is_null o ≡ false
is_null-some none h = cc
is_null-some (some a) h = refl

-- A sweep without room, or over a repo whose watchdog is in shadow, fires nothing.
no_act :
    (d : Deps) (a : SweepAsk) (l : Left)
    → l.held ≡ held_of d a l.label
    → is_some (trigger_event l.label) ≡ true
    → (a.budget ≡ false) ⊎ (d.enforced (domain watchdog_expired) ≡ false)
    → ((a.enforced && a.budget) && is_null l.held) ≡ false
no_act d a l h k (inl b) = let t = ap (λ x. a.enforced && x) b ∙ and_false a.enforced in rw t refl
no_act d a l h k (inr x) = elim (Bool-cases (a.enforced && a.budget)) [
  | inr e ↦ rw e refl
  | inl e ↦
      let held : l.held ≡ held_back d (trigger_event l.label) = h ∙ rw e refl in
      rw e (is_null-some l.held (rw held (held_back-some d (trigger_event l.label) x k)))
]

act_within-Quiet :
    (d : Deps) (a : SweepAsk) (before : List Call)
    → (a.budget ≡ false) ⊎ (d.enforced (domain watchdog_expired) ≡ false)
    → (l : Left) → l.held ≡ held_of d a l.label
    → is_some (trigger_event l.label) ≡ true
    → Preserves (Quiet before) (act_within d a l)
unfolding act_within act_on
act_within-Quiet d a before c l h k =
    rw
      (
        no_gate (same_label l.label ai_reviewing) a.budget (d.enforced (domain watchdog_expired)) c,
        no_act d a l h k c,
      )
      (report_once-Preserves d l (shadow-Frame d before))

-- A sweep whose room for acts is spent, or over a repo whose watchdog is in shadow, adds nothing
-- to the calls that change GitHub or start a routine, whatever the outside answers.
pub coordinate_reconcile-external_calls :
    (d : Deps) (a : SweepAsk) (n : ℕ) (w : World)
    → (a.budget ≡ false) ⊎ (d.enforced (domain watchdog_expired) ≡ false)
    → external_calls (coordinate_reconcile d a n w).1.trace ≡ external_calls w.trace
unfolding Quiet
coordinate_reconcile-external_calls d a n w h =
    let before = external_calls w.trace in
    (reconcile_within-Preserves {P = Quiet before} d a (act_within-Quiet d a before h) n
        (shadow-Frame d before)).at
      w refl

-- Less than twice the timeout since the last activity, up to the rounding, reads as recent.
idle_below-since :
    (now last m : ℕ) → now + 3000 < last + m * 120000 → idle_below m (idle_since now last) ≡ true
idle_below-since now last m h = ground arith

-- Where nothing watches the item, its labels say that a routine should run, and its last activity,
-- the later of its last log row and its last update on GitHub, is less than twice that routine's
-- timeout ago (by more than three seconds, half of what the idle time is rounded to), the sweep
-- answers that it is recent, having asked only for the labels and the log, and changes nothing.
pub coordinate_reconcile-recent :
    (d : Deps) (a : SweepAsk) (n : ℕ) (w : World) (labels : List Name) (label : Label)
    (run : Routine) (logged : Option ℕ) (last : ℕ)
    → is_watched_now (d.outside.now w.calls) w.store ≡ false
    → d.outside.labels w.calls ≡ ok labels
    → derive_state labels ≡ settled (on label)
    → run_for (settled (on label)) (is_some w.store.release_merged) ≡ some run
    → d.outside.last_activity (w.calls + 1) ≡ ok logged
    → latest logged a.updated_at ≡ some last
    → d.outside.now w.calls + 3000 < last + d.watchdog_minutes run * 120000
    → coordinate_reconcile d a n w ≡ (
      ok (recent (idle_since (d.outside.now w.calls) last)),
      record w { calls = w.calls + 1 + 1 },
    )
unfolding coordinate_reconcile unless_watched sweep_state sweep_label unless_recent clock read ask
    pure ◌>>=◌
coordinate_reconcile-recent d a n w labels label run logged last free l s r g t h =
    let b = idle_below-since (d.outside.now w.calls) last (d.watchdog_minutes run) h in
    rw (free, l, s, r, g, t, b) refl
