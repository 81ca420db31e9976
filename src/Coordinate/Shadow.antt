-- ===== src/Coordinate/Shadow.antt =====
-- The shadow mode of worker/src/coordinate/types.ts (`depsFor`, `shadowDeps`), over whole handlers.
use umbraco_mcp_ops.Graph.Event.{watchdog_expired}
use umbraco_mcp_ops.Coordinate.Watchdog.{
  due_alarm, recovered_or, silent_alarm, coordinate_watchdog, alarm_of, too_early, due_margin,
}
use umbraco_mcp_ops.Coordinate.Preserve.Watchdog.{expire_watched-Preserves}
use umbraco_mcp_ops.Prelude.{
  ℕ, ap, Option, some, and_false, not, is_some, none, ◌≡◌, refl, true, false, Bool, ◌∙◌, List, [],
  ◌∷◌, ◌++◌, filter, filter-append,
}
use umbraco_mcp_ops.Graph.Translate.{Payload}
use mathlib.Core.List.{append-nil}
use umbraco_mcp_ops.Coordinate.Types.{
  CoordinateResult, World, Store, Deps, Input, PendingFire, deps_for, shadow_deps, Call, RowName,
}
use umbraco_mcp_ops.Coordinate.Steps.{clock, read, ◌>>=◌, keep, perform, perform_live, note}
use umbraco_mcp_ops.Coordinate.Storage.{set_pending_fire, clear_pending_fire}
use umbraco_mcp_ops.Coordinate.Webhook.{coordinate_webhook}
use umbraco_mcp_ops.Coordinate.Preserve.{
  if-Preserves, Preserves, Frame, Claims, pure-Preserves, bind-Preserves, clock-Preserves,
}
use umbraco_mcp_ops.Coordinate.Preserve.Webhook.{coordinate_webhook-Preserves}

-- A call that changes GitHub or starts a routine.
abbrev pub is_external : Call → Bool
is_external (Call.add_label n) = true
is_external (Call.remove_label n) = true
is_external Call.close_issue = true
is_external (Call.comment n) = true
is_external (Call.fire r) = true
is_external (Call.merge_pull n sha m) = true
is_external _ = false

-- What a trace did outside.
abbrev pub external_calls : List Call → List Call
external_calls = filter is_external

unfoldable pub Quiet : List Call → World → Type 0
Quiet before w = external_calls w.trace ≡ before

pub internal_last :
    (c : Call) (trace : List Call)
    → is_external c ≡ false
    → external_calls (trace ++ c ∷ []) ≡ external_calls trace
internal_last c trace h =
    filter-append is_external trace (c ∷ []) ∙ rw h (append-nil (external_calls trace))

module _ (before : List Call) where
  perform-Quiet :
      (d : Deps) (c : Call) → is_external c ≡ false → Preserves (Quiet before) (perform d c)
  unfolding perform Quiet
  perform-Quiet d c e = record { at = λ w h. internal_last c w.trace e ∙ h }

  note-Quiet : (c : Call) → is_external c ≡ false → Preserves (Quiet before) (note c)
  unfolding note Quiet
  note-Quiet c e = record { at = λ w h. internal_last c w.trace e ∙ h }

  keep-Quiet : (f : Store → Store) → Preserves (Quiet before) (keep f)
  unfolding keep Quiet
  keep-Quiet f = record { at = λ w h. h }

  set_pending_fire-Quiet :
      (d : Deps) (info : PendingFire) → Preserves (Quiet before) (set_pending_fire d info)
  unfolding set_pending_fire
  set_pending_fire-Quiet d info = search (bind-Preserves, clock-Preserves, keep-Quiet, note-Quiet)

  clear_pending_fire-Quiet : Preserves (Quiet before) clear_pending_fire
  unfolding clear_pending_fire
  clear_pending_fire-Quiet = search (bind-Preserves, keep-Quiet, note-Quiet)

-- The writes of shadow deps do nothing.
shadow_live-Quiet :
    (d : Deps) (e : RowName) (c : Call) (before : List Call)
    → d.enforced e ≡ false
    → Preserves (Quiet before) (perform_live (deps_for d e) c)
unfolding deps_for shadow_deps perform_live
shadow_live-Quiet d e c before h = rw h (pure-Preserves tt)

pub Quiet-Frame :
    (d : Deps) (before : List Call)
    → ((e : RowName) → d.enforced e ≡ false)
    → Frame (Quiet before) d
unfolding Quiet
Quiet-Frame d before h = record {
  core = record {
    acts = λ e. record {
      live = λ c. shadow_live-Quiet d e c before (h e);
      arm = set_pending_fire-Quiet before (deps_for d e);
    };
    asks = λ w k. k;
    logs = λ d' r. perform-Quiet before d' (Call.log r) refl;
    forwards = λ d' n p id. perform-Quiet before d' (Call.forward n p id) refl;
    says = λ u. note-Quiet before (Call.status u) refl;
    clears = clear_pending_fire-Quiet before;
    applies = λ run a. keep-Quiet before _;
  };
  keeps = λ f p q r v. keep-Quiet before f;
  rounds = λ n h. keep-Quiet before _;
}

Quiet-Claims : (before : List Call) → Claims (Quiet before)
Quiet-Claims before = record {
  marks = λ id. keep-Quiet before _;
  unmarks = λ id. keep-Quiet before _;
}

-- Where no event is enforced, a webhook adds nothing to the calls that change GitHub or start a
-- routine, whatever the outside answers: no label, close, comment, merge or fire.
pub coordinate_webhook-external_calls :
    (d : Deps) (input : Input) (p : Payload) (w : World)
    → ((e : RowName) → d.enforced e ≡ false)
    → external_calls (coordinate_webhook d input p w).1.trace ≡ external_calls w.trace
unfolding Quiet
coordinate_webhook-external_calls d input p w h =
    (coordinate_webhook-Preserves {P = Quiet (external_calls w.trace)} input p
        (Quiet-Frame d (external_calls w.trace) h) (Quiet-Claims (external_calls w.trace))).at
      w refl

silent_alarm-Quiet :
    (d : Deps) (input : Input) (p : PendingFire) (before : List Call)
    → ((e : RowName) → d.enforced e ≡ false)
    → Preserves (Quiet before) (silent_alarm d input p)
unfolding silent_alarm
silent_alarm-Quiet d input p before h =
    let F = Quiet-Frame d before h in
    rw
      (
        h (RowName.domain watchdog_expired),
        and_false (not (is_some p.last_step)),
        and_false (not p.retried),
        and_false d.watchdog_retry,
      )
      (expire_watched-Preserves input p F)

recovered_or-Quiet :
    (d : Deps) (input : Input) (p : PendingFire) (found : Option CoordinateResult)
    (before : List Call)
    → ((e : RowName) → d.enforced e ≡ false)
    → Preserves (Quiet before) (recovered_or d input p found)
unfolding recovered_or
recovered_or-Quiet d input p (some r) before h =
    search (bind-Preserves, keep-Quiet before, pure-Preserves)
recovered_or-Quiet d input p none before h = silent_alarm-Quiet d input p before h

due_alarm-Quiet :
    (d : Deps) (input : Input) (p : PendingFire) (before : List Call)
    → ((e : RowName) → d.enforced e ≡ false)
    → is_some p.defer_until ≡ false
    → Preserves (Quiet before) (due_alarm d input p)
unfolding due_alarm
due_alarm-Quiet d input p before h k =
    rw (k, h (RowName.domain watchdog_expired))
      (bind-Preserves _ _ (pure-Preserves none)
        (λ found. recovered_or-Quiet d input p found before h))

alarm_of-Quiet :
    (d : Deps) (input : Input) (now : ℕ) (p : PendingFire) (q : Option PendingFire)
    (before : List Call)
    → ((e : RowName) → d.enforced e ≡ false)
    → q ≡ some p
    → p.defer_until ≡ none
    → Preserves (Quiet before) (alarm_of d input now q)
unfolding alarm_of
alarm_of-Quiet d input now p q before h k l = rw k (
    if-Preserves (too_early (due_margin d p.run) now p.due_at) _ _ (pure-Preserves _)
      (due_alarm-Quiet d input p before h (ap is_some l)))

-- Where no event is enforced and a fire is pending that was not deferred, its alarm adds nothing
-- to the calls that change GitHub or start a routine, whatever the outside answers.
pub coordinate_watchdog-external_calls :
    (d : Deps) (input : Input) (p : PendingFire) (w : World)
    → ((e : RowName) → d.enforced e ≡ false)
    → w.store.pending ≡ some p
    → p.defer_until ≡ none
    → external_calls (coordinate_watchdog d input w).1.trace ≡ external_calls w.trace
unfolding coordinate_watchdog clock read ◌>>=◌ Quiet
coordinate_watchdog-external_calls d input p w h k l =
    (alarm_of-Quiet d input (d.outside.now w.calls) p w.store.pending (external_calls w.trace) h k
        l).at
      w refl
