-- ===== src/Coordinate/Preserve/Watch.antt =====
-- The frames of the statements about a pending fire and its alarm, which worker/src/issue-coordinator.ts
-- sets and clears together.
use umbraco_mcp_ops.Prelude.{ℕ, ◌≡◌, refl, Option, none, some}
use umbraco_mcp_ops.Coordinate.Types.{World, Store, Deps, PendingFire, deps_for, Call}
use umbraco_mcp_ops.Coordinate.Steps.{pure, clock, keep, perform, perform_live, note, ◌>>=◌}
use umbraco_mcp_ops.Coordinate.Storage.{set_pending_fire, clear_pending_fire, stamped, due_time}
use umbraco_mcp_ops.Coordinate.Preserve.{
  Preserves, Frame, Acts, Claims, if-Preserves, pure-Preserves,
}

-- A statement about the pending fire and the alarm of a world's storage.
unfoldable pub Watch : (Option PendingFire → Option ℕ → Type 0) → World → Type 0
Watch Q w = Q w.store.pending w.store.alarm

-- It holds of a fire that was just set, with its alarm, and where both are cleared.
module _ (Q : Option PendingFire → Option ℕ → Type 0)
    (arms : (d : Deps) (now : ℕ) (info : PendingFire)
      → Q (some (stamped d now info)) (some (due_time d now info)))
    (clears : Q none none) where
  perform-Watch : (d : Deps) (c : Call) → Preserves (Watch Q) (perform d c)
  unfolding perform Watch
  perform-Watch d c = record { at = λ w h. h }

  perform_live-Watch : (d : Deps) (c : Call) → Preserves (Watch Q) (perform_live d c)
  unfolding perform_live
  perform_live-Watch d c =
      if-Preserves d.live (perform d c) (pure tt) (perform-Watch d c) (pure-Preserves tt)

  keep-Watch :
      (f : Store → Store)
      → ((s : Store) → (f s).pending ≡ s.pending)
      → ((s : Store) → (f s).alarm ≡ s.alarm)
      → Preserves (Watch Q) (keep f)
  unfolding keep Watch
  keep-Watch f p q = record { at = λ w h. rw (p w.store, q w.store) h }

  pub set_pending_fire-Watch :
      (d : Deps) (info : PendingFire) → Preserves (Watch Q) (set_pending_fire d info)
  unfolding set_pending_fire keep note clock ◌>>=◌ Watch
  set_pending_fire-Watch d info = record { at = λ w h. arms d (d.outside.now w.calls) info }

  clear_pending_fire-Watch : Preserves (Watch Q) clear_pending_fire
  unfolding clear_pending_fire keep note ◌>>=◌ Watch
  clear_pending_fire-Watch = record { at = λ w h. clears }

  note-Watch : (c : Call) → Preserves (Watch Q) (note c)
  unfolding note Watch
  note-Watch c = record { at = λ w h. h }

  pub Watch-Acts : (d : Deps) → Acts (Watch Q) d
  Watch-Acts d = record { live = perform_live-Watch d; arm = set_pending_fire-Watch d }

  pub Watch-Frame : (d : Deps) → Frame (Watch Q) d
  unfolding Watch
  Watch-Frame d = record {
    core = record {
      acts = λ e. Watch-Acts (deps_for d e);
      asks = λ w h. h;
      logs = λ d' r. perform-Watch d' (Call.log r);
      forwards = λ d' n p id. perform-Watch d' (Call.forward n p id);
      says = λ u. note-Watch (Call.status u);
      clears = clear_pending_fire-Watch;
      applies = λ run a. keep-Watch _ (λ s. refl) (λ s. refl);
    };
    keeps = λ f p q r v. keep-Watch f p q;
    rounds = λ n h. keep-Watch _ (λ s. refl) (λ s. refl);
  }

pub Watch-Claims : (Q : Option PendingFire → Option ℕ → Type 0) → Claims (Watch Q)
unfolding keep Watch
Watch-Claims Q = record {
  marks = λ id. record { at = λ w h. h };
  unmarks = λ id. record { at = λ w h. h };
}
