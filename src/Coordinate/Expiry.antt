-- ===== src/Coordinate/Expiry.antt =====
-- What the alarm of worker/src/coordinate/watchdog.ts comes to.
use umbraco_mcp_ops.Prelude.{◌≡◌, refl, none, Bool, ap}
use umbraco_mcp_ops.Coordinate.Types.{
  Answer, ok, thrown, World, Deps, Input, PendingFire, CoordinateResult, Actor, Notice, Call,
}
use umbraco_mcp_ops.Coordinate.Steps.{Step, pure, keep, note, continue, ◌>>=◌, ◌>>◌}
use umbraco_mcp_ops.Coordinate.Storage.{clear_pending_fire}
use umbraco_mcp_ops.Coordinate.Watchdog.{expire_pending_fire}

-- Where the step returns, the world is so.
record Ensures {A : Type 0} (Q : World → Type 0) (m : Step A) : Type 0 where
  at : (w : World) (a : A) (w' : World) → m w ≡ (ok a, w') → Q w'

module _ {A B : Type 0} {Q : World → Type 0} where
  continue-Ensures :
      (r : Answer A) (f : A → Step B)
      → ((a : A) → Ensures Q (f a))
      → (w : World) (b : B) (w' : World) → continue r f w ≡ (ok b, w')
      → Q w'
  continue-Ensures (ok a) f k w b w' h = (k a).at w b w' h
  continue-Ensures (thrown e) f k w b w' h = absurd (cc (ap (λ x. x.0) h))

  -- What the rest of a block ensures, the block does.
  bind-Ensures : (m : Step A) (f : A → Step B) → ((a : A) → Ensures Q (f a)) → Ensures Q (m >>= f)
  unfolding ◌>>=◌
  bind-Ensures m f k = record { at = λ w b w' h. continue-Ensures (m w).0 f k (m w).1 b w' h }

Unwatched : World → Type 0
Unwatched w = (w.store.pending ≡ none) × (w.store.alarm ≡ none)

ends_watch :
    (r : CoordinateResult) (u : Call) → Ensures Unwatched (do clear_pending_fire; note u; pure r)
unfolding clear_pending_fire Unwatched keep note pure ◌>>=◌
ends_watch r u = record { at = λ w a w' h. rw (← ap (λ x. x.1) h) (refl, refl) }

expire-Unwatched :
    (d : Deps) (input : Input) (p : PendingFire) (say : Bool → Notice) (by : Actor)
    → Ensures Unwatched (expire_pending_fire d input p say by)
unfolding expire_pending_fire
expire-Unwatched d input p say by = search (bind-Ensures, ends_watch) depth 20

-- An expiry that returns has ended the watch: nothing is pending and no alarm is set, whatever the
-- outside answered and whether or not a rule applied.
pub expire_pending_fire-ends :
    (d : Deps) (input : Input) (p : PendingFire) (say : Bool → Notice) (by : Actor) (w w' : World)
    (r : CoordinateResult)
    → expire_pending_fire d input p say by w ≡ (ok r, w')
    → (w'.store.pending ≡ none) × (w'.store.alarm ≡ none)
unfolding Unwatched
expire_pending_fire-ends d input p say by w w' r h = (expire-Unwatched d input p say by).at w r w' h
