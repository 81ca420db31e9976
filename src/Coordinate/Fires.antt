-- ===== src/Coordinate/Fires.antt =====
-- `fireWatched` of worker/src/coordinate/apply.ts, by the three answers of the routines API.
use umbraco_mcp_ops.Prelude.{
  ℕ, ◌+◌, ◌*◌, ◌%◌, String, ◌≡◌, refl, none, some, true, Bool, ◌||◌, ◌++◌, [], ◌∷◌, Bool-cases, inl,
  inr,
}
use umbraco_mcp_ops.Coordinate.Types.{
  Answer, ok, thrown, rate_limited, refused, World, Deps, Input, PendingFire, Call,
}
use umbraco_mcp_ops.Coordinate.Steps.{
  pure, read, throw, attempt, clock, keep, perform, perform_live, note, ◌>>=◌,
}
use umbraco_mcp_ops.Coordinate.Storage.{set_pending_fire, clear_pending_fire, stamped, due_time}
use umbraco_mcp_ops.Coordinate.Apply.{
  sent, deferred, fire_watched, settle_fire, defer_fire, deferred_for, deferred_of,
}

-- What the API answers to the call that the fire makes.
abbrev pub fire_answer : Deps → World → Answer (Unit {0})
fire_answer d w = d.outside.write w.calls

-- The alarm of a fire that a rate limit holds back: the API's own time, and up to half a minute more by
-- the item's number.
abbrev pub later : Input → ℕ → ℕ
later input at = at + (input.item % 30) * 1000

-- Where calls are live and the API accepts a watched fire: it is reported as sent, the run is
-- pending and the alarm is at its due time, and the alarm was set before the call went out.
pub fire_watched-sent :
    (d : Deps) (input : Input) (info : PendingFire) (again : Bool) (w : World) (u : Unit {0})
    → d.live ≡ true
    → fire_answer d w ≡ ok u
    → ((fire_watched d input info again w).0 ≡ ok sent)
      × ((fire_watched d input info again w).1.store.pending
          ≡ some (stamped d (d.outside.now w.calls) info))
      × ((fire_watched d input info again w).1.store.alarm
          ≡ some (due_time d (d.outside.now w.calls) info))
      × ((fire_watched d input info again w).1.trace
          ≡ (w.trace ++ Call.arm (due_time d (d.outside.now w.calls) info) ∷ [])
            ++ Call.fire info.run ∷ [])
unfolding fire_watched deferred_for set_pending_fire clear_pending_fire settle_fire defer_fire ◌>>=◌
    read keep clock note attempt perform_live perform pure throw
fire_watched-sent d input info again w u l h = rw (l, h) (refl, refl, refl, refl)

-- Where calls are live and the API refuses a watched fire: the refusal is thrown on, nothing is
-- pending and no alarm is set.
pub fire_watched-refused :
    (d : Deps) (input : Input) (info : PendingFire) (again : Bool) (w : World) (m : String)
    → d.live ≡ true
    → fire_answer d w ≡ thrown (refused m)
    → ((fire_watched d input info again w).0 ≡ thrown (refused m))
      × ((fire_watched d input info again w).1.store.pending ≡ none)
      × ((fire_watched d input info again w).1.store.alarm ≡ none)
unfolding fire_watched deferred_for set_pending_fire clear_pending_fire settle_fire defer_fire ◌>>=◌
    read keep clock note attempt perform_live perform pure throw
fire_watched-refused d input info again w m l h = rw (l, h) (refl, refl, refl)

-- Where calls are live and the API holds a watched fire back for a rate limit: it is reported as
-- deferred, the run is pending with the time to try again, and the alarm is at that time.
pub fire_watched-deferred :
    (d : Deps) (input : Input) (info : PendingFire) (again : Bool) (w : World) (m : String) (at : ℕ)
    → d.live ≡ true
    → fire_answer d w ≡ thrown (rate_limited m at)
    → ((fire_watched d input info again w).0 ≡ ok deferred)
      × ((fire_watched d input info again w).1.store.pending
          ≡ some (
              stamped d
                (d.outside.now (w.calls + 1))
                (record info { defer_until = some (later input at) })))
      × ((fire_watched d input info again w).1.store.alarm ≡ some (later input at))
unfolding fire_watched deferred_for set_pending_fire clear_pending_fire settle_fire defer_fire ◌>>=◌
    read keep clock note attempt perform_live perform pure throw
fire_watched-deferred d input info again w m at l h =
    elim (Bool-cases (again || deferred_of info.run w.store.pending)) [
      | inl q ↦ rw (l, h, q) (refl, refl, refl)
      | inr q ↦ rw (l, h, q) (refl, refl, refl)
    ]
