-- ===== src/Coordinate/Steps.antt =====
-- The handlers of worker/src/coordinate/ as actions: `async` functions over the item's storage that
-- call the outside and may throw. What was done before a throw stays done.
use umbraco_mcp_ops.Prelude.{ℕ, ◌+◌, Bool, true, false, [], ◌∷◌, ◌++◌, if◌then◌else◌}
use umbraco_mcp_ops.Coordinate.Types.{Failure, Answer, ok, thrown, Deps, Store, World, Call}

abbrev pub Step : Type 0 → Type 0
Step A = World → Answer A × World

module _ {A : Type 0} where
  unfoldable pub pure : A → Step A
  pure a w = (ok a, w)

  unfoldable pub throw : Failure → Step A
  throw f w = (thrown f, w)

  -- A read of the storage.
  unfoldable pub read : (Store → A) → Step A
  read f w = (ok (f w.store), w)

  -- The answer of the outside to the next call.
  unfoldable pub ask : (ℕ → Answer A) → Step A
  ask answers w = (answers w.calls, record w { calls = w.calls + 1 })

  -- `try`: a throw becomes a value.
  unfoldable pub attempt : Step A → Step (Answer A)
  attempt m w = let (r, w') = m w in (ok r, w')

-- A write to the storage.
unfoldable pub keep : (Store → Store) → Step (Unit {0})
keep f w = (ok tt, record w { store = f w.store })

-- A call that changes something outside, whether it then answers or throws.
unfoldable pub perform : Deps → Call → Step (Unit {0})
perform d c w =
    (d.outside.write w.calls, record w { calls = w.calls + 1; trace = w.trace ++ c ∷ [] })

-- The same, in a function that `shadowDeps` replaces by one that does nothing.
unfoldable pub perform_live : Deps → Call → Step (Unit {0})
unfolding perform pure
perform_live d c = if d.live then perform d c else pure tt

-- A call that never throws.
unfoldable pub note : Call → Step (Unit {0})
note c w = (ok tt, record w { trace = w.trace ++ c ∷ [] })

-- The time at the next call.
unfoldable pub clock : Deps → Step ℕ
clock d w = (ok (d.outside.now w.calls), w)

module _ {A B : Type 0} where
  abbrev pub continue : Answer A → (A → Step B) → Step B
  continue (ok a) f w = f a w
  continue (thrown e) f w = (thrown e, w)

  infixl 5 ◌>>=◌ ◌>>◌
  unfoldable pub ◌>>=◌ : Step A → (A → Step B) → Step B
  unfolding pure throw read ask attempt keep perform perform_live note clock
  ◌>>=◌ m f w = let (r, w') = m w in continue r f w'

  abbrev pub ◌>>◌ : Step A → Step B → Step B
  m >> n = m >>= λ _. n

-- `if (test) await m`.
unfoldable pub when : Bool → Step (Unit {0}) → Step (Unit {0})
unfolding pure
when true m = m
when false m = pure tt
