-- ===== src/Coordinate/Yields.antt =====
-- What a step of worker/src/coordinate/ comes to where it returns: a statement about its result and the
-- world that it leaves, from one about the world that it starts in.
use umbraco_mcp_ops.Prelude.{◌≡◌, refl, Bool, true, false, if◌then◌else◌}
use umbraco_mcp_ops.Coordinate.Types.{Failure, Answer, ok, thrown, Store, World}
use umbraco_mcp_ops.Coordinate.Steps.{Step, pure, throw, read, attempt, continue, ◌>>=◌}
use umbraco_mcp_ops.Coordinate.Preserve.{Preserves}

-- The statement of a result, where there is one.
abbrev pub Holds : {A : Type 0} → (A → World → Type 0) → Answer A × World → Type 0
Holds R (ok a, w) = R a w
Holds R (thrown e, w) = Unit

pub record Yields {A : Type 0} (P : World → Type 0) (R : A → World → Type 0) (m : Step A)
    : Type 0 where
  pub at : (w : World) → P w → Holds R (m w)

Holds-everywhere :
    {A : Type 0} (R : A → World → Type 0) (x : Answer A × World)
    → ((a : A) (w' : World) → x ≡ (ok a, w') → R a w')
    → Holds R x
Holds-everywhere R (ok a, w) k = k a w refl
Holds-everywhere R (thrown e, w) k = tt

module _ {A : Type 0} {P : World → Type 0} {R : A → World → Type 0} where
  pub pure-Yields : (a : A) → ((w : World) → P w → R a w) → Yields P R (pure a)
  unfolding pure
  pure-Yields a k = record { at = k }

  pub throw-Yields : (e : Failure) → Yields P R (throw e)
  unfolding throw
  throw-Yields e = record { at = λ w h. tt }

  pub if-Yields :
      (b : Bool) (m n : Step A) → Yields P R m → Yields P R n → Yields P R (if b then m else n)
  if-Yields true m n k l = k
  if-Yields false m n k l = l

  -- What every return has.
  pub returns-Yields :
      (m : Step A) → ((w : World) (a : A) (w' : World) → m w ≡ (ok a, w') → R a w') → Yields P R m
  returns-Yields m k = record { at = λ w h. Holds-everywhere R (m w) (k w) }

Holds-kept :
    {A : Type 0} (P : World → Type 0) (r : Answer A) (w : World)
    → P w
    → Holds {A = A} (λ _ w'. P w') (r, w)
Holds-kept P (ok a) w h = h
Holds-kept P (thrown e) w h = tt

module _ {A : Type 0} {P : World → Type 0} where
  pub Preserves-Yields : (m : Step A) → Preserves P m → Yields P (λ _ w. P w) m
  Preserves-Yields m k = record { at = λ w h. Holds-kept P (m w).0 (m w).1 (k.at w h) }

  pub read-Yields : (f : Store → A) → Yields P (λ a w. P w × (a ≡ f w.store)) (read f)
  unfolding read
  read-Yields f = record { at = λ w h. (h, refl) }

continue-Yields :
    {A B : Type 0} {R : A → World → Type 0} (S : B → World → Type 0) (r : Answer A) (f : A → Step B)
    (w : World)
    → Holds R (r, w)
    → ((a : A) → Yields (R a) S (f a))
    → Holds S (continue r f w)
continue-Yields S (ok a) f w h k = (k a).at w h
continue-Yields S (thrown e) f w h k = tt

module _ {A B : Type 0} {P : World → Type 0} {R : A → World → Type 0} {S : B → World → Type 0} where
  pub bind-Yields :
      (m : Step A) (f : A → Step B)
      → Yields P R m
      → ((a : A) → Yields (R a) S (f a))
      → Yields P S (m >>= f)
  unfolding ◌>>=◌
  bind-Yields m f h k = record { at = λ w p. continue-Yields S (m w).0 f (m w).1 (h.at w p) k }

-- The statement of a call under `try`: that of its result, or another of the throw.
abbrev pub Tried :
    {A : Type 0} → (World → Type 0) → (A → World → Type 0) → Answer A → World → Type 0
Tried E R (ok a) w = R a w
Tried E R (thrown e) w = E w

Holds-Tried :
    {A : Type 0} (P : World → Type 0) (R : A → World → Type 0) (r : Answer A) (w : World)
    → Holds R (r, w)
    → P w
    → Tried P R r w
Holds-Tried P R (ok a) w h k = h
Holds-Tried P R (thrown e) w h k = k

module _ {A : Type 0} {P : World → Type 0} {R : A → World → Type 0} where
  pub attempt-Yields :
      (m : Step A) → Yields P R m → Preserves P m → Yields P (Tried P R) (attempt m)
  unfolding attempt
  attempt-Yields m h k = record {
    at = λ w p. Holds-Tried P R (m w).0 (m w).1 (h.at w p) (k.at w p);
  }
