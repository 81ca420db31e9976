-- ===== src/Coordinate/Preserve.antt =====
-- Invariants of the coordinator's steps: a rule for each way to build a step, and the interface
-- (`Frame`) of the steps that touch the world.
pub mod Apply
pub mod OutcomeDedupe
pub mod MergeGate
pub mod ReviewGate
pub mod Release
pub mod Stages
pub mod Rework
pub mod Reviewing
pub mod Events
pub mod Webhook
pub mod Watch
pub mod Recovery
pub mod Watchdog
pub mod RoutineSignal
pub mod Reconcile
use umbraco_mcp_ops.Prelude.{
  ◌≤◌, ℕ, suc, ◌+◌, String, ◌≡◌, refl, Bool, true, false, Option, none, some, List, [], ◌∷◌, ◌++◌,
  if◌then◌else◌, Bool-cases, inl, inr,
}
use umbraco_mcp_ops.Graph.Routine.{Routine}
use umbraco_mcp_ops.Graph.Json.{Number}
use umbraco_mcp_ops.Graph.Translate.{Payload, Shipped}
use umbraco_mcp_ops.Coordinate.Types.{
  Failure, Answer, ok, thrown, Deps, Store, World, Call, Row, RowName, StatusUpdate, PendingFire,
  CiFix, ReviewLoop, ReleaseMerge, AppliedOutcome, deps_for, shadow_deps, forward,
}
use umbraco_mcp_ops.Coordinate.Steps.{
  Step, pure, throw, read, ask, attempt, keep, perform, perform_live, note, clock, when, continue,
  ◌>>=◌, ◌>>◌,
}
use umbraco_mcp_ops.Coordinate.Storage.{
  set_review_reworks, set_pending_fire, clear_pending_fire, set_ci_fix, set_rework_expired,
  set_review_reworks, set_review_loop, set_shipped, set_release_merged, set_merge_fired_for,
  set_applied_outcome, mark_seen, unmark_seen, record_status,
}

-- The step keeps `P`, whether it returns or throws.
pub record Preserves {A : Type 0} (P : World → Type 0) (m : Step A) : Type 0 where
  pub at : (w : World) → P w → P (m w).1

module _ {A : Type 0} {P : World → Type 0} where
  pub pure-Preserves : (a : A) → Preserves P (pure a)
  unfolding pure
  pure-Preserves a = record { at = λ w h. h }

  pub throw-Preserves : (e : Failure) → Preserves P (throw {A = A} e)
  unfolding throw
  throw-Preserves e = record { at = λ w h. h }

  pub read-Preserves : (f : Store → A) → Preserves P (read f)
  unfolding read
  read-Preserves f = record { at = λ w h. h }

  pub attempt-Preserves : (m : Step A) → Preserves P m → Preserves P (attempt m)
  unfolding attempt
  attempt-Preserves m k = record { at = λ w h. k.at w h }

  pub if-Preserves :
      (b : Bool) (m n : Step A) → Preserves P m → Preserves P n → Preserves P (if b then m else n)
  if-Preserves true m n k l = k
  if-Preserves false m n k l = l

module _ {P : World → Type 0} where
  pub clock-Preserves : (d : Deps) → Preserves P (clock d)
  unfolding clock
  clock-Preserves d = record { at = λ w h. h }

  pub when-Preserves : (b : Bool) (m : Step (Unit {0})) → Preserves P m → Preserves P (when b m)
  unfolding when
  when-Preserves true m k = k
  when-Preserves false m k = pure-Preserves tt

module _ {A B : Type 0} {P : World → Type 0} where
  continue-Preserves :
      (a : Answer A) (f : A → Step B)
      → ((x : A) → Preserves P (f x))
      → (w : World) → P w
      → P (continue a f w).1
  continue-Preserves (ok a) f l w h = (l a).at w h
  continue-Preserves (thrown e) f l w h = h

  pub bind-Preserves :
      (m : Step A) (f : A → Step B)
      → Preserves P m
      → ((a : A) → Preserves P (f a))
      → Preserves P (m >>= f)
  unfolding ◌>>=◌
  bind-Preserves m f k l = record { at = λ w h. continue-Preserves (m w).0 f l (m w).1 (k.at w h) }

-- What a set of steps does to the world through these deps, where it keeps `P`.
pub record Acts (P : World → Type 0) (d : Deps) : Type 0 where
  pub live : (c : Call) → Preserves P (perform_live d c)
  pub arm : (info : PendingFire) → Preserves P (set_pending_fire d info)

-- The steps of `applyEvent`, each of which keeps `P`.
pub record Core (P : World → Type 0) (d : Deps) : Type 0 where
  pub acts : (e : RowName) → Acts P (deps_for d e)
  pub asks : (w : World) → P w → P (record w { calls = w.calls + 1 })
  pub logs : (d' : Deps) (r : Row) → Preserves P (perform d' (Call.log r))
  pub forwards :
      (d' : Deps) (n : Number) (p : Payload) (id : String)
      → Preserves P (perform d' (forward n p id))
  pub says : (u : StatusUpdate) → Preserves P (record_status u)
  pub clears : Preserves P clear_pending_fire
  pub applies :
      (run : Routine) (a : Option AppliedOutcome) → Preserves P (set_applied_outcome run a)

-- The steps of a handler, each of which keeps `P`.
pub record Frame (P : World → Type 0) (d : Deps) : Type 0 where
  pub core : Core P d
  pub keeps :
      (f : Store → Store)
      → ((s : Store) → (f s).pending ≡ s.pending)
      → ((s : Store) → (f s).alarm ≡ s.alarm)
      → ((s : Store) → (f s).seen ≡ s.seen)
      → ((s : Store) → (f s).review_reworks ≡ s.review_reworks)
      → Preserves P (keep f)
  pub rounds : (n : ℕ) → n ≤ d.caps.review_reworks → Preserves P (set_review_reworks n)

-- A delivery's claim, taken and released.
pub record Claims (P : World → Type 0) : Type 0 where
  pub marks : (id : String) → Preserves P (mark_seen id)
  pub unmarks : (id : String) → Preserves P (unmark_seen id)

module _ {P : World → Type 0} where
  pub mark_seen-Preserves : (id : String) → Claims P → Preserves P (mark_seen id)
  mark_seen-Preserves id c = c.marks id

  pub unmark_seen-Preserves : (id : String) → Claims P → Preserves P (unmark_seen id)
  unmark_seen-Preserves id c = c.unmarks id

module _ {P : World → Type 0} {d : Deps} where
  pub live-Preserves : (c : Call) → Acts P d → Preserves P (perform_live d c)
  live-Preserves c a = a.live c

  pub set_pending_fire-Preserves :
      (info : PendingFire) → Acts P d → Preserves P (set_pending_fire d info)
  set_pending_fire-Preserves info a = a.arm info

  pub deps_for-Acts : (e : RowName) → Core P d → Acts P (deps_for d e)
  deps_for-Acts e f = f.acts e

  pub ask-Preserves : {A : Type 0} (g : ℕ → Answer A) → Core P d → Preserves P (ask g)
  unfolding ask
  ask-Preserves g f = record { at = f.asks }

  pub log-Preserves : (d' : Deps) (r : Row) → Core P d → Preserves P (perform d' (Call.log r))
  log-Preserves d' r f = f.logs d' r

  pub forward-Preserves :
      (d' : Deps) (n : Number) (p : Payload) (id : String)
      → Core P d
      → Preserves P (perform d' (forward n p id))
  forward-Preserves d' n p id f = f.forwards d' n p id

  pub record_status-Preserves : (u : StatusUpdate) → Core P d → Preserves P (record_status u)
  record_status-Preserves u f = f.says u

  pub clear_pending_fire-Preserves : Core P d → Preserves P clear_pending_fire
  clear_pending_fire-Preserves f = f.clears

  pub set_applied_outcome-Preserves :
      (run : Routine) (a : Option AppliedOutcome)
      → Core P d
      → Preserves P (set_applied_outcome run a)
  set_applied_outcome-Preserves run a f = f.applies run a

  pub Frame-Core : Frame P d → Core P d
  Frame-Core f = f.core

  pub keep-Preserves :
      (g : Store → Store)
      → Frame P d
      → ((s : Store) → (g s).pending ≡ s.pending)
      → ((s : Store) → (g s).alarm ≡ s.alarm)
      → ((s : Store) → (g s).seen ≡ s.seen)
      → ((s : Store) → (g s).review_reworks ≡ s.review_reworks)
      → Preserves P (keep g)
  keep-Preserves g f p q r v = f.keeps g p q r v

  pub set_review_reworks-Preserves :
      (n : ℕ) → Frame P d → n ≤ d.caps.review_reworks → Preserves P (set_review_reworks n)
  set_review_reworks-Preserves n f h = f.rounds n h

-- The alarm is set alike where the calls are live and where they are not.
pub arm_live-Preserves :
    {P : World → Type 0} {d : Deps} (e : RowName) (info : PendingFire)
    → Core P d
    → Preserves P (set_pending_fire d info)
unfolding set_pending_fire deps_for shadow_deps clock
arm_live-Preserves {P} {d} e info F = elim (Bool-cases (d.enforced e)) [
  | inl h ↦ rw h at ((F.acts e).arm info)
  | inr h ↦ rw h at ((F.acts e).arm info)
]

pub path_refl : {A : Type 0} (a : A) → a ≡ a
path_refl a = refl

pub ruleset step_rules = (
  set_review_reworks-Preserves, pure-Preserves, throw-Preserves, read-Preserves, attempt-Preserves,
  if-Preserves, clock-Preserves, when-Preserves, bind-Preserves, live-Preserves,
  set_pending_fire-Preserves, deps_for-Acts, ask-Preserves, log-Preserves, forward-Preserves,
  record_status-Preserves, clear_pending_fire-Preserves, keep-Preserves,
  set_applied_outcome-Preserves, Frame-Core, path_refl,
)
