-- ===== src/Scheduler/Unfunded.antt =====
-- What the sweep's question (worker/src/coordinate/reconcile.ts) answers a sweep that has no room left
-- for acts.
use umbraco_mcp_ops.Prelude.{
  ℕ, ◌≡◌, refl, Bool, true, false, ◌&&◌, Option, none, some, List, and_false, ap, ◌∙◌,
  if◌then◌else◌,
}
use umbraco_mcp_ops.Graph.Event.{watchdog_expired}
use umbraco_mcp_ops.Graph.Label.{Label, Name, same_label, ai_reviewing}
use umbraco_mcp_ops.Graph.Routine.{Routine}
use umbraco_mcp_ops.Graph.Table.{untracked, on}
use umbraco_mcp_ops.Coordinate.DeriveState.{Derived, settled, ambiguous}
use umbraco_mcp_ops.Coordinate.Types.{domain, Deps, World, Answer, ok, thrown}
use umbraco_mcp_ops.Coordinate.Steps.{Step, pure, ◌>>=◌, continue}
use umbraco_mcp_ops.Coordinate.Reconcile.{
  SweepAsk, Left, ReconcileResult, act_on, act_within, coordinate_reconcile, report_once,
  report_stretch, unless_watched, sweep_state, sweep_label, unless_recent, left_behind,
}
use umbraco_mcp_ops.Coordinate.MergeGate.{is_null}
use umbraco_mcp_ops.Scheduler.{acted}

abbrev pub answer_acted : Answer ReconcileResult → Bool
answer_acted (ok r) = acted r
answer_acted (thrown e) = false

-- A question that never answers that something was done.
record Idles (m : Step ReconcileResult) : Type 0 where
  at : (w : World) → answer_acted (m w).0 ≡ false

continue-Idles :
    {A : Type 0} (r : Answer A) (f : A → Step ReconcileResult)
    → ((a : A) → Idles (f a))
    → (w : World) → answer_acted (continue r f w).0 ≡ false
continue-Idles (ok a) f k w = (k a).at w
continue-Idles (thrown e) f k w = refl

bind-Idles :
    {A : Type 0} (m : Step A) (f : A → Step ReconcileResult)
    → ((a : A) → Idles (f a))
    → Idles (m >>= f)
unfolding ◌>>=◌
bind-Idles m f k = record { at = λ w. continue-Idles (m w).0 f k (m w).1 }

pure-Idles : (r : ReconcileResult) → acted r ≡ false → Idles (pure r)
unfolding pure
pure-Idles r h = record { at = λ w. h }

if-Idles : (b : Bool) (m n : Step ReconcileResult) → Idles m → Idles n → Idles (if b then m else n)
if-Idles true m n h k = h
if-Idles false m n h k = k

report_stretch-Idles : (d : Deps) (l : Left) (said : Bool) → Idles (report_stretch d l said)
unfolding report_stretch
report_stretch-Idles d l true = pure-Idles _ refl
report_stretch-Idles d l false = bind-Idles _ _ (λ _. bind-Idles _ _ (λ _. pure-Idles _ refl))

act_within-Idles :
    (d : Deps) (a : SweepAsk) (l : Left) → a.budget ≡ false → Idles (act_within d a l)
unfolding act_within act_on report_once
act_within-Idles d a l b =
    let gate : (same_label l.label ai_reviewing
          && (a.budget && d.enforced (domain watchdog_expired)))
        ≡ false =
      ap (λ x. same_label l.label ai_reviewing && (x && d.enforced (domain watchdog_expired))) b
      ∙ and_false (same_label l.label ai_reviewing) in
    let act : ((a.enforced && a.budget) && is_null l.held) ≡ false =
      ap (λ x. (a.enforced && x) && is_null l.held) b
      ∙ ap (λ x. x && is_null l.held) (and_false a.enforced) in
    rw (gate, act) (bind-Idles _ _ (report_stretch-Idles d l))

module _ (d : Deps) (a : SweepAsk) (b : a.budget ≡ false) (n : ℕ) (labels : List Name) where
  left_behind-Idles :
      (label : Label) (run : Routine) (now : ℕ) (last : Option ℕ)
      → Idles (left_behind d a n labels label run now last)
  unfolding left_behind
  left_behind-Idles label run now last =
      bind-Idles _ _ λ f. if-Idles f _ _ (pure-Idles _ refl) (act_within-Idles d a _ b)

  unless_recent-Idles :
      (label : Label) (run : Routine) (now : ℕ) (last : Option ℕ)
      → Idles (unless_recent d a n labels label run now last)
  unfolding unless_recent
  unless_recent-Idles label run now none = left_behind-Idles label run now none
  unless_recent-Idles label run now (some last) =
      if-Idles _ _ _ (pure-Idles _ refl) (left_behind-Idles label run now (some last))

  sweep_label-Idles :
      (label : Label) (now : ℕ) (run : Option Routine)
      → Idles (sweep_label d a n labels label now run)
  unfolding sweep_label
  sweep_label-Idles label now none = pure-Idles _ refl
  sweep_label-Idles label now (some run) =
      bind-Idles _ _ λ logged. unless_recent-Idles label run now _

  sweep_state-Idles : (now : ℕ) (s : Derived) → Idles (sweep_state d a n labels now s)
  unfolding sweep_state
  sweep_state-Idles now (settled (on label)) =
      bind-Idles _ _ λ merged. sweep_label-Idles label now _
  sweep_state-Idles now (settled untracked) = pure-Idles _ refl
  sweep_state-Idles now ambiguous = pure-Idles _ refl

unless_watched-Idles :
    (d : Deps) (a : SweepAsk) (n now : ℕ) (busy : Bool)
    → a.budget ≡ false
    → Idles (unless_watched d a n now busy)
unfolding unless_watched
unless_watched-Idles d a n now true b = pure-Idles _ refl
unless_watched-Idles d a n now false b =
    bind-Idles _ _ λ labels. sweep_state-Idles d a b n labels now _

reconcile-Idles :
    (d : Deps) (a : SweepAsk) (n : ℕ) → a.budget ≡ false → Idles (coordinate_reconcile d a n)
unfolding coordinate_reconcile
reconcile-Idles d a n b =
    bind-Idles _ _ λ now. bind-Idles _ _ λ busy. unless_watched-Idles d a n now busy b

-- Asked without room, an item never answers that something was done.
pub coordinate_reconcile-unfunded :
    (d : Deps) (a : SweepAsk) (n : ℕ) (w : World)
    → a.budget ≡ false
    → answer_acted (coordinate_reconcile d a n w).0 ≡ false
coordinate_reconcile-unfunded d a n w b = (reconcile-Idles d a n b).at w
