-- ===== src/Coordinate/Rounds.antt =====
-- The caps of the fix and review rounds (worker/src/coordinate/merge-gate.ts and review-gate.ts).
use umbraco_mcp_ops.Prelude.{
  ℕ, ◌≤◌, ◌+◌, ◌≡◌, refl, Option, some, leb, ltb, List, String, arith, Bool-cases, inl, inr,
}
use umbraco_mcp_ops.Graph.Label.{Name}
use umbraco_mcp_ops.Graph.Gate.{MergeGateFacts, failed_check_names}
use umbraco_mcp_ops.Coordinate.Types.{
  World, Store, Deps, Input, PendingFire, CiFix, ReviewLoop, deps_for, Call, StopReason,
}
use umbraco_mcp_ops.Coordinate.Steps.{pure, keep, perform, perform_live, note, read, ◌>>=◌}
use umbraco_mcp_ops.Coordinate.Storage.{
  set_pending_fire, clear_pending_fire, set_ci_fix, set_review_loop,
}
use umbraco_mcp_ops.Coordinate.MergeGate.{
  attempts_of, count_ci_fix, hand_to_rework_after, hand_to_rework, block_merge,
}
use umbraco_mcp_ops.Coordinate.ReviewGate.{
  rounds_of, count_review_ci_fix, hand_review_after, hand_review_to_rework, handle_review_findings,
  review_findings_round, cap_review,
}
use umbraco_mcp_ops.Coordinate.Preserve.{
  Preserves, Core, step_rules, if-Preserves, pure-Preserves, bind-Preserves, clock-Preserves,
}
use umbraco_mcp_ops.Coordinate.Preserve.Apply.{apply_event-Preserves}

-- What is said of the two counts in the storage.
Counts : (Option CiFix → Option ReviewLoop → Type 0) → World → Type 0
Counts Q w = Q w.store.ci_fix w.store.review_loop

module _ (Q : Option CiFix → Option ReviewLoop → Type 0) where
  perform-Counts : (d : Deps) (c : Call) → Preserves (Counts Q) (perform d c)
  unfolding perform Counts
  perform-Counts d c = record { at = λ w h. h }

  perform_live-Counts : (d : Deps) (c : Call) → Preserves (Counts Q) (perform_live d c)
  unfolding perform_live
  perform_live-Counts d c =
      if-Preserves d.live (perform d c) (pure tt) (perform-Counts d c) (pure-Preserves tt)

  note-Counts : (c : Call) → Preserves (Counts Q) (note c)
  unfolding note Counts
  note-Counts c = record { at = λ w h. h }

  keep-Counts :
      (f : Store → Store)
      → ((s : Store) → (f s).ci_fix ≡ s.ci_fix)
      → ((s : Store) → (f s).review_loop ≡ s.review_loop)
      → Preserves (Counts Q) (keep f)
  unfolding keep Counts
  keep-Counts f p q = record { at = λ w h. rw (p w.store, q w.store) h }

  set_pending_fire-Counts :
      (d : Deps) (info : PendingFire) → Preserves (Counts Q) (set_pending_fire d info)
  unfolding set_pending_fire
  set_pending_fire-Counts d info =
      search (bind-Preserves, clock-Preserves, keep-Counts, note-Counts) depth 20

  clear_pending_fire-Counts : Preserves (Counts Q) clear_pending_fire
  unfolding clear_pending_fire
  clear_pending_fire-Counts = search (bind-Preserves, keep-Counts, note-Counts)

  Counts-Core : (d : Deps) → Core (Counts Q) d
  unfolding Counts
  Counts-Core d = record {
    acts = λ e. record {
      live = perform_live-Counts (deps_for d e);
      arm = set_pending_fire-Counts (deps_for d e);
    };
    asks = λ w h. h;
    logs = λ d' r. perform-Counts d' (Call.log r);
    forwards = λ d' n p id. perform-Counts d' (Call.forward n p id);
    says = λ u. note-Counts (Call.status u);
    clears = clear_pending_fire-Counts;
    applies = λ run a. keep-Counts _ (λ s. refl) (λ s. refl);
  }

abbrev FixesWithin : ℕ → Option CiFix → Option ReviewLoop → Type 0
FixesWithin cap c r = attempts_of c ≤ cap

abbrev RoundsWithin : ℕ → Option CiFix → Option ReviewLoop → Type 0
RoundsWithin cap c r = rounds_of r ≤ cap

set_ci_fix-Within :
    (cap : ℕ) (c : CiFix)
    → c.attempts ≤ cap
    → Preserves (Counts (FixesWithin cap)) (set_ci_fix (some c))
unfolding keep Counts
set_ci_fix-Within cap c h = record { at = λ w k. h }

set_review_loop-Within :
    (cap : ℕ) (r : ReviewLoop)
    → r.bot_rounds ≤ cap
    → Preserves (Counts (RoundsWithin cap)) (set_review_loop (some r))
unfolding keep Counts
set_review_loop-Within cap r h = record { at = λ w k. h }

count_ci_fix-Within :
    (d : Deps) (labels : List Name) (failed : List String) (n cap : ℕ)
    → n + 1 ≤ cap
    → Preserves (Counts (FixesWithin cap)) (count_ci_fix d labels failed n)
unfolding count_ci_fix
count_ci_fix-Within d labels failed n cap h =
    let core = Counts-Core (FixesWithin cap) d in search (step_rules, set_ci_fix-Within) depth 20

count_review_ci_fix-Within :
    (d : Deps) (failed : List String) (n cap : ℕ)
    → n + 1 ≤ cap
    → Preserves (Counts (FixesWithin cap)) (count_review_ci_fix d failed n)
unfolding count_review_ci_fix
count_review_ci_fix-Within d failed n cap h =
    let core = Counts-Core (FixesWithin cap) d in search (step_rules, set_ci_fix-Within) depth 20

hand_to_rework_after-Within :
    (d : Deps) (input : Input) (labels : List Name) (failed : List String) (n : ℕ)
    → Preserves
        (Counts (FixesWithin d.caps.ci_fix_attempts))
        (hand_to_rework_after d input labels failed n)
unfolding hand_to_rework_after block_merge
hand_to_rework_after-Within d input labels failed n =
    let core = Counts-Core (FixesWithin d.caps.ci_fix_attempts) d in
    elim (Bool-cases (leb d.caps.ci_fix_attempts n)) [
      | inl e ↦ rw e (search (step_rules, apply_event-Preserves) depth 20)
      | inr e ↦
          let h : n + 1 ≤ d.caps.ci_fix_attempts = ground (arith, e) in
          rw e (search (step_rules, apply_event-Preserves, count_ci_fix-Within) depth 20)
    ]

cap_review-Counts :
    (Q : Option CiFix → Option ReviewLoop → Type 0) (d : Deps) (input : Input) (labels : List Name)
    (why : StopReason)
    → Preserves (Counts Q) (cap_review d input labels why)
unfolding cap_review
cap_review-Counts Q d input labels why =
    let core = Counts-Core Q d in search (step_rules, apply_event-Preserves, keep-Counts Q) depth 20

hand_review_after-Within :
    (d : Deps) (input : Input) (labels : List Name) (failed : List String) (n : ℕ)
    → Preserves
        (Counts (FixesWithin d.caps.ci_fix_attempts))
        (hand_review_after d input labels failed n)
unfolding hand_review_after
hand_review_after-Within d input labels failed n =
    let core = Counts-Core (FixesWithin d.caps.ci_fix_attempts) d in
    elim (Bool-cases (leb d.caps.ci_fix_attempts n)) [
      | inl e ↦ rw e (cap_review-Counts _ d input labels _)
      | inr e ↦
          let h : n + 1 ≤ d.caps.ci_fix_attempts = ground (arith, e) in
          rw e (search (step_rules, apply_event-Preserves, count_review_ci_fix-Within) depth 20)
    ]

review_findings_round-Within :
    (d : Deps) (input : Input) (labels : List Name) (n : ℕ)
    → Preserves
        (Counts (RoundsWithin d.caps.bot_review_reworks))
        (review_findings_round d input labels n)
unfolding review_findings_round
review_findings_round-Within d input labels n =
    let core = Counts-Core (RoundsWithin d.caps.bot_review_reworks) d in
    elim (Bool-cases (ltb d.caps.bot_review_reworks n)) [
      | inl e ↦ rw e (cap_review-Counts _ d input labels _)
      | inr e ↦
          let h : n ≤ d.caps.bot_review_reworks = ground (arith, e) in
          rw e (search (step_rules, apply_event-Preserves, set_review_loop-Within) depth 20)
    ]

-- Handing a PR whose CI fails under `auto-merging` to rework keeps the count of attempts within
-- the cap, whatever the outside answers.
pub hand_to_rework-Within :
    (d : Deps) (input : Input) (labels : List Name) (facts : MergeGateFacts) (w : World)
    → attempts_of w.store.ci_fix ≤ d.caps.ci_fix_attempts
    → attempts_of (hand_to_rework d input labels facts w).1.store.ci_fix ≤ d.caps.ci_fix_attempts
unfolding hand_to_rework Counts ◌>>=◌ read
hand_to_rework-Within d input labels facts w h =
    (hand_to_rework_after-Within d input labels (failed_check_names facts)
        (attempts_of w.store.ci_fix)).at
      w h

-- Handing a PR whose CI fails under review to rework keeps the count of attempts within the cap,
-- whatever the outside answers.
pub hand_review_to_rework-Within :
    (d : Deps) (input : Input) (labels : List Name) (facts : MergeGateFacts) (w : World)
    → attempts_of w.store.ci_fix ≤ d.caps.ci_fix_attempts
    → attempts_of (hand_review_to_rework d input labels facts w).1.store.ci_fix
      ≤ d.caps.ci_fix_attempts
unfolding hand_review_to_rework Counts ◌>>=◌ read
hand_review_to_rework-Within d input labels facts w h =
    (hand_review_after-Within d input labels (failed_check_names facts)
        (attempts_of w.store.ci_fix)).at
      w h

-- A review that asks for changes keeps the count of the review's own rounds within their cap,
-- whatever the outside answers.
pub handle_review_findings-Within :
    (d : Deps) (input : Input) (labels : List Name) (w : World)
    → rounds_of w.store.review_loop ≤ d.caps.bot_review_reworks
    → rounds_of (handle_review_findings d input labels w).1.store.review_loop
      ≤ d.caps.bot_review_reworks
unfolding handle_review_findings Counts ◌>>=◌ read
handle_review_findings-Within d input labels w h =
    (review_findings_round-Within d input labels (rounds_of w.store.review_loop + 1)).at w h
