-- ===== src/Scheduler/Budget.antt =====
-- The cap on a sweep's acts (SWEEP_MAX_REFIRES of worker/src/scheduler.ts).
use umbraco_mcp_ops.Prelude.{
  ℕ, ◌+◌, ◌≤◌, ◌<◌, String, ◌≡◌, refl, ◌∙◌, true, false, List, [], ◌∷◌, ◌++◌, length, Bool-cases,
  inl, inr, ltb, arith,
}
use umbraco_mcp_ops.Coordinate.Types.{Answer, ok, thrown, Deps, World}
use umbraco_mcp_ops.Coordinate.Shadow.{external_calls}
use umbraco_mcp_ops.Coordinate.Sweep.{coordinate_reconcile-external_calls}
use umbraco_mcp_ops.Coordinate.Reconcile.{coordinate_reconcile, SweepAsk, ReconcileResult}
use umbraco_mcp_ops.Scheduler.{
  SchedulerEnv, Surroundings, Candidate, Reach, unreachable, garbled, item, SweepSummary, acted,
  count_answer, count_answered, count_reply, sweep_item, sweep_items, sweep_found, sweep_repo,
  sweep_repos, sweep_with, candidates_of, is_off, max_refires, ask_for, no_summary,
}
use umbraco_mcp_ops.Scheduler.Unfunded.{answer_acted, coordinate_reconcile-unfunded}

length-append_one : {A : Type 0} (xs : List A) (x : A) → length (xs ++ x ∷ []) ≡ length xs + 1
length-append_one [] x = omega arith
length-append_one (y ∷ ys) x = omega (arith, length-append_one ys x)

-- The acts so far are within the cap.
abbrev pub Within : ℕ → SweepSummary → Type 0
Within cap s = length s.refired ≤ cap

count_answer-idle :
    (full : String) (n : ℕ) (r : ReconcileResult) (s : SweepSummary) (cap : ℕ)
    → acted r ≡ false
    → Within cap s
    → Within cap (count_answer full n r s)
unfolding count_answer
count_answer-idle full n r s cap e h = rw e h

count_answer-room :
    (full : String) (n : ℕ) (r : ReconcileResult) (s : SweepSummary) (cap : ℕ)
    → length s.refired < cap
    → Within cap (count_answer full n r s)
unfolding count_answer
count_answer-room full n r s cap h = elim (Bool-cases (acted r)) [
  | inl e ↦ rw e (omega (arith, length-append_one s.refired (full, n)))
  | inr e ↦ rw e (omega arith)
]

count_answered-idle :
    (full : String) (n : ℕ) (r : Answer ReconcileResult) (s : SweepSummary) (cap : ℕ)
    → answer_acted r ≡ false
    → Within cap s
    → Within cap (count_answered full n r s)
unfolding count_answered
count_answered-idle full n (ok r) s cap e h = count_answer-idle full n r s cap e h
count_answered-idle full n (thrown f) s cap e h = h

count_answered-room :
    (full : String) (n : ℕ) (r : Answer ReconcileResult) (s : SweepSummary) (cap : ℕ)
    → length s.refired < cap
    → Within cap (count_answered full n r s)
unfolding count_answered
count_answered-room full n (ok r) s cap h = count_answer-room full n r s cap h
count_answered-room full n (thrown f) s cap h = omega arith

count_answered-still :
    (full : String) (n : ℕ) (r : Answer ReconcileResult) (s : SweepSummary)
    → answer_acted r ≡ false
    → (count_answered full n r s).refired ≡ s.refired
unfolding count_answered count_answer
count_answered-still full n (ok r) s e = rw e refl
count_answered-still full n (thrown f) s e = refl

-- What an item's reply does to the count, by whether there was room when it was asked.
count_reply-Within :
    (full : String) (n : ℕ) (a : SweepAsk) (r : Reach) (s : SweepSummary) (cap : ℕ)
    → a.budget ≡ ltb (length s.refired) cap
    → Within cap s
    → Within cap (count_reply full n a r s)
unfolding count_reply
count_reply-Within full n a (unreachable e) s cap b h = h
count_reply-Within full n a (garbled true status) s cap b h = h
count_reply-Within full n a (garbled false status) s cap b h = h
count_reply-Within full n a (item d w) s cap b h = elim (Bool-cases (ltb (length s.refired) cap)) [
  | inl e ↦ count_answered-room full n _ s cap (ground arith)
  | inr e ↦ count_answered-idle full n _ s cap (coordinate_reconcile-unfunded d a n w (b ∙ e)) h
]

module _ (env : SchedulerEnv) (out : Surroundings) where
  sweep_items-Within :
      (full : String) (cs : List Candidate) (s : SweepSummary)
      → Within (max_refires env) s
      → Within (max_refires env) (sweep_items env out full cs s)
  unfolding sweep_items sweep_item
  sweep_items-Within full [] s h = h
  sweep_items-Within full (c ∷ cs) s h = sweep_items-Within full cs (sweep_item env out full c s) (
      count_reply-Within full c.number (ask_for env full c s) (out.reach full c.number) _
        (max_refires env) refl h)

  sweep_found-Within :
      (full : String) (found : Answer (List Candidate)) (s : SweepSummary)
      → Within (max_refires env) s
      → Within (max_refires env) (sweep_found env out full found s)
  unfolding sweep_found
  sweep_found-Within full (thrown e) s h = h
  sweep_found-Within full (ok found) s h = sweep_items-Within full (candidates_of [] found) s h

  sweep_repo-Within :
      (off : List String) (r : String) (s : SweepSummary)
      → Within (max_refires env) s
      → Within (max_refires env) (sweep_repo env out off r s)
  unfolding sweep_repo
  sweep_repo-Within off r s h = elim (Bool-cases (is_off env off r)) [
    | inl e ↦ rw e h
    | inr e ↦ rw e (sweep_found-Within r (out.found r) s h)
  ]

  sweep_repos-Within :
      (off repos : List String) (s : SweepSummary)
      → Within (max_refires env) s
      → Within (max_refires env) (sweep_repos env out off repos s)
  unfolding sweep_repos
  sweep_repos-Within off [] s h = h
  sweep_repos-Within off (r ∷ rs) s h =
      sweep_repos-Within off rs (sweep_repo env out off r s) (sweep_repo-Within off r s h)

-- A sweep names no more items than its cap as acted on (re-fired, or with their gate's rule
-- applied), whatever it finds and whatever state each item is in. An item whose answer is a
-- failure, or cannot be read, is not among these, whatever it did before that.
pub sweep_with-max_refires :
    (env : SchedulerEnv) (out : Surroundings) (repos : List String) (off : Answer (List String))
    → length (sweep_with env out repos off).refired ≤ max_refires env
unfolding sweep_with
sweep_with-max_refires env out repos (ok off) =
    sweep_repos-Within env out off repos (no_summary repos) (omega arith)
sweep_with-max_refires env out repos (thrown e) = sweep_repos-Within env out _ repos _ (omega arith)

count_reply-spent :
    (full : String) (n : ℕ) (a : SweepAsk) (d : Deps) (w : World) (s : SweepSummary)
    → a.budget ≡ false
    → (count_reply full n a (item d w) s).refired ≡ s.refired
unfolding count_reply
count_reply-spent full n a d w s b =
    count_answered-still full n _ s (coordinate_reconcile-unfunded d a n w b)

-- Once a sweep has named as many items as its cap, the next item that it asks is left alone: what
-- its coordinator does adds nothing to the calls that change GitHub or start a routine, whatever
-- the outside answers, and the item is not named.
pub sweep_item-spent :
    (env : SchedulerEnv) (out : Surroundings) (full : String) (c : Candidate) (s : SweepSummary)
    (d : Deps) (w : World)
    → out.reach full c.number ≡ item d w
    → max_refires env ≤ length s.refired
    → (external_calls (coordinate_reconcile d (ask_for env full c s) c.number w).1.trace
        ≡ external_calls w.trace)
      × ((sweep_item env out full c s).refired ≡ s.refired)
unfolding sweep_item
sweep_item-spent env out full c s d w h spent =
    let b : (ask_for env full c s).budget ≡ false = ground (arith, spent) in
    (
      coordinate_reconcile-external_calls d (ask_for env full c s) c.number w (inl b),
      rw h (count_reply-spent full c.number (ask_for env full c s) d w _ b),
    )
