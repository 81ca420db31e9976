-- ===== src/Scheduler/Paused.antt =====
-- The repos whose sweep is switched off (worker/src/controls.ts, worker/src/scheduler.ts).
use umbraco_mcp_ops.Prelude.{
  ℕ, String, ◌≡◌, refl, ap, ◌∙◌, Bool, true, false, List, [], ◌∷◌, any, map, str_eq, any-append,
  Bool-cases, inl, inr, or_true, eq_iff,
}
use umbraco_mcp_ops.Coordinate.Types.{Answer, ok, thrown, Failure}
use umbraco_mcp_ops.Coordinate.Reconcile.{SweepAsk, ReconcileResult}
use umbraco_mcp_ops.Scheduler.{
  SchedulerEnv, Surroundings, Candidate, Reach, unreachable, garbled, item, SweepSummary,
  count_answer, count_answered, count_reply, sweep_item, sweep_items, sweep_found, sweep_repo,
  sweep_repos, sweep_with, candidates_of, is_off, ask_for, no_summary,
}

-- Whether an item of the repo was asked.
abbrev pub asked_of : String → SweepSummary → Bool
asked_of full s = any (λ q. str_eq q.0 full) s.asked

count_answered-asked :
    (full : String) (n : ℕ) (r : Answer ReconcileResult) (s : SweepSummary)
    → (count_answered full n r s).asked ≡ s.asked
unfolding count_answered count_answer
count_answered-asked full n (ok r) s = refl
count_answered-asked full n (thrown e) s = refl

count_reply-asked :
    (full : String) (n : ℕ) (a : SweepAsk) (r : Reach) (s : SweepSummary)
    → (count_reply full n a r s).asked ≡ s.asked
unfolding count_reply
count_reply-asked full n a (unreachable e) s = refl
count_reply-asked full n a (garbled true status) s = refl
count_reply-asked full n a (garbled false status) s = refl
count_reply-asked full n a (item d w) s = count_answered-asked full n _ s

str_eq_refl : (s : String) → str_eq s s ≡ true
str_eq_refl s = (eq_iff s s).1 refl

off_apart :
    (env : SchedulerEnv) (off : List String) (r other : String)
    → is_off env off r ≡ false
    → is_off env off other ≡ true
    → str_eq r other ≡ false
off_apart env off r other e k = elim (Bool-cases (str_eq r other)) [
  | inr x ↦ x
  | inl x ↦
      let same : r ≡ other = (eq_iff r other).0 x in
      absurd (cc (e, k, ap (λ t. is_off env off t) same))
]

module _ (env : SchedulerEnv) (out : Surroundings) where
  -- Asking the items of one repo asks none of another.
  sweep_items-asked :
      (full other : String) (cs : List Candidate) (s : SweepSummary)
      → str_eq full other ≡ false
      → asked_of other s ≡ false
      → asked_of other (sweep_items env out full cs s) ≡ false
  unfolding sweep_items sweep_item
  sweep_items-asked full other [] s e h = h
  sweep_items-asked full other (c ∷ cs) s e h =
      sweep_items-asked full other cs (sweep_item env out full c s) e (
        ap (any (λ q. str_eq q.0 other))
          (count_reply-asked full c.number (ask_for env full c s) (out.reach full c.number) _)
        ∙ any-append (λ q. str_eq q.0 other) s.asked _
        ∙ rw (h, e) refl)

  sweep_found-asked :
      (full other : String) (found : Answer (List Candidate)) (s : SweepSummary)
      → str_eq full other ≡ false
      → asked_of other s ≡ false
      → asked_of other (sweep_found env out full found s) ≡ false
  unfolding sweep_found
  sweep_found-asked full other (thrown e) s k h = h
  sweep_found-asked full other (ok found) s k h =
      sweep_items-asked full other (candidates_of [] found) s k h

  sweep_repo-asked :
      (off : List String) (other r : String) (s : SweepSummary)
      → is_off env off other ≡ true
      → asked_of other s ≡ false
      → asked_of other (sweep_repo env out off r s) ≡ false
  unfolding sweep_repo
  sweep_repo-asked off other r s k h = elim (Bool-cases (is_off env off r)) [
    | inl e ↦ rw e h
    | inr e ↦ rw e (sweep_found-asked r other (out.found r) s (off_apart env off r other e k) h)
  ]

  sweep_repos-asked :
      (off : List String) (other : String) (repos : List String) (s : SweepSummary)
      → is_off env off other ≡ true
      → asked_of other s ≡ false
      → asked_of other (sweep_repos env out off repos s) ≡ false
  unfolding sweep_repos
  sweep_repos-asked off other [] s k h = h
  sweep_repos-asked off other (r ∷ rs) s k h =
      sweep_repos-asked off other rs (sweep_repo env out off r s) k
        (sweep_repo-asked off other r s k h)

any-map_self :
    (env : SchedulerEnv) (full : String) (repos : List String)
    → any (str_eq full) repos ≡ true
    → is_off env (map env.reader.lower repos) full ≡ true
any-map_self env full [] h = h
any-map_self env full (r ∷ rs) h = elim (Bool-cases (str_eq full r)) [
  | inl e ↦ rw ((eq_iff full r).0 e, str_eq_refl (env.reader.lower r)) refl
  | inr e ↦ rw (any-map_self env full rs (rw e at h), or_true) refl
]

-- A repo whose sweep is switched off is left alone: whatever the others come to, none of its items
-- is asked. Where the switches cannot be read, none of the items of any repo swept is.
pub sweep_with-paused :
    (env : SchedulerEnv) (out : Surroundings) (repos : List String) (full : String)
    → ((off : List String)
        → is_off env off full ≡ true
        → asked_of full (sweep_with env out repos (ok off)) ≡ false)
      × ((e : Failure)
          → any (str_eq full) repos ≡ true
          → asked_of full (sweep_with env out repos (thrown e)) ≡ false)
unfolding sweep_with
sweep_with-paused env out repos full = (
  λ off k. sweep_repos-asked env out off full repos (no_summary repos) k refl,
  λ e k.
      sweep_repos-asked env out (map env.reader.lower repos) full repos _
        (any-map_self env full repos k) refl,
)
