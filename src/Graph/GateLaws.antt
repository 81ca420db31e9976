-- ===== src/Graph/GateLaws.antt =====
-- What the merge gate's decision (graph/github/merge-gate.ts) means.
use umbraco_mcp_ops.Prelude.{
  ◌≡◌, ◌↔◌, refl, ap, ◌∙◌, Bool, true, false, not, Option, none, some, List, [], ◌∷◌, arith, any,
  filter, map, get_or, String, Bool-cases, inl, inr, ||-false, if◌then◌else◌,
}
use umbraco_mcp_ops.Graph.Gate.{
  MergeGateFacts, passes, soft, still_pending, derive_gate, hard_block_reason, any_pending,
  failed_check_names, CheckRun, is_completed, has_failed, non_failing, ReviewState, approved,
  changes_requested, commented, no_review,
}

abbrev pub no_name : List String → Bool
no_name [] = true
no_name (x ∷ xs) = false

-- Once all runs completed, no failed run is named exactly when no run's conclusion is failing.
named_or_not :
    (runs : List CheckRun)
    → any (λ c. not (is_completed c)) runs ≡ false
    → no_name (map (λ c. get_or c.name "unnamed check") (filter has_failed runs))
      ≡ not (any (λ c. not (non_failing c.conclusion)) runs)
named_or_not [] h = refl
named_or_not (c ∷ cs) h =
    let (p, q) = ||-false (not (is_completed c)) (any (λ x. not (is_completed x)) cs) h in
    let done : is_completed c ≡ true = ground (arith, p) in
    elim (Bool-cases (non_failing c.conclusion)) [
      | inl e ↦ rw (done, e) (named_or_not cs q)
      | inr e ↦ rw (done, e) refl
    ]

none_named : (names : List String) → (no_name names ≡ true) ↔ (names ≡ [])
none_named [] = (λ h. refl, λ h. refl)
none_named (x ∷ xs) = (λ h. cc, λ h. cc)

abbrev facts_of : Option String → List CheckRun → ReviewState → Option Bool → MergeGateFacts
facts_of sha runs latest m = record {
  head_sha = sha;
  check_runs = runs;
  latest_review = latest;
  mergeable = m;
}

abbrev Passing : MergeGateFacts → Type 0
Passing f = (f.mergeable ≡ some true) × (hard_block_reason f ≡ none) × (failed_check_names f ≡ [])

-- Without a block, a settled gate passes exactly when there is no failed check.
settled_passes :
    (runs : List CheckRun)
    → any (λ c. not (is_completed c)) runs ≡ false
    → ((if any (λ c. not (non_failing c.conclusion)) runs then soft else passes) ≡ passes)
      ↔ (map (λ c. get_or c.name "unnamed check") (filter has_failed runs) ≡ [])
settled_passes runs h = elim (Bool-cases (any (λ c. not (non_failing c.conclusion)) runs)) [
  | inl e ↦
      let n = (none_named (map (λ c. get_or c.name "unnamed check") (filter has_failed runs))).1 in
      rw e (λ k. cc, λ k. cc (n k, named_or_not runs h, e))
  | inr e ↦
      let n = (none_named (map (λ c. get_or c.name "unnamed check") (filter has_failed runs))).0 in
      rw e (λ k. n (named_or_not runs h ∙ ap not e), λ k. refl)
]

passes_when_done :
    (sha : Option String) (runs : List CheckRun) (latest : ReviewState) (m : Option Bool)
    → any (λ c. not (is_completed c)) runs ≡ false
    → (derive_gate (facts_of sha runs latest m) ≡ passes) ↔ Passing (facts_of sha runs latest m)
unfolding derive_gate hard_block_reason failed_check_names
passes_when_done sha runs latest none h = rw h (λ k. cc, λ k. cc)
passes_when_done sha runs latest (some false) h = rw h (λ k. cc, λ k. cc)
passes_when_done sha runs changes_requested (some true) h = rw h (λ k. cc, λ k. cc)
passes_when_done sha runs approved (some true) h =
    let (p, q) = settled_passes runs h in rw h (λ k. (refl, refl, p k), λ k. q k.2)
passes_when_done sha runs commented (some true) h =
    let (p, q) = settled_passes runs h in rw h (λ k. (refl, refl, p k), λ k. q k.2)
passes_when_done sha runs no_review (some true) h =
    let (p, q) = settled_passes runs h in rw h (λ k. (refl, refl, p k), λ k. q k.2)

pending_gate : (f : MergeGateFacts) → any_pending f ≡ true → derive_gate f ≡ still_pending
unfolding derive_gate
pending_gate f h = rw h refl

-- The merge gate passes exactly when every check run completed, the PR is known to be mergeable,
-- there is no hard block, and no failed check is there to name.
pub derive_gate-passes_iff :
    (f : MergeGateFacts)
    → (derive_gate f ≡ passes) ↔ (
        (any_pending f ≡ false)
        × (f.mergeable ≡ some true)
        × (hard_block_reason f ≡ none)
        × (failed_check_names f ≡ []))
derive_gate-passes_iff f = elim (Bool-cases (any_pending f)) [
  | inl e ↦ (λ k. cc (k, pending_gate f e), λ k. cc (k.0, e))
  | inr e ↦
      let (p, q) = passes_when_done f.head_sha f.check_runs f.latest_review f.mergeable e in
      (λ k. let (a, b, c) = p k in (e, a, b, c), λ (x, a, b, c). q (a, b, c))
]
