-- ===== src/Coordinate/Dedupe.antt =====
-- An outcome that comes by a second carrier (worker/src/coordinate/outcome-dedupe.ts).
use umbraco_mcp_ops.Prelude.{
  ℕ, ◌≡◌, ◌↔◌, refl, none, some, true, false, ◌∙◌, ap, String, Option, Bool-cases, inl, inr, ==_iff,
  ◌==◌, str_eq, eq_iff, get_or,
}
use umbraco_mcp_ops.Graph.Event.{same_event}
use umbraco_mcp_ops.Graph.Equality.{same_event_iff}
use umbraco_mcp_ops.Graph.Routine.{routine_name}
use umbraco_mcp_ops.Graph.Translate.{Payload}
use umbraco_mcp_ops.Coordinate.Types.{
  AppliedOutcome, PendingFire, Store, Answer, World, Deps, Input, Call, Row,
}
use umbraco_mcp_ops.Coordinate.Steps.{read, ask, perform, ◌>>=◌}
use umbraco_mcp_ops.Coordinate.OutcomeDedupe.{
  ReportedOutcome, other_time, newer_fire, same_outcome, reported_outcome, was_applied, log_deduped,
}
use umbraco_mcp_ops.Coordinate.Webhook.{process_webhook, process_reported}
use umbraco_mcp_ops.Coordinate.Shadow.{external_calls, internal_last}
use umbraco_mcp_ops.Coordinate.Preserve.{Preserves, pure-Preserves, bind-Preserves}

-- The storage and what was done outside are as in the first world.
Unmoved : World → World → Type 0
Unmoved v w = (w.store ≡ v.store) × (external_calls w.trace ≡ external_calls v.trace)

module _ (v : World) where
  ask-Unmoved : {A : Type 0} (f : ℕ → Answer A) → Preserves (Unmoved v) (ask f)
  unfolding ask Unmoved
  ask-Unmoved f = record { at = λ w h. h }

  log-Unmoved : (d : Deps) (r : Row) → Preserves (Unmoved v) (perform d (Call.log r))
  unfolding perform Unmoved
  log-Unmoved d r = record { at = λ w h. (h.0, internal_last (Call.log r) w.trace refl ∙ h.1) }

  log_deduped-Unmoved :
      (d : Deps) (input : Input) (o : ReportedOutcome)
      → Preserves (Unmoved v) (log_deduped d input o)
  unfolding log_deduped
  log_deduped-Unmoved d input o =
      search (bind-Preserves, pure-Preserves, ask-Unmoved, log-Unmoved) depth 20

other_time-false : (a b : Option ℕ) → (other_time a b ≡ false) ↔ (a ≡ b)
other_time-false none none = (λ h. refl, λ h. refl)
other_time-false none (some b) = (λ h. cc, λ h. cc)
other_time-false (some a) none = (λ h. cc, λ h. cc)
other_time-false (some a) (some b) = elim (Bool-cases (a == b)) [
  | inl e ↦ (λ h. ap some ((==_iff a b).0 e), λ h. rw e refl)
  | inr e ↦
      (λ h. absurd (cc (rw e at h)), λ h. absurd (cc (e, (==_iff a b).1 (ap (λ x. get_or x 0) h))))
]

-- A pending fire, if it is the routine's, is the one that began at this time.
abbrev pub NoOther : String → Option ℕ → Option PendingFire → Type 0
NoOther routine at none = Unit {0}
NoOther routine at (some p) = routine_name p.run ≡ routine → p.fired_at ≡ at

newer_fire-false :
    (routine : String) (at : Option ℕ) (pending : Option PendingFire)
    → (newer_fire routine at pending ≡ false) ↔ NoOther routine at pending
newer_fire-false routine at none = (λ h. tt, λ h. refl)
newer_fire-false routine at (some q) = elim (Bool-cases (str_eq (routine_name q.run) routine)) [
  | inl e ↦ (
    λ h n. (other_time-false q.fired_at at).0 (rw e at h),
    λ h. rw e ((other_time-false q.fired_at at).1 (h ((eq_iff _ routine).0 e))),
  )
  | inr e ↦ (λ h n. absurd (cc (e, (eq_iff (routine_name q.run) routine).1 n)), λ h. rw e refl)
]

-- The outcome was applied for its routine's last fire: it is the one remembered for the routine, and the
-- routine has no newer fire pending.
abbrev pub WasApplied : ReportedOutcome → Option AppliedOutcome → Option PendingFire → Type 0
WasApplied o none pending = ⊥
WasApplied o (some a) pending = (a.outcome ≡ o.outcome) × NoOther o.routine a.fired_at pending

same_outcome_iff :
    (o : ReportedOutcome) (a : Option AppliedOutcome) (pending : Option PendingFire)
    → (same_outcome a o pending ≡ true) ↔ WasApplied o a pending
unfolding same_outcome
same_outcome_iff o none pending = (λ h. cc, λ h. absurd h)
same_outcome_iff o (some a) pending =
    let kind = same_event_iff a.outcome o.outcome in
    let fire = newer_fire-false o.routine a.fired_at pending in
    elim (Bool-cases (same_event a.outcome o.outcome)) [
      | inr e ↦ (λ h. absurd (cc (rw e at h)), λ h. absurd (cc (e, kind.1 h.0)))
      | inl e ↦ elim (Bool-cases (newer_fire o.routine a.fired_at pending)) [
        | inl f ↦ (λ h. absurd (cc (rw (e, f) at h)), λ h. absurd (cc (f, fire.1 h.1)))
        | inr f ↦ (λ h. (kind.0 e, fire.0 f), λ h. rw (e, f) refl)
      ]
    ]

-- A reported outcome is taken as applied already exactly when it is the outcome remembered for its
-- routine and the routine has no newer fire pending: a pending fire of another routine does not
-- count.
pub was_applied_iff :
    (o : ReportedOutcome) (s : Store)
    → (was_applied o s ≡ true) ↔ WasApplied o (s.applied o.routine) s.pending
unfolding was_applied
was_applied_iff o s = same_outcome_iff o (s.applied o.routine) s.pending

-- A comment that reports the outcome remembered for its routine, where the routine has no newer
-- fire pending, leaves the storage as it is and adds nothing to the calls that change GitHub or
-- start a routine, whatever the outside answers.
pub process_webhook-again :
    (d : Deps) (input : Input) (p : Payload) (o : ReportedOutcome) (a : AppliedOutcome) (w : World)
    → reported_outcome d.outside.engine p ≡ some o
    → w.store.applied o.routine ≡ some a
    → a.outcome ≡ o.outcome
    → NoOther o.routine a.fired_at w.store.pending
    → ((process_webhook d input p w).1.store ≡ w.store)
      × (external_calls (process_webhook d input p w).1.trace ≡ external_calls w.trace)
unfolding process_webhook process_reported read ◌>>=◌ Unmoved was_applied
process_webhook-again d input p o a w h found same fire =
    let k = (same_outcome_iff o (some a) w.store.pending).1 (same, fire) in
    rw (h, found, k) ((log_deduped-Unmoved w d input o).at w (refl, refl))
