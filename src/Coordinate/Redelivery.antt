-- ===== src/Coordinate/Redelivery.antt =====
-- A webhook that GitHub delivers again (worker/src/coordinate/webhook.ts, `coordinateWebhook`).
use umbraco_mcp_ops.Prelude.{
  String, ◌≡◌, refl, some, true, false, Bool, ◌∙◌, ap, sym, List, [], ◌∷◌, filter, any, not, str_eq,
  inl, inr, Bool-cases, eq_iff, arith,
}
use umbraco_mcp_ops.Graph.Translate.{Payload}
use umbraco_mcp_ops.Coordinate.Types.{
  Answer, ok, thrown, Failure, World, Store, Deps, Input, PendingFire, CoordinateResult, deduped,
  deps_for, Call,
}
use umbraco_mcp_ops.Coordinate.Steps.{
  pure, read, throw, attempt, keep, perform, perform_live, note, ◌>>=◌,
}
use umbraco_mcp_ops.Coordinate.Storage.{set_pending_fire, clear_pending_fire, mark_seen, has_seen}
use umbraco_mcp_ops.Coordinate.Webhook.{
  coordinate_webhook, claim_delivery, release_if_thrown, process_webhook,
}
use umbraco_mcp_ops.Coordinate.Preserve.{
  Preserves, Frame, if-Preserves, pure-Preserves, bind-Preserves, clock-Preserves,
}
use umbraco_mcp_ops.Coordinate.Preserve.Webhook.{process_webhook-Preserves}

SeenAs : List String → World → Type 0
SeenAs ids w = w.store.seen ≡ ids

module _ (ids : List String) where
  perform-SeenAs : (d : Deps) (c : Call) → Preserves (SeenAs ids) (perform d c)
  unfolding perform SeenAs
  perform-SeenAs d c = record { at = λ w h. h }

  perform_live-SeenAs : (d : Deps) (c : Call) → Preserves (SeenAs ids) (perform_live d c)
  unfolding perform_live
  perform_live-SeenAs d c =
      if-Preserves d.live (perform d c) (pure tt) (perform-SeenAs d c) (pure-Preserves tt)

  keep-SeenAs :
      (f : Store → Store) → ((s : Store) → (f s).seen ≡ s.seen) → Preserves (SeenAs ids) (keep f)
  unfolding keep SeenAs
  keep-SeenAs f p = record { at = λ w h. p w.store ∙ h }

  note-SeenAs : (c : Call) → Preserves (SeenAs ids) (note c)
  unfolding note SeenAs
  note-SeenAs c = record { at = λ w h. h }

  set_pending_fire-SeenAs :
      (d : Deps) (info : PendingFire) → Preserves (SeenAs ids) (set_pending_fire d info)
  unfolding set_pending_fire
  set_pending_fire-SeenAs d info =
      search (bind-Preserves, clock-Preserves, keep-SeenAs, note-SeenAs) depth 20

  clear_pending_fire-SeenAs : Preserves (SeenAs ids) clear_pending_fire
  unfolding clear_pending_fire
  clear_pending_fire-SeenAs = search (bind-Preserves, keep-SeenAs, note-SeenAs)

seen-Frame : (d : Deps) (ids : List String) → Frame (SeenAs ids) d
unfolding SeenAs
seen-Frame d ids = record {
  core = record {
    acts = λ e. record {
      live = perform_live-SeenAs ids (deps_for d e);
      arm = set_pending_fire-SeenAs ids (deps_for d e);
    };
    asks = λ w k. k;
    logs = λ d' r. perform-SeenAs ids d' (Call.log r);
    forwards = λ d' n p id. perform-SeenAs ids d' (Call.forward n p id);
    says = λ u. note-SeenAs ids (Call.status u);
    clears = clear_pending_fire-SeenAs ids;
    applies = λ run a. keep-SeenAs ids _ (λ s. refl);
  };
  keeps = λ f p q r v. keep-SeenAs ids f r;
  rounds = λ n h. keep-SeenAs ids _ (λ s. refl);
}

-- The handling itself leaves the claims of deliveries alone.
process_webhook-seen :
    (d : Deps) (input : Input) (p : Payload) (w : World)
    → (process_webhook d input p w).1.store.seen ≡ w.store.seen
unfolding SeenAs
process_webhook-seen d input p w =
    (process_webhook-Preserves {P = SeenAs w.store.seen} input p (seen-Frame d w.store.seen)).at w
      refl

-- A delivery that was claimed before is told apart at once.
seen_again :
    (d : Deps) (input : Input) (p : Payload) (id : String) (w : World)
    → input.delivery ≡ some id
    → has_seen id w.store.seen ≡ true
    → coordinate_webhook d input p w ≡ (ok deduped, w)
unfolding coordinate_webhook claim_delivery ◌>>=◌ read pure
seen_again d input p id w e h = rw (e, h) refl

any-filter-not :
    {A : Type 0} (p : A → Bool) (xs : List A) → any p (filter (λ x. not (p x)) xs) ≡ false
any-filter-not p [] = refl
any-filter-not p (x ∷ xs) = ground (arith, any-filter-not p xs)

has_seen_self : (id : String) (ids : List String) → has_seen id (id ∷ ids) ≡ true
has_seen_self id ids = rw ((eq_iff id id).1 refl) refl

release-ok :
    (id : String) (a : Answer CoordinateResult) (w w' : World) (r : CoordinateResult)
    → release_if_thrown id a w ≡ (ok r, w')
    → w ≡ w'
unfolding release_if_thrown pure throw ◌>>=◌ keep
release-ok id (ok r0) w w' r h = ap (λ x. x.1) h
release-ok id (thrown e) w w' r h = absurd (cc (ap (λ x. x.0) h))

-- What a delivery that is new comes to.
claimed :
    (d : Deps) (input : Input) (p : Payload) (id : String) (w : World)
    → input.delivery ≡ some id
    → has_seen id w.store.seen ≡ false
    → coordinate_webhook d input p w
      ≡ (let (a, w') = process_webhook d input p (mark_seen id w).1 in release_if_thrown id a w')
unfolding coordinate_webhook claim_delivery ◌>>=◌ read attempt keep
claimed d input p id w e h = rw (e, h) refl

-- A delivery whose handling returned is done: the same delivery again is deduped, with the
-- storage, the calls and the trace as they were, whatever the handling did and whatever the
-- outside would answer.
pub coordinate_webhook-again :
    (d : Deps) (input : Input) (p : Payload) (id : String) (w w' : World) (r : CoordinateResult)
    → input.delivery ≡ some id
    → coordinate_webhook d input p w ≡ (ok r, w')
    → coordinate_webhook d input p w' ≡ (ok deduped, w')
unfolding keep
coordinate_webhook-again d input p id w w' r e h = elim (Bool-cases (has_seen id w.store.seen)) [
  | inl seen ↦
      let q : w ≡ w' = ap (λ x. x.1) (sym (seen_again d input p id w e seen) ∙ h) in
      seen_again d input p id w' e (sym (ap (λ x. has_seen id x.store.seen) q) ∙ seen)
  | inr fresh ↦
      let (a, w1) = process_webhook d input p (mark_seen id w).1 in
      let q : w1 ≡ w' = release-ok id a w1 w' r (sym (claimed d input p id w e fresh) ∙ h) in
      seen_again d input p id w' e (
        sym (ap (λ x. has_seen id x.store.seen) q)
        ∙ ap (has_seen id) (process_webhook-seen d input p (mark_seen id w).1)
        ∙ has_seen_self id w.store.seen)
]

release-thrown :
    (id : String) (a : Answer CoordinateResult) (w w' : World) (e : Failure)
    → release_if_thrown id a w ≡ (thrown e, w')
    → has_seen id w'.store.seen ≡ false
unfolding release_if_thrown pure throw ◌>>=◌ keep
release-thrown id (ok r) w w' e h = absurd (cc (ap (λ x. x.0) h))
release-thrown id (thrown e0) w w' e h =
    sym (ap (λ x. has_seen id x.1.store.seen) h) ∙ any-filter-not (str_eq id) w.store.seen

-- A delivery that was not seen before and whose handling throws is not seen after it either.
pub coordinate_webhook-released :
    (d : Deps) (input : Input) (p : Payload) (id : String) (w w' : World) (e : Failure)
    → input.delivery ≡ some id
    → has_seen id w.store.seen ≡ false
    → coordinate_webhook d input p w ≡ (thrown e, w')
    → has_seen id w'.store.seen ≡ false
coordinate_webhook-released d input p id w w' e k fresh h =
    let (a, w1) = process_webhook d input p (mark_seen id w).1 in
    release-thrown id a w1 w' e (sym (claimed d input p id w k fresh) ∙ h)
