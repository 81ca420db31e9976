-- ===== src/Coordinate/Renewal.antt =====
-- What becomes of an item whose alarm came: worker/src/coordinate/watchdog.ts, from the alarm that the
-- platform took to the end of its handling.
use umbraco_mcp_ops.Prelude.{
  ℕ, ◌≡◌, refl, sym, ap, Bool, true, false, Option, none, some, is_some, List, [], ◌∷◌, ◌⊎◌, inl,
  inr, ==_refl,
}
use mathlib.Core.List.{reverse}
use umbraco_mcp_ops.Graph.Event.{watchdog_expired}
use umbraco_mcp_ops.Graph.Routine.{Routine, routine_index}
use umbraco_mcp_ops.Graph.Table.{State}
use umbraco_mcp_ops.Coordinate.DeriveState.{Derived, derive_state}
use umbraco_mcp_ops.Coordinate.Types.{
  done, domain, Deps, Input, PendingFire, World, Answer, ok, thrown, CoordinateResult, applied,
  deduped, no_event, ambiguous_state, dropped_no_rule, ignored, stale_label, closed_issue,
  manual_override, IssueComment,
}
use umbraco_mcp_ops.Coordinate.Steps.{Step, read, keep, note, clock, when, ◌>>=◌, ◌>>◌}
use umbraco_mcp_ops.Coordinate.Storage.{set_pending_fire, clear_pending_fire, record_status}
use umbraco_mcp_ops.Coordinate.Apply.{
  FireOutcome, sent, deferred, fire_watched, fire_unwatched, deferred_for,
}
use umbraco_mcp_ops.Coordinate.OutcomeDedupe.{other_time}
use umbraco_mcp_ops.Coordinate.Recovery.{
  still_pending, recovered_as, replayed, recover_from, recover_in, recover_since, recover_outcome,
  is_candidate,
}
use umbraco_mcp_ops.Coordinate.Watchdog.{
  WatchdogResult, expire_watched, retried_as, retry_once, drop_deferred, deferred_as, send_deferred,
  deferred_alarm, retry_or_expire, silent_alarm, recovered_or, due_alarm, alarm_of,
  coordinate_watchdog, too_early, due_margin, still_wanted, will_stick,
}
use umbraco_mcp_ops.Coordinate.Armed.{ArmedAs, Armed}
use umbraco_mcp_ops.Coordinate.Expiry.{expire_pending_fire-ends}
use umbraco_mcp_ops.Coordinate.Preserve.{Frame, Acts, step_rules}
use umbraco_mcp_ops.Coordinate.Preserve.Watch.{Watch, Watch-Acts, Watch-Frame, Watch-Claims}
use umbraco_mcp_ops.Coordinate.Preserve.Apply.{
  settle_fire-Preserves, fire_watched-Preserves, fire_unwatched-Preserves,
}
use umbraco_mcp_ops.Coordinate.Preserve.Webhook.{coordinate_webhook-Preserves}
use umbraco_mcp_ops.Coordinate.Yields.{
  Yields, Tried, pure-Yields, throw-Yields, if-Yields, returns-Yields, Preserves-Yields,
  read-Yields, bind-Yields, attempt-Yields,
}

abbrev Alarmed : World → Type 0
Alarmed = Watch ArmedAs

-- The fire is still pending with no alarm, or the alarm goes with what is pending.
RungAs : PendingFire → Option PendingFire → Option ℕ → Type 0
RungAs p q at = ((q ≡ some p) × (at ≡ none)) ⊎ ArmedAs q at

abbrev Rung : PendingFire → World → Type 0
Rung p = Watch (RungAs p)

module _ (d : Deps) where
  armed-Frame : Frame Alarmed d
  armed-Frame = Watch-Frame ArmedAs (λ e n i. (refl, refl, refl)) refl d

  armed-Acts : Acts Alarmed d
  armed-Acts = Watch-Acts ArmedAs (λ e n i. (refl, refl, refl)) refl d

  Rung-Frame : (p : PendingFire) → Frame (Rung p) d
  unfolding RungAs
  Rung-Frame p = Watch-Frame (RungAs p) (λ e n i. inr (refl, refl, refl)) (inr refl) d

  Rung-Acts : (p : PendingFire) → Acts (Rung p) d
  unfolding RungAs
  Rung-Acts p = Watch-Acts (RungAs p) (λ e n i. inr (refl, refl, refl)) (inr refl) d

  -- Setting a fire sets its alarm, and clearing it clears both.
  set_pending_fire-Alarmed :
      {P : World → Type 0} (info : PendingFire) → Yields P (λ _. Alarmed) (set_pending_fire d info)
  unfolding set_pending_fire keep note clock ◌>>=◌ Watch
  set_pending_fire-Alarmed info = record { at = λ w h. (refl, refl, refl) }

clear_pending_fire-Alarmed : {P : World → Type 0} → Yields P (λ _. Alarmed) clear_pending_fire
unfolding clear_pending_fire keep note ◌>>=◌ Watch
clear_pending_fire-Alarmed = record { at = λ w h. refl }

module _ {P : World → Type 0} (d : Deps) (F : Frame P d) (input : Input) where
  -- A fire that returns has set the alarm of what is pending.
  fire_watched-Alarmed :
      (info : PendingFire) (q : Bool) → Yields P (λ _. Alarmed) (fire_watched d input info q)
  unfolding fire_watched deferred_for
  fire_watched-Alarmed info q =
      bind-Yields _ _ (Preserves-Yields _ (search step_rules depth 20)) λ _.
        bind-Yields _ _ (Preserves-Yields _ (search step_rules depth 20)) λ already.
          bind-Yields _ _ (set_pending_fire-Alarmed d info) λ _.
            let S = armed-Frame d in
            let A = armed-Acts d in
            Preserves-Yields _ (search (step_rules, settle_fire-Preserves) depth 20)

  fire_unwatched-Alarmed :
      (run : Routine) (q : Bool) → Yields P (λ _. Alarmed) (fire_unwatched d input run q)
  unfolding fire_unwatched deferred_for
  fire_unwatched-Alarmed run q =
      bind-Yields _ _ (Preserves-Yields _ (search step_rules depth 20)) λ _.
        bind-Yields _ _ (Preserves-Yields _ (search step_rules depth 20)) λ already.
          bind-Yields _ _ clear_pending_fire-Alarmed λ _.
            let S = armed-Frame d in
            let A = armed-Acts d in
            Preserves-Yields _ (search (step_rules, settle_fire-Preserves) depth 20)

module _ (d : Deps) (input : Input) (p : PendingFire) where
  expired-Alarmed : {P : World → Type 0} → Yields P (λ _. Alarmed) (expire_watched d input p)
  unfolding expire_watched Watch
  expired-Alarmed =
      bind-Yields _ _
        (returns-Yields {R = λ _. Alarmed} _
          λ w r w' h. let e = expire_pending_fire-ends d input p _ _ w w' r h in rw (e.0, e.1) refl)
        λ r. pure-Yields _ (λ w h. h)

abbrev Retried : PendingFire → Option WatchdogResult → World → Type 0
Retried p none = Rung p
Retried p (some r) = Alarmed

abbrev Recovered : PendingFire → Option CoordinateResult → World → Type 0
Recovered p none = Rung p
Recovered p (some r) = Alarmed

-- The retry of a silent run: the fire stays where it is refused, and is set anew otherwise.
module _ (d : Deps) (input : Input) (p : PendingFire) where
  retried_as-Retried :
      (a : Answer FireOutcome)
      → Yields (Tried (Rung p) (λ _. Alarmed) a) (Retried p) (retried_as d input p a)
  unfolding retried_as
  retried_as-Retried (thrown e) = pure-Yields none (λ w h. h)
  retried_as-Retried (ok deferred) = pure-Yields _ (λ w h. h)
  retried_as-Retried (ok sent) =
      let F = armed-Frame d in
      let A = armed-Acts d in
      bind-Yields _ _ (Preserves-Yields _ (search step_rules depth 20)) λ _.
        bind-Yields _ _ (Preserves-Yields _ (search step_rules depth 20)) λ _.
          bind-Yields _ _ (Preserves-Yields _ (search step_rules depth 20))
            λ _. pure-Yields _ (λ w h. h)

  retry_once-Retried : Yields (Rung p) (Retried p) (retry_once d input p)
  unfolding retry_once
  retry_once-Retried =
      let F = Rung-Frame d p in
      let A = Rung-Acts d p in
      bind-Yields _ _
        (attempt-Yields _ (fire_watched-Alarmed d F input _ false)
          (search (step_rules, fire_watched-Preserves) depth 20))
        retried_as-Retried

  retry_or_expire-Alarmed :
      (r : Option WatchdogResult)
      → Yields (Retried p r) (λ _. Alarmed) (retry_or_expire d input p r)
  unfolding retry_or_expire
  retry_or_expire-Alarmed (some r) = pure-Yields _ (λ w h. h)
  retry_or_expire-Alarmed none = expired-Alarmed d input p

  silent_alarm-Alarmed : Yields (Rung p) (λ _. Alarmed) (silent_alarm d input p)
  unfolding silent_alarm
  silent_alarm-Alarmed =
      let F = Rung-Frame d p in
      if-Yields _ _ _
        (bind-Yields _ _ (Preserves-Yields _ (search step_rules depth 20)) λ labels.
          bind-Yields _ _
            (if-Yields (will_stick (derive_state labels)) _ _ retry_once-Retried
              (pure-Yields none (λ w h. h)))
            retry_or_expire-Alarmed)
        (expired-Alarmed d input p)

  recovered_or-Alarmed :
      (found : Option CoordinateResult)
      → Yields (Recovered p found) (λ _. Alarmed) (recovered_or d input p found)
  unfolding recovered_or
  recovered_or-Alarmed (some r) =
      let F = armed-Frame d in
      bind-Yields _ _ (Preserves-Yields _ (search step_rules depth 20))
        λ _. pure-Yields _ (λ w h. h)
  recovered_or-Alarmed none = silent_alarm-Alarmed

other_time_refl : (t : Option ℕ) → other_time t t ≡ false
other_time_refl none = refl
other_time_refl (some t) = rw (==_refl t) refl

still_pending_refl : (p : PendingFire) → still_pending p (some p) ≡ true
still_pending_refl p = rw (==_refl (routine_index p.run), other_time_refl p.due_at) refl

-- A fire that is no longer the one that was pending has its own alarm.
replaced-ArmedAs :
    (p : PendingFire) (q : Option PendingFire) (at : Option ℕ)
    → RungAs p q at
    → still_pending p q ≡ false
    → ArmedAs q at
unfolding RungAs
replaced-ArmedAs p q at (inr h) e = h
replaced-ArmedAs p q at (inl h) e = absurd (cc (ap (still_pending p) h.0, still_pending_refl p, e))

-- The outcome of a comment whose webhook was lost, applied: the fire's end, or the next one's start.
module _ (d : Deps) (input : Input) (p : PendingFire) where
  ended-Alarmed :
      (still : Bool)
      → Yields
          (λ w. Rung p w × (still ≡ still_pending p w.store.pending))
          (λ _. Alarmed)
          (when still (do clear_pending_fire; record_status done))
  unfolding when Watch
  ended-Alarmed true =
      let F = armed-Frame d in
      bind-Yields _ _ clear_pending_fire-Alarmed
        λ _. Preserves-Yields _ (search step_rules depth 20)
  ended-Alarmed false =
      pure-Yields tt λ w h. replaced-ArmedAs p w.store.pending w.store.alarm h.0 (sym h.1)

  recovered_as-Recovered :
      (from : State) (r : CoordinateResult)
      → Yields (Rung p) (Recovered p) (recovered_as d input p from r)
  unfolding recovered_as
  recovered_as-Recovered from r =
      let F = Rung-Frame d p in
      bind-Yields _ _ (Preserves-Yields _ (search step_rules depth 20)) λ _.
        bind-Yields _ _ (read-Yields _)
          λ still. bind-Yields _ _ (ended-Alarmed still) λ _. pure-Yields (some r) (λ w h. h)

  replayed-Recovered :
      (rest : Step (Option CoordinateResult)) (a : Answer CoordinateResult)
      → Yields (Rung p) (Recovered p) rest
      → Yields (Rung p) (Recovered p) (replayed d input p rest a)
  unfolding replayed
  replayed-Recovered rest (ok (applied from e r)) k = recovered_as-Recovered from (applied from e r)
  replayed-Recovered rest (ok deduped) k = k
  replayed-Recovered rest (ok no_event) k = k
  replayed-Recovered rest (ok ambiguous_state) k = k
  replayed-Recovered rest (ok (dropped_no_rule s e)) k = k
  replayed-Recovered rest (ok (ignored s e)) k = k
  replayed-Recovered rest (ok (stale_label e)) k = k
  replayed-Recovered rest (ok (closed_issue e)) k = k
  replayed-Recovered rest (ok (manual_override b l s)) k = k
  replayed-Recovered rest (thrown e) k =
      bind-Yields _ _ (read-Yields _)
        λ still. if-Yields still _ _ (pure-Yields none (λ w h. h.0)) (throw-Yields e)

  recover_from-Recovered :
      (fired : ℕ) (cs : List IssueComment)
      → Yields (Rung p) (Recovered p) (recover_from d input p fired cs)
  unfolding recover_from
  recover_from-Recovered fired [] = pure-Yields none (λ w h. h)
  recover_from-Recovered fired (c ∷ cs) =
      let F = Rung-Frame d p in
      let C = Watch-Claims (RungAs p) in
      let k = recover_from-Recovered fired cs in
      if-Yields (is_candidate d p fired c) _ _
        (bind-Yields _ _
          (Preserves-Yields _ (search (step_rules, coordinate_webhook-Preserves) depth 20))
          (λ a. replayed-Recovered _ a k))
        k

  recover_in-Recovered :
      (fired : ℕ) (a : Answer (List IssueComment))
      → Yields (Rung p) (Recovered p) (recover_in d input p fired a)
  unfolding recover_in
  recover_in-Recovered fired (thrown e) = pure-Yields none (λ w h. h)
  recover_in-Recovered fired (ok cs) = recover_from-Recovered fired (reverse cs)

  recover_since-Recovered :
      (fired : Option ℕ) → Yields (Rung p) (Recovered p) (recover_since d input p fired)
  unfolding recover_since
  recover_since-Recovered none = pure-Yields none (λ w h. h)
  recover_since-Recovered (some fired) =
      let F = Rung-Frame d p in
      bind-Yields _ _ (Preserves-Yields _ (search step_rules depth 20)) (recover_in-Recovered fired)

  recover_outcome-Recovered : Yields (Rung p) (Recovered p) (recover_outcome d input p)
  unfolding recover_outcome
  recover_outcome-Recovered = recover_since-Recovered p.fired_at

-- The alarm of a fire that a rate limit held back.
module _ (d : Deps) (input : Input) (p : PendingFire) (state : Derived) where
  drop_deferred-Alarmed : Yields (Rung p) (λ _. Alarmed) (drop_deferred d input p state)
  unfolding drop_deferred
  drop_deferred-Alarmed =
      let F = Rung-Frame d p in
      let A = Rung-Acts d p in
      let G = armed-Frame d in
      bind-Yields _ _ (Preserves-Yields _ (search step_rules depth 20)) λ _.
        bind-Yields _ _ clear_pending_fire-Alarmed λ _.
          bind-Yields _ _ (Preserves-Yields _ (search step_rules depth 20))
            λ _. pure-Yields _ (λ w h. h)

  deferred_as-Alarmed :
      (a : Answer FireOutcome)
      → Yields (Tried (Rung p) (λ _. Alarmed) a) (λ _. Alarmed) (deferred_as d input p state a)
  unfolding deferred_as
  deferred_as-Alarmed (ok deferred) = pure-Yields _ (λ w h. h)
  deferred_as-Alarmed (ok sent) =
      let G = armed-Frame d in
      bind-Yields _ _ (Preserves-Yields _ (search step_rules depth 20))
        λ _. pure-Yields _ (λ w h. h)
  deferred_as-Alarmed (thrown e) =
      bind-Yields {R = λ _ _. Unit {0}} _ _ (returns-Yields _ (λ w r w' h. tt)) λ _.
        bind-Yields {R = λ _ _. Unit {0}} _ _ (returns-Yields _ (λ w r w' h. tt))
          λ _. throw-Yields e

  send_deferred-Alarmed : Yields (Rung p) (λ _. Alarmed) (send_deferred d input p state)
  unfolding send_deferred
  send_deferred-Alarmed =
      let F = Rung-Frame d p in
      let A = Rung-Acts d p in
      if-Yields (still_wanted state p.run) _ _
        (bind-Yields _ _
          (attempt-Yields _
            (if-Yields p.unwatched _ _ (fire_unwatched-Alarmed d F input p.run true)
              (fire_watched-Alarmed d F input _ true))
            (search (step_rules, fire_watched-Preserves, fire_unwatched-Preserves) depth 20))
          deferred_as-Alarmed)
        drop_deferred-Alarmed

module _ (d : Deps) (input : Input) (p : PendingFire) where
  due_alarm-Alarmed : Yields (Rung p) (λ _. Alarmed) (due_alarm d input p)
  unfolding due_alarm deferred_alarm
  due_alarm-Alarmed =
      let F = Rung-Frame d p in
      if-Yields (is_some p.defer_until) _ _
        (bind-Yields _ _ (Preserves-Yields _ (search step_rules depth 20))
          λ labels. send_deferred-Alarmed d input p _)
        (bind-Yields _ _
          (if-Yields (d.enforced (domain watchdog_expired)) _ _
            (recover_outcome-Recovered d input p) (pure-Yields none (λ w h. h)))
          (recovered_or-Alarmed d input p))

  alarm_of-Alarmed :
      (now : ℕ) (q : Option PendingFire)
      → q ≡ some p
      → too_early (due_margin d p.run) now p.due_at ≡ false
      → Yields (Rung p) (λ _. Alarmed) (alarm_of d input now q)
  unfolding alarm_of
  alarm_of-Alarmed now q k e = rw (k, e) due_alarm-Alarmed

-- The handling of an alarm that came, and was not too early, never loses the item: where it
-- returns, on every path through recovery, retry, expiry and deferral, either nothing is pending
-- and no alarm is set, or a fire is pending with the alarm set at its due time.
pub coordinate_watchdog-renews :
    (d : Deps) (input : Input) (p : PendingFire) (w w' : World) (r : WatchdogResult)
    → w.store.pending ≡ some p
    → w.store.alarm ≡ none
    → too_early (due_margin d p.run) (d.outside.now w.calls) p.due_at ≡ false
    → coordinate_watchdog d input w ≡ (ok r, w')
    → Armed w'.store
unfolding coordinate_watchdog clock read ◌>>=◌ Watch RungAs
coordinate_watchdog-renews d input p w w' r h k e q =
    let now = d.outside.now w.calls in
    rw q at ((alarm_of-Alarmed d input p now w.store.pending h e).at w (inl (h, k)))
