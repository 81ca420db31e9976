-- ===== src/Scenarios.antt =====
-- The theorems on concrete deliveries, fires and alarms of one issue and one PR.
use umbraco_mcp_ops.Fixtures.{
  green, red, enforcing, watching, empty_store, start, ready_payload, ready_input,
}
use umbraco_mcp_ops.Coordinate.ReviewRounds.{coordinate_webhook-Within}
use umbraco_mcp_ops.Coordinate.Redelivery.{coordinate_webhook-again, coordinate_webhook-released}
use umbraco_mcp_ops.Coordinate.Fires.{
  fire_watched-sent, fire_watched-refused, fire_watched-deferred,
}
use umbraco_mcp_ops.Coordinate.Expiry.{expire_pending_fire-ends}
use umbraco_mcp_ops.Coordinate.Watchdog.{expire_pending_fire, coordinate_watchdog}
use umbraco_mcp_ops.Coordinate.Rounds.{
  hand_to_rework-Within, hand_review_to_rework-Within, handle_review_findings-Within,
}
use umbraco_mcp_ops.Coordinate.MergeGate.{attempts_of, hand_to_rework}
use umbraco_mcp_ops.Coordinate.ReviewGate.{rounds_of, hand_review_to_rework, handle_review_findings}
use umbraco_mcp_ops.Coordinate.Dedupe.{WasApplied, was_applied_iff, process_webhook-again}
use umbraco_mcp_ops.Prelude.{◌≡◌, refl, none, some, true, false, [], ◌∷◌, ◌⊎◌, ◌≤◌, ◌↔◌, arith}
use mathlib.Core.List.{Memᴰ}
use umbraco_mcp_ops.Graph.Label.{
  tracked, other, ai_ready, auto_merging, auto_reworking, ai_reviewing, ai_stuck,
}
use umbraco_mcp_ops.Graph.Event.{
  Event, labelled_ai_ready, watchdog_expired, labelled_auto_merging, ci_fix_pushed,
}
use umbraco_mcp_ops.Graph.Routine.{
  issue_discuss_loop, issue_build_loop, rework_loop, merge_flow, routine_name,
}
use umbraco_mcp_ops.Graph.Table.{
  untracked, on, label, Rule, rules, external_judgment, deterministic,
}
use umbraco_mcp_ops.Graph.Json.{natural}
use umbraco_mcp_ops.Graph.Outcome.{Outcome, squash, parse_outcome, outcome_name}
use umbraco_mcp_ops.Graph.Gate.{
  derive_gate, passes, any_pending, hard_block_reason, failed_check_names,
}
use umbraco_mcp_ops.Graph.Translate.{
  pull_request_labeled, parse_artifact, Payload, issue_comment_created, person, bot_user,
  blank_payload, owner, outcome_event, translate,
}
use umbraco_mcp_ops.Graph.RoundTrip.{written, parse_outcome-written}
use umbraco_mcp_ops.Graph.Reduce.{reduce, is_watched, label_ops, effect_ops}
use umbraco_mcp_ops.Graph.Order.{reduce_iff_mem}
use umbraco_mcp_ops.Graph.Lifecycle.{expiry_sticks, run-IsWatched, merge_needs_label}
use umbraco_mcp_ops.Graph.GateLaws.{derive_gate-passes_iff}
use umbraco_mcp_ops.Coordinate.DeriveState.{derive_state, settled, derive_tracked}
use umbraco_mcp_ops.Coordinate.LabelEffects.{apply_ops}
use umbraco_mcp_ops.Coordinate.ReadBack.{transition_lands}
use umbraco_mcp_ops.Coordinate.Types.{
  AppliedOutcome, rate_limited, refused, ok, thrown, Deps, World, Input, PendingFire,
  watchdog_minutes_for, deduped, applied, Call, watchdog, run_expired, deps_for, mode_for,
  shadow_deps,
}
use umbraco_mcp_ops.Coordinate.Storage.{
  stamped, has_seen, fresh_fire, set_pending_fire, clear_pending_fire,
}
use umbraco_mcp_ops.Coordinate.Webhook.{
  coordinate_webhook, process_webhook, claim_delivery, release_if_thrown, process_reported,
  process_fresh, process_event, event_or_none, event_known, trusted_event, event_in,
  human_label_change, after_event, remember_if,
}
use umbraco_mcp_ops.Coordinate.Apply.{
  fire_watched, sent, deferred, target_of, apply_event, apply_in, apply_rule, perform_ops,
  perform_op, fire_rule, settle_fire, defer_fire, deferred_for, report_and_throw,
  report_refused_fire, status_after,
}
use umbraco_mcp_ops.Coordinate.Armed.{Armed, coordinate_webhook-Armed}
use umbraco_mcp_ops.Coordinate.Shadow.{
  external_calls, coordinate_webhook-external_calls, coordinate_watchdog-external_calls,
}
use umbraco_mcp_ops.Coordinate.Steps.{
  read, pure, throw, ask, attempt, keep, perform, perform_live, note, clock, when, ◌>>=◌,
}
use umbraco_mcp_ops.Coordinate.OutcomeDedupe.{
  ReportedOutcome, reported_outcome, was_applied, remember_applied, ended_fire,
}
use umbraco_mcp_ops.Coordinate.Rework.{
  release_now, release_later, release_claim, rework_end, ends_rework, push_event,
}
use umbraco_mcp_ops.Coordinate.Events.{route_event, finish_event, result_or_override}

-- The delivery of the label, handled where the routines API accepts the fire and where it refuses it.
abbrev ready_accepted : Deps
ready_accepted = enforcing (ok tt) (tracked ai_ready ∷ [])

abbrev ready_refused : Deps
ready_refused = enforcing (thrown (refused "500")) (tracked ai_ready ∷ [])

abbrev ready_rule : Rule
ready_rule = record {
  from = untracked;
  event = labelled_ai_ready;
  to = label (on ai_ready);
  run = some issue_build_loop;
  verified_by = external_judgment;
}

abbrev ready_after : World
ready_after = (coordinate_webhook ready_accepted ready_input ready_payload start).1

ready_applies :
    coordinate_webhook ready_accepted ready_input ready_payload start
    ≡ (ok (applied untracked labelled_ai_ready ready_rule), ready_after)
unfolding read pure throw ask attempt keep perform perform_live note clock when ◌>>=◌
    coordinate_webhook claim_delivery release_if_thrown process_webhook process_reported
    process_fresh process_event event_or_none event_known trusted_event event_in human_label_change
    after_event remember_if reported_outcome was_applied remember_applied ended_fire release_now
    release_later release_claim rework_end ends_rework push_event route_event finish_event
    result_or_override apply_event apply_in apply_rule perform_ops perform_op fire_rule fire_watched
    settle_fire defer_fire deferred_for report_and_throw report_refused_fire status_after
    set_pending_fire clear_pending_fire derive_state derive_tracked deps_for mode_for shadow_deps
    watchdog_minutes_for translate outcome_event reduce is_watched label_ops effect_ops routine_name
ready_applies = refl

ready_fires : external_calls ready_after.trace ≡ Call.fire issue_build_loop ∷ []
unfolding read pure throw ask attempt keep perform perform_live note clock when ◌>>=◌
    coordinate_webhook claim_delivery release_if_thrown process_webhook process_reported
    process_fresh process_event event_or_none event_known trusted_event event_in human_label_change
    after_event remember_if reported_outcome was_applied remember_applied ended_fire release_now
    release_later release_claim rework_end ends_rework push_event route_event finish_event
    result_or_override apply_event apply_in apply_rule perform_ops perform_op fire_rule fire_watched
    settle_fire defer_fire deferred_for report_and_throw report_refused_fire status_after
    set_pending_fire clear_pending_fire derive_state derive_tracked deps_for mode_for shadow_deps
    watchdog_minutes_for translate outcome_event reduce is_watched label_ops effect_ops routine_name
ready_fires = refl

abbrev ready_thrown : World
ready_thrown = (coordinate_webhook ready_refused ready_input ready_payload start).1

ready_throws :
    coordinate_webhook ready_refused ready_input ready_payload start
    ≡ (thrown (refused "500"), ready_thrown)
unfolding read pure throw ask attempt keep perform perform_live note clock when ◌>>=◌
    coordinate_webhook claim_delivery release_if_thrown process_webhook process_reported
    process_fresh process_event event_or_none event_known trusted_event event_in human_label_change
    after_event remember_if reported_outcome was_applied remember_applied ended_fire release_now
    release_later release_claim rework_end ends_rework push_event route_event finish_event
    result_or_override apply_event apply_in apply_rule perform_ops perform_op fire_rule fire_watched
    settle_fire defer_fire deferred_for report_and_throw report_refused_fire status_after
    set_pending_fire clear_pending_fire derive_state derive_tracked deps_for mode_for shadow_deps
    watchdog_minutes_for translate outcome_event reduce is_watched label_ops effect_ops routine_name
ready_throws = refl

coordinate_webhook-Armed_example : Armed ready_after.store
coordinate_webhook-Armed_example =
    coordinate_webhook-Armed ready_accepted ready_input ready_payload start refl

coordinate_webhook-again_example :
    coordinate_webhook ready_accepted ready_input ready_payload ready_after
    ≡ (ok deduped, ready_after)
coordinate_webhook-again_example =
    coordinate_webhook-again ready_accepted ready_input ready_payload "d-1" start ready_after
      (applied untracked labelled_ai_ready ready_rule) refl ready_applies

coordinate_webhook-released_example : has_seen "d-1" ready_thrown.store.seen ≡ false
coordinate_webhook-released_example =
    coordinate_webhook-released ready_refused ready_input ready_payload "d-1" start ready_thrown
      (refused "500") refl refl ready_throws

coordinate_webhook-external_calls_example :
    external_calls
      (coordinate_webhook
        (watching (tracked ai_ready ∷ []))
        ready_input
        ready_payload
        start).1.trace
    ≡ []
coordinate_webhook-external_calls_example =
    coordinate_webhook-external_calls (watching (tracked ai_ready ∷ [])) ready_input ready_payload
      start (λ e. refl)

-- The label that starts the build is on, besides one that no state has.
transition_lands_example :
    derive_state (
      apply_ops
        (tracked ai_ready ∷ other "bug" ∷ [])
        (label_ops (tracked ai_ready ∷ other "bug" ∷ []) ready_rule))
    ≡ settled (on ai_ready)
unfolding derive_state derive_tracked reduce
transition_lands_example =
    transition_lands labelled_ai_ready (tracked ai_ready ∷ other "bug" ∷ []) untracked ready_rule
      (refl, tt) (omega arith) (λ l h. cc) refl refl

abbrev rework_fire : PendingFire
rework_fire = fresh_fire rework_loop

fire_watched-sent_example :
    ((fire_watched ready_accepted ready_input rework_fire false start).0 ≡ ok sent)
    × ((fire_watched ready_accepted ready_input rework_fire false start).1.store.pending
        ≡ some (stamped ready_accepted 1000000 rework_fire))
    × ((fire_watched ready_accepted ready_input rework_fire false start).1.store.alarm
        ≡ some 2800000)
    × ((fire_watched ready_accepted ready_input rework_fire false start).1.trace
        ≡ Call.arm 2800000 ∷ Call.fire rework_loop ∷ [])
unfolding watchdog_minutes_for
fire_watched-sent_example =
    fire_watched-sent ready_accepted ready_input rework_fire false start tt refl refl

fire_watched-refused_example :
    ((fire_watched ready_refused ready_input rework_fire false start).0 ≡ thrown (refused "500"))
    × ((fire_watched ready_refused ready_input rework_fire false start).1.store.pending ≡ none)
    × ((fire_watched ready_refused ready_input rework_fire false start).1.store.alarm ≡ none)
fire_watched-refused_example =
    fire_watched-refused ready_refused ready_input rework_fire false start "500" refl refl

abbrev limited : Deps
limited = enforcing (thrown (rate_limited "429" 5000000)) []

fire_watched-deferred_example :
    ((fire_watched limited ready_input rework_fire false start).0 ≡ ok deferred)
    × ((fire_watched limited ready_input rework_fire false start).1.store.pending
        ≡ some (stamped limited 1000000 (record rework_fire { defer_until = some 5012000 })))
    × ((fire_watched limited ready_input rework_fire false start).1.store.alarm ≡ some 5012000)
fire_watched-deferred_example =
    fire_watched-deferred limited ready_input rework_fire false start "429" 5000000 refl refl

-- A rework that is out since the time 0, due at 1800000.
abbrev out_rework : PendingFire
out_rework = record rework_fire { due_at = some 1800000; fired_at = some 0 }

-- The same, due long ago.
abbrev overdue_rework : PendingFire
overdue_rework = record rework_fire { due_at = some 900000; fired_at = some 0 }

abbrev waiting_long : World
waiting_long = record start {
  store = record empty_store { pending = some overdue_rework; alarm = some 900000 };
}

abbrev waiting : World
waiting = record start {
  store = record empty_store { pending = some out_rework; alarm = some 1800000 };
}

abbrev stuck_deps : Deps
stuck_deps = enforcing (ok tt) (tracked auto_reworking ∷ [])

abbrev expired_after : World
expired_after =
    (expire_pending_fire stuck_deps ready_input out_rework (run_expired rework_loop none) watchdog
      waiting).1

abbrev expiry_rule : Rule
expiry_rule = record {
  from = on auto_reworking;
  event = watchdog_expired;
  to = label (on ai_stuck);
  run = none;
  verified_by = deterministic;
}

expiry_applies :
    expire_pending_fire stuck_deps ready_input out_rework
      (run_expired rework_loop none)
      watchdog
      waiting
    ≡ (ok (applied (on auto_reworking) watchdog_expired expiry_rule), expired_after)
unfolding expire_pending_fire read pure throw ask attempt keep perform perform_live note clock when
    ◌>>=◌ coordinate_webhook claim_delivery release_if_thrown process_webhook process_reported
    process_fresh process_event event_or_none event_known trusted_event event_in human_label_change
    after_event remember_if reported_outcome was_applied remember_applied ended_fire release_now
    release_later release_claim rework_end ends_rework push_event route_event finish_event
    result_or_override apply_event apply_in apply_rule perform_ops perform_op fire_rule fire_watched
    settle_fire defer_fire deferred_for report_and_throw report_refused_fire status_after
    set_pending_fire clear_pending_fire derive_state derive_tracked deps_for mode_for shadow_deps
    watchdog_minutes_for translate outcome_event reduce is_watched label_ops effect_ops routine_name
expiry_applies = refl

expire_pending_fire-ends_example :
    (expired_after.store.pending ≡ none) × (expired_after.store.alarm ≡ none)
expire_pending_fire-ends_example =
    expire_pending_fire-ends stuck_deps ready_input out_rework (run_expired rework_loop none)
      watchdog waiting expired_after (applied (on auto_reworking) watchdog_expired expiry_rule)
      expiry_applies

-- A PR under `auto-merging` that was reworked twice.
abbrev merging_deps : Deps
merging_deps = enforcing (ok tt) (tracked auto_merging ∷ [])

abbrev tried_twice : World
tried_twice = record start {
  store = record empty_store {
    ci_fix = some (record { attempts = 2; pending = false; return_to = none });
  };
}

hand_to_rework-Within_example :
    attempts_of
      (hand_to_rework merging_deps ready_input
        (tracked auto_merging ∷ [])
        red
        tried_twice).1.store.ci_fix
    ≤ 3
hand_to_rework-Within_example =
    hand_to_rework-Within merging_deps ready_input (tracked auto_merging ∷ []) red tried_twice
      (omega arith)

hand_review_to_rework-Within_example :
    attempts_of
      (hand_review_to_rework merging_deps ready_input
        (tracked ai_reviewing ∷ [])
        red
        tried_twice).1.store.ci_fix
    ≤ 3
hand_review_to_rework-Within_example =
    hand_review_to_rework-Within merging_deps ready_input (tracked ai_reviewing ∷ []) red
      tried_twice (omega arith)

handle_review_findings-Within_example :
    rounds_of
      (handle_review_findings merging_deps ready_input
        (tracked ai_reviewing ∷ [])
        tried_twice).1.store.review_loop
    ≤ 3
handle_review_findings-Within_example =
    handle_review_findings-Within merging_deps ready_input (tracked ai_reviewing ∷ []) tried_twice
      (omega arith)

-- The comment of a build that is done, and a storage that remembers it.
abbrev built_payload : Payload
built_payload = record (blank_payload issue_comment_created) {
  sender = some (record { login = "builder"; user_type = bot_user });
  comment = some (record { body = "done"; association = some owner; user_type = some bot_user });
}

abbrev built_outcome : ReportedOutcome
built_outcome = record { routine = "issue-build-loop"; outcome = Event.build_succeeded }

abbrev built_once : AppliedOutcome
built_once = record { run = issue_build_loop; fired_at = some 0; outcome = Event.build_succeeded }

abbrev remembered : World
remembered = record start { store = record empty_store { applied = λ r. some built_once } }

process_webhook-again_example :
    ((process_webhook ready_accepted ready_input built_payload remembered).1.store
      ≡ remembered.store)
    × (external_calls (process_webhook ready_accepted ready_input built_payload remembered).1.trace
        ≡ [])
unfolding reported_outcome parse_artifact parse_outcome outcome_name outcome_event
process_webhook-again_example =
    process_webhook-again ready_accepted ready_input built_payload built_outcome built_once
      remembered refl refl refl tt

was_applied_iff_example :
    (was_applied built_outcome remembered.store ≡ true)
    ↔ WasApplied built_outcome (some built_once) none
was_applied_iff_example = was_applied_iff built_outcome remembered.store

reduce_iff_mem_example :
    (reduce untracked labelled_ai_ready ≡ some ready_rule)
    ↔ (Memᴰ ready_rule rules × (untracked ≡ untracked) × (labelled_ai_ready ≡ labelled_ai_ready))
reduce_iff_mem_example = reduce_iff_mem untracked labelled_ai_ready ready_rule

run-IsWatched_example : (issue_build_loop ≡ issue_discuss_loop) ⊎ (is_watched (on ai_ready) ≡ true)
unfolding reduce
run-IsWatched_example =
    run-IsWatched untracked labelled_ai_ready ready_rule issue_build_loop refl refl

expiry_sticks_example :
    (expiry_rule.to ≡ label (on ai_stuck))
    × (expiry_rule.run ≡ none)
    × (is_watched (target_of (on auto_reworking) expiry_rule.to) ≡ false)
unfolding reduce
expiry_sticks_example = expiry_sticks (on auto_reworking) expiry_rule refl

abbrev merge_rule : Rule
merge_rule = record {
  from = untracked;
  event = labelled_auto_merging;
  to = label (on auto_merging);
  run = some merge_flow;
  verified_by = external_judgment;
}

merge_needs_label_example :
    ((labelled_auto_merging ≡ labelled_auto_merging)
      ⊎ ((labelled_auto_merging ≡ ci_fix_pushed) × (untracked ≡ on auto_reworking)))
    × (merge_rule.run ≡ some merge_flow)
unfolding reduce
merge_needs_label_example = merge_needs_label untracked labelled_auto_merging merge_rule refl refl

derive_gate-passes_iff_example : (derive_gate green ≡ passes) ↔ (
    (any_pending green ≡ false)
    × (green.mergeable ≡ some true)
    × (hard_block_reason green ≡ none)
    × (failed_check_names green ≡ []))
derive_gate-passes_iff_example = derive_gate-passes_iff green

parse_outcome-written_example :
    parse_outcome (written (Outcome.release_approved (natural 9) "abc" "1.2.0" squash))
    ≡ some (Outcome.release_approved (natural 9) "abc" "1.2.0" squash)
parse_outcome-written_example =
    parse_outcome-written (Outcome.release_approved (natural 9) "abc" "1.2.0" squash)

coordinate_watchdog-external_calls_example :
    external_calls
      (coordinate_watchdog
        (watching (tracked auto_reworking ∷ []))
        ready_input
        waiting_long).1.trace
    ≡ []
coordinate_watchdog-external_calls_example =
    coordinate_watchdog-external_calls (watching (tracked auto_reworking ∷ [])) ready_input
      overdue_rework waiting_long (λ e. refl) refl refl

-- A reviewer asks for a rework of a PR that had three.
abbrev rework_payload : Payload
rework_payload = record (blank_payload pull_request_labeled) {
  sender = some (record { login = "maintainer"; user_type = person });
  label = some (tracked auto_reworking);
}

abbrev rework_input : Input
rework_input = record {
  item = 7;
  delivery = some "d-2";
  actor = none;
  payload = some rework_payload;
}

abbrev reworked_thrice : World
reworked_thrice = record start { store = record empty_store { review_reworks = 3 } }

coordinate_webhook-Within_example :
    (coordinate_webhook stuck_deps rework_input rework_payload
      reworked_thrice).1.store.review_reworks
    ≤ 3
coordinate_webhook-Within_example =
    coordinate_webhook-Within stuck_deps rework_input rework_payload reworked_thrice (omega arith)
