-- ===== src/SweepScenarios.antt =====
-- The theorems on the sweep's question to one issue, and on a sweep over two repos.
use umbraco_mcp_ops.Prelude.{
  String, ◌≡◌, ◌≤◌, refl, none, some, true, false, List, [], ◌∷◌, inl, length, is_some, any, arith,
  str_eq,
}
use umbraco_mcp_ops.Graph.Label.{tracked, ai_ready}
use umbraco_mcp_ops.Graph.Routine.{issue_build_loop}
use umbraco_mcp_ops.Graph.Reduce.{reduce}
use umbraco_mcp_ops.Coordinate.Types.{
  ok, thrown, refused, World, PendingFire, Deps, Failure, watchdog_minutes_for,
}
use umbraco_mcp_ops.Coordinate.Storage.{fresh_fire, stamped}
use umbraco_mcp_ops.Coordinate.DeriveState.{derive_state, derive_tracked}
use umbraco_mcp_ops.Coordinate.Reconcile.{
  SweepAsk, Left, coordinate_reconcile, recent, would_refire, idle_since, report_once, run_for,
}
use umbraco_mcp_ops.Coordinate.Shadow.{external_calls}
use umbraco_mcp_ops.Coordinate.Sweep.{
  coordinate_reconcile-external_calls, coordinate_reconcile-recent, report_once-again,
}
use umbraco_mcp_ops.Scheduler.{
  SweepSummary, no_summary, ask_for, sweep_item, Reader, SchedulerEnv, Surroundings, Scheduler,
  item, sweep_with, is_off,
}
use umbraco_mcp_ops.Scheduler.Chain.{ensured, rang, ended, after_ticks, after_ticks-alarm}
use umbraco_mcp_ops.Scheduler.Budget.{sweep_with-max_refires, sweep_item-spent}
use umbraco_mcp_ops.Scheduler.Paused.{asked_of, sweep_with-paused}
use umbraco_mcp_ops.Fixtures.{enforcing, empty_store, start}

abbrev ready : Deps
ready = enforcing (ok tt) (tracked ai_ready ∷ [])

abbrev within_cap : SweepAsk
within_cap = record { enforced = true; budget = true; updated_at = some 900000 }

abbrev over_cap : SweepAsk
over_cap = record { enforced = true; budget = false; updated_at = none }

abbrev building : PendingFire
building = stamped ready 900000 (fresh_fire issue_build_loop)

abbrev while_building : World
while_building = record start {
  store = record empty_store { pending = some building; alarm = building.due_at };
}

coordinate_reconcile-external_calls_example :
    external_calls (coordinate_reconcile ready over_cap 42 start).1.trace ≡ []
coordinate_reconcile-external_calls_example =
    coordinate_reconcile-external_calls ready over_cap 42 start (inl refl)

coordinate_reconcile-recent_example :
    coordinate_reconcile ready within_cap 42 start
    ≡ (ok (recent (idle_since 1000000 900000)), record start { calls = 2 })
unfolding derive_state derive_tracked run_for reduce watchdog_minutes_for
coordinate_reconcile-recent_example =
    coordinate_reconcile-recent ready within_cap 42 start (tracked ai_ready ∷ []) ai_ready
      issue_build_loop none 900000 refl refl refl refl refl refl (omega arith)

abbrev left : Left
left = record {
  item = 42;
  labels = tracked ai_ready ∷ [];
  label = ai_ready;
  run = issue_build_loop;
  idle = none;
  last = none;
  held = none;
}

report_once-again_example :
    report_once ready left (report_once ready left start).1
    ≡ (ok (would_refire issue_build_loop none true none), (report_once ready left start).1)
report_once-again_example = report_once-again ready left start

-- Settings with every default, over two repos, one of them switched off; each has one issue that was
-- left behind.
abbrev reader : Reader
reader = record {
  positive_minutes = λ v. none;
  whole_number = λ v. some 1;
  keys = λ s. ok ("acme/app" ∷ "acme/site" ∷ []);
  listed = λ s. [];
  lower = λ s. s;
}

abbrev env : SchedulerEnv
env = record {
  reader = reader;
  repo_routines_json = "{}";
  sweep_minutes = none;
  sweep_mode = some "enforce";
  sweep_enforce_repos = none;
  sweep_idle_minutes = none;
  sweep_max_refires = some "1";
}

abbrev around : Surroundings
around = record {
  off = ok ("acme/site" ∷ []);
  found = λ r.
      ok (
        record { number = 42; updated_at = none } ∷ record { number = 43; updated_at = none } ∷ []);
  reach = λ r n. item ready start;
}

abbrev both : List String
both = "acme/app" ∷ "acme/site" ∷ []

sweep_with-max_refires_example : length (sweep_with env around both around.off).refired ≤ 1
sweep_with-max_refires_example = sweep_with-max_refires env around both around.off

abbrev one_refired : SweepSummary
one_refired = record (no_summary both) { refired = ("acme/app", 41) ∷ [] }

sweep_item-spent_example :
    (external_calls
        (coordinate_reconcile ready
          (ask_for env "acme/app" (record { number = 42; updated_at = none }) one_refired)
          42
          start).1.trace
      ≡ external_calls start.trace)
    × ((sweep_item env around "acme/app"
          (record { number = 42; updated_at = none })
          one_refired).refired
        ≡ ("acme/app", 41) ∷ [])
sweep_item-spent_example =
    sweep_item-spent env around "acme/app" (record { number = 42; updated_at = none }) one_refired
      ready start refl (omega arith)

sweep_with-paused_example :
    ((off : List String)
      → is_off env off "acme/site" ≡ true
      → asked_of "acme/site" (sweep_with env around both (ok off)) ≡ false)
    × ((e : Failure)
        → any (str_eq "acme/site") both ≡ true
        → asked_of "acme/site" (sweep_with env around both (thrown e)) ≡ false)
sweep_with-paused_example = sweep_with-paused env around both "acme/site"

abbrev awake : Scheduler
awake = record { alarm = some 900000; last_ensure = 0 }

after_ticks-alarm_example :
    is_some
      (after_ticks env
        (rang 900000 ∷ ended 900000 (thrown (refused "500")) ∷ ensured 950000 ∷ [])
        awake).alarm
    ≡ true
after_ticks-alarm_example =
    after_ticks-alarm env
      (rang 900000 ∷ ended 900000 (thrown (refused "500")) ∷ ensured 950000 ∷ []) awake refl
