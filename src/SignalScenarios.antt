-- ===== src/SignalScenarios.antt =====
-- The theorems on the signals of one run, and on the alarm of its item.
use umbraco_mcp_ops.Prelude.{◌≡◌, ◌+◌, ◌*◌, refl, some, [], ◌∷◌, List}
use umbraco_mcp_ops.Graph.Label.{tracked, ai_ready, ai_stuck}
use umbraco_mcp_ops.Graph.Routine.{issue_build_loop, rework_loop}
use umbraco_mcp_ops.Graph.Json.{Json, natural}
use umbraco_mcp_ops.Graph.Outcome.{Outcome}
use umbraco_mcp_ops.Graph.Signal.{RoutineSignal, SignalKind, UpdateKind, parse_signal}
use umbraco_mcp_ops.Coordinate.Types.{ok, World, PendingFire, Deps, watchdog_minutes_for}
use umbraco_mcp_ops.Coordinate.Storage.{fresh_fire, stamped, clear_pending_fire}
use umbraco_mcp_ops.Coordinate.Steps.{
  read, pure, throw, ask, attempt, keep, perform, perform_live, note, clock, when, ◌>>=◌,
}
use umbraco_mcp_ops.Coordinate.DeriveState.{derive_state, derive_tracked}
use umbraco_mcp_ops.Coordinate.Armed.{Armed}
use umbraco_mcp_ops.Coordinate.Watchdog.{
  coordinate_watchdog, deferred_fire_dropped, alarm_of, due_alarm, deferred_alarm, send_deferred,
  drop_deferred, still_wanted,
}
use umbraco_mcp_ops.Coordinate.RoutineSignal.{
  coordinate_signal, heartbeat_extended, blocked_already_noted,
}
use umbraco_mcp_ops.Coordinate.Renewal.{coordinate_watchdog-renews}
use umbraco_mcp_ops.Coordinate.Requests.{
  after_turns, after_turns-Owned, Turn, Owned, webhook, signal, ring, alarm,
}
use umbraco_mcp_ops.Coordinate.Signals.{coordinate_signal-stray, coordinate_signal-heartbeat}
use umbraco_mcp_ops.Coordinate.BlockedOnce.{coordinate_signal-blocked_once}
use umbraco_mcp_ops.Coordinate.Shadow.{external_calls}
use umbraco_mcp_ops.Fixtures.{enforcing, empty_store, start, ready_input, ready_payload}

abbrev ready : Deps
ready = enforcing (ok tt) (tracked ai_ready ∷ [])

abbrev stuck : Deps
stuck = enforcing (ok tt) (tracked ai_stuck ∷ [])

-- issue-build-loop runs for issue 42, due in an hour.
abbrev building : PendingFire
building = stamped ready 900000 (fresh_fire issue_build_loop)

abbrev while_building : World
while_building = record start {
  store = record empty_store { pending = some building; alarm = building.due_at };
}

abbrev step_signal : RoutineSignal
step_signal = record {
  routine = issue_build_loop;
  issue = 42;
  kind = SignalKind.process "tests pass";
}

abbrev blocked_signal : RoutineSignal
blocked_signal = record {
  routine = issue_build_loop;
  issue = 42;
  kind = SignalKind.blocked (Json.text "Bash(npm publish)");
}

abbrev built : Outcome
built = Outcome.build_succeeded (natural 31)

abbrev other_signal : RoutineSignal
other_signal = record { routine = rework_loop; issue = 42; kind = SignalKind.process "pushed" }

step_parses :
    parse_signal step_signal
    ≡ some
        (record { routine = issue_build_loop; issue = 42; kind = UpdateKind.process "tests pass" })
unfolding parse_signal
step_parses = refl

blocked_parses :
    parse_signal blocked_signal
    ≡ some (record {
      routine = issue_build_loop;
      issue = 42;
      kind = UpdateKind.blocked "Bash(npm publish)";
    })
unfolding parse_signal
blocked_parses = refl

other_parses :
    parse_signal other_signal
    ≡ some (record { routine = rework_loop; issue = 42; kind = UpdateKind.process "pushed" })
unfolding parse_signal
other_parses = refl

coordinate_signal-stray_example :
    (coordinate_signal ready other_signal while_building).1.store ≡ while_building.store
coordinate_signal-stray_example =
    coordinate_signal-stray ready other_signal _ while_building other_parses refl

coordinate_signal-heartbeat_example :
    ((coordinate_signal ready step_signal while_building).0 ≡ ok heartbeat_extended)
    × ((coordinate_signal ready step_signal while_building).1.store.pending
        ≡ some (
            stamped ready 1000000
              (record building { last_step = some "tests pass"; last_step_at = some 1000000 })))
    × ((coordinate_signal ready step_signal while_building).1.store.alarm
        ≡ some (1000000 + ready.watchdog_minutes issue_build_loop * 60000))
coordinate_signal-heartbeat_example =
    coordinate_signal-heartbeat ready step_signal 42 building while_building refl refl "tests pass"
      step_parses

coordinate_signal-blocked_once_example :
    ((coordinate_signal ready blocked_signal
        (coordinate_signal ready blocked_signal while_building).1).0
      ≡ ok blocked_already_noted)
    × (external_calls
          (coordinate_signal ready blocked_signal
            (coordinate_signal ready blocked_signal while_building).1).1.trace
        ≡ external_calls (coordinate_signal ready blocked_signal while_building).1.trace)
coordinate_signal-blocked_once_example =
    coordinate_signal-blocked_once ready blocked_signal blocked_signal 42 building while_building
      "Bash(npm publish)" "Bash(npm publish)" refl refl blocked_parses blocked_parses

-- A label, a report, the alarm taken and handled.
abbrev a_day : List Turn
a_day =
    record { deps = ready; request = webhook ready_input ready_payload }
    ∷ record { deps = ready; request = signal step_signal }
    ∷ record { deps = ready; request = ring }
    ∷ record { deps = ready; request = alarm ready_input }
    ∷ []

after_turns-Owned_example : Owned (after_turns a_day start).store
after_turns-Owned_example = after_turns-Owned a_day start refl

-- The fire of rework-loop waits out a rate limit, and its alarm came when the item was stuck.
abbrev waiting : PendingFire
waiting = stamped stuck 900000 (record (fresh_fire rework_loop) { defer_until = some 990000 })

abbrev rung : World
rung = record start { store = record empty_store { pending = some waiting } }

abbrev rung_after : World
rung_after = (coordinate_watchdog stuck ready_input rung).1

rung_drops :
    coordinate_watchdog stuck ready_input rung
    ≡ (ok (deferred_fire_dropped rework_loop), rung_after)
unfolding coordinate_watchdog alarm_of due_alarm deferred_alarm send_deferred drop_deferred
    still_wanted derive_state derive_tracked clear_pending_fire read pure throw ask attempt keep
    perform perform_live note clock when ◌>>=◌ watchdog_minutes_for
rung_drops = refl

coordinate_watchdog-renews_example : Armed rung_after.store
unfolding watchdog_minutes_for
coordinate_watchdog-renews_example =
    coordinate_watchdog-renews stuck ready_input waiting rung rung_after
      (deferred_fire_dropped rework_loop) refl refl refl rung_drops
