-- ===== src/Coordinate/Requests.antt =====
-- worker/src/issue-coordinator.ts, `fetch`, `alarm` and `serial`: what comes in for one item, one at a
-- time, in any order.
use umbraco_mcp_ops.Prelude.{ℕ, ◌≡◌, refl, Option, none, some, ◌⊎◌, inl, inr, List, [], ◌∷◌}
use umbraco_mcp_ops.Graph.Signal.{RoutineSignal}
use umbraco_mcp_ops.Graph.Translate.{Payload}
use umbraco_mcp_ops.Coordinate.Types.{World, Store, Deps, Input, PendingFire}
use umbraco_mcp_ops.Coordinate.Webhook.{coordinate_webhook}
use umbraco_mcp_ops.Coordinate.Watchdog.{coordinate_watchdog}
use umbraco_mcp_ops.Coordinate.RoutineSignal.{coordinate_signal}
use umbraco_mcp_ops.Coordinate.Reconcile.{SweepAsk, coordinate_reconcile}
use umbraco_mcp_ops.Coordinate.Storage.{stamped, due_time}
use umbraco_mcp_ops.Coordinate.Preserve.{Frame, Acts, Claims}
use umbraco_mcp_ops.Coordinate.Preserve.Watch.{Watch, Watch-Acts, Watch-Frame, Watch-Claims}
use umbraco_mcp_ops.Coordinate.Preserve.Webhook.{coordinate_webhook-Preserves}
use umbraco_mcp_ops.Coordinate.Preserve.Watchdog.{coordinate_watchdog-Preserves}
use umbraco_mcp_ops.Coordinate.Preserve.RoutineSignal.{coordinate_signal-Preserves}
use umbraco_mcp_ops.Coordinate.Preserve.Reconcile.{coordinate_reconcile-Preserves}

-- A webhook, a routine's signal, the sweep's question, and the item's alarm: the platform takes the
-- alarm when its time comes (`ring`), and runs the watchdog after what is being served.
pub data Request : Type 0 where
  webhook : Input → Payload → Request
  signal : RoutineSignal → Request
  reconcile : SweepAsk → ℕ → Request
  ring : Request
  alarm : Input → Request

abbrev pub no_alarm : World → World
no_alarm w = record w { store = record w.store { alarm = none } }

-- The world that a request leaves, whether it returned or threw.
abbrev pub after : Deps → Request → World → World
after d (webhook input p) w = (coordinate_webhook d input p w).1
after d (signal s) w = (coordinate_signal d s w).1
after d (reconcile a n) w = (coordinate_reconcile d a n w).1
after d ring w = no_alarm w
after d (alarm input) w = (coordinate_watchdog d input w).1

-- A request and how the outside answers it.
pub record Turn : Type 0 where
  pub deps : Deps
  pub request : Request

abbrev pub after_turns : List Turn → World → World
after_turns [] w = w
after_turns (t ∷ ts) w = after_turns ts (after t.deps t.request w)

-- What every request but the ring of the alarm keeps.
after-at :
    {P : World → Type 0} (d : Deps) (r : Request) (w : World)
    → Frame P d
    → Acts P d
    → Claims P
    → (P w → P (no_alarm w))
    → P w
    → P (after d r w)
after-at d (webhook input p) w F A C n h = (coordinate_webhook-Preserves input p F C).at w h
after-at d (signal s) w F A C n h = (coordinate_signal-Preserves s F C).at w h
after-at d (reconcile a k) w F A C n h = (coordinate_reconcile-Preserves a k F A).at w h
after-at d ring w F A C n h = n h
after-at d (alarm input) w F A C n h = (coordinate_watchdog-Preserves input F A C).at w h

-- An alarm that is set is the pending fire's, at its due time.
abbrev pub OwnedAs : Option PendingFire → Option ℕ → Type 0
OwnedAs none at = at ≡ none
OwnedAs (some p) at = (at ≡ none) ⊎ (at ≡ p.due_at)

abbrev pub Owned : Store → Type 0
Owned s = OwnedAs s.pending s.alarm

OwnedAs-none : (q : Option PendingFire) → OwnedAs q none
OwnedAs-none none = refl
OwnedAs-none (some p) = inl refl

OwnedAs-stamped :
    (d : Deps) (now : ℕ) (info : PendingFire)
    → OwnedAs (some (stamped d now info)) (some (due_time d now info))
OwnedAs-stamped d now info = inr refl

after-Owned : (d : Deps) (r : Request) (w : World) → Owned w.store → Owned (after d r w).store
unfolding Watch
after-Owned d r w h =
    after-at {P = Watch OwnedAs} d r w (Watch-Frame OwnedAs OwnedAs-stamped refl d)
      (Watch-Acts OwnedAs OwnedAs-stamped refl d) (Watch-Claims OwnedAs)
      (λ _. OwnedAs-none w.store.pending) h

-- After any requests, in any order, whatever the outside answers to each and whether it returns or
-- throws, no stray alarm is left: without a pending fire none is set, and with one it is either
-- gone, taken by the platform, or at that fire's due time.
pub after_turns-Owned :
    (ts : List Turn) (w : World) → Owned w.store → Owned (after_turns ts w).store
after_turns-Owned [] w h = h
after_turns-Owned (t ∷ ts) w h =
    after_turns-Owned ts (after t.deps t.request w) (after-Owned t.deps t.request w h)
