-- ===== src/Coordinate/Armed.antt =====
-- The alarm and the pending fire of worker/src/issue-coordinator.ts, over whole requests.
use umbraco_mcp_ops.Prelude.{ℕ, ◌≡◌, refl, Option, none, some, is_some, true}
use umbraco_mcp_ops.Graph.Translate.{Payload}
use umbraco_mcp_ops.Coordinate.Types.{World, Store, Deps, Input, PendingFire}
use umbraco_mcp_ops.Coordinate.Webhook.{coordinate_webhook}
use umbraco_mcp_ops.Coordinate.Preserve.Watch.{Watch, Watch-Frame, Watch-Claims}
use umbraco_mcp_ops.Coordinate.Preserve.Webhook.{coordinate_webhook-Preserves}

-- With a pending fire the alarm stands at its due time, and its fire time is known; without one there
-- is no alarm.
abbrev pub ArmedAs : Option PendingFire → Option ℕ → Type 0
ArmedAs none alarm = alarm ≡ none
ArmedAs (some p) alarm = (p.due_at ≡ alarm) × (is_some alarm ≡ true) × (is_some p.fired_at ≡ true)

abbrev pub Armed : Store → Type 0
Armed s = ArmedAs s.pending s.alarm

-- A webhook, whatever the outside answers and whether it returns or throws, keeps the alarm with
-- the pending fire: with a pending fire the alarm is set, at its due time, and its fire time is
-- known, and without one there is no alarm.
pub coordinate_webhook-Armed :
    (d : Deps) (input : Input) (p : Payload) (w : World)
    → Armed w.store
    → Armed (coordinate_webhook d input p w).1.store
unfolding Watch
coordinate_webhook-Armed d input p w h =
    (coordinate_webhook-Preserves input p (Watch-Frame ArmedAs (λ d n i. (refl, refl, refl)) refl d)
        (Watch-Claims ArmedAs)).at
      w h
