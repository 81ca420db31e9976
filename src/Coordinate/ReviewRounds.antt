-- ===== src/Coordinate/ReviewRounds.antt =====
-- The rounds of rework that reviewers ask for, over whole webhooks (worker/src/coordinate/webhook.ts).
use umbraco_mcp_ops.Prelude.{ℕ, ◌≤◌, ◌≡◌, refl}
use umbraco_mcp_ops.Graph.Translate.{Payload}
use umbraco_mcp_ops.Coordinate.Types.{World, Store, Deps, Input, PendingFire, deps_for, Call}
use umbraco_mcp_ops.Coordinate.Steps.{pure, keep, perform, perform_live, note}
use umbraco_mcp_ops.Coordinate.Storage.{set_pending_fire, clear_pending_fire, set_review_reworks}
use umbraco_mcp_ops.Coordinate.Webhook.{coordinate_webhook}
use umbraco_mcp_ops.Coordinate.Preserve.{
  Preserves, Core, Frame, Claims, if-Preserves, pure-Preserves, bind-Preserves, clock-Preserves,
}
use umbraco_mcp_ops.Coordinate.Preserve.Webhook.{coordinate_webhook-Preserves}

ReworksWithin : ℕ → World → Type 0
ReworksWithin cap w = w.store.review_reworks ≤ cap

module _ (cap : ℕ) where
  perform-ReworksWithin : (d : Deps) (c : Call) → Preserves (ReworksWithin cap) (perform d c)
  unfolding perform ReworksWithin
  perform-ReworksWithin d c = record { at = λ w h. h }

  perform_live-ReworksWithin :
      (d : Deps) (c : Call) → Preserves (ReworksWithin cap) (perform_live d c)
  unfolding perform_live
  perform_live-ReworksWithin d c =
      if-Preserves d.live (perform d c) (pure tt) (perform-ReworksWithin d c) (pure-Preserves tt)

  note-ReworksWithin : (c : Call) → Preserves (ReworksWithin cap) (note c)
  unfolding note ReworksWithin
  note-ReworksWithin c = record { at = λ w h. h }

  keep-ReworksWithin :
      (f : Store → Store)
      → ((s : Store) → (f s).review_reworks ≡ s.review_reworks)
      → Preserves (ReworksWithin cap) (keep f)
  unfolding keep ReworksWithin
  keep-ReworksWithin f p = record { at = λ w h. rw (p w.store) h }

  set_pending_fire-ReworksWithin :
      (d : Deps) (info : PendingFire) → Preserves (ReworksWithin cap) (set_pending_fire d info)
  unfolding set_pending_fire
  set_pending_fire-ReworksWithin d info =
      search (bind-Preserves, clock-Preserves, keep-ReworksWithin, note-ReworksWithin) depth 20

  clear_pending_fire-ReworksWithin : Preserves (ReworksWithin cap) clear_pending_fire
  unfolding clear_pending_fire
  clear_pending_fire-ReworksWithin = search (bind-Preserves, keep-ReworksWithin, note-ReworksWithin)

  set_review_reworks-ReworksWithin :
      (n : ℕ) → n ≤ cap → Preserves (ReworksWithin cap) (set_review_reworks n)
  unfolding keep ReworksWithin
  set_review_reworks-ReworksWithin n h = record { at = λ w k. h }

  ReworksWithin-Core : (d : Deps) → Core (ReworksWithin cap) d
  unfolding ReworksWithin
  ReworksWithin-Core d = record {
    acts = λ e. record {
      live = perform_live-ReworksWithin (deps_for d e);
      arm = set_pending_fire-ReworksWithin (deps_for d e);
    };
    asks = λ w h. h;
    logs = λ d' r. perform-ReworksWithin d' (Call.log r);
    forwards = λ d' n p id. perform-ReworksWithin d' (Call.forward n p id);
    says = λ u. note-ReworksWithin (Call.status u);
    clears = clear_pending_fire-ReworksWithin;
    applies = λ run a. keep-ReworksWithin _ (λ s. refl);
  }

ReworksWithin-Frame : (d : Deps) → Frame (ReworksWithin d.caps.review_reworks) d
ReworksWithin-Frame d = record {
  core = ReworksWithin-Core d.caps.review_reworks d;
  keeps = λ f p q r v. keep-ReworksWithin d.caps.review_reworks f v;
  rounds = λ n h. set_review_reworks-ReworksWithin d.caps.review_reworks n h;
}

ReworksWithin-Claims : (cap : ℕ) → Claims (ReworksWithin cap)
ReworksWithin-Claims cap = record {
  marks = λ id. keep-ReworksWithin cap _ (λ s. refl);
  unmarks = λ id. keep-ReworksWithin cap _ (λ s. refl);
}

-- A webhook, whatever the outside answers and whether it returns or throws, keeps the count of the
-- rounds of rework that reviewers asked for within its cap.
pub coordinate_webhook-Within :
    (d : Deps) (input : Input) (p : Payload) (w : World)
    → w.store.review_reworks ≤ d.caps.review_reworks
    → (coordinate_webhook d input p w).1.store.review_reworks ≤ d.caps.review_reworks
unfolding ReworksWithin
coordinate_webhook-Within d input p w h =
    (coordinate_webhook-Preserves {P = ReworksWithin d.caps.review_reworks} input p
        (ReworksWithin-Frame d) (ReworksWithin-Claims d.caps.review_reworks)).at
      w h
