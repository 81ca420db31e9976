-- ===== src/Coordinate/Recovery.antt =====
-- worker/src/coordinate/watchdog.ts, `recoverOutcome`: an outcome comment whose webhook was lost.
use umbraco_mcp_ops.Prelude.{
  ℕ, String, Bool, false, not, ◌&&◌, Option, none, some, List, [], ◌∷◌, ltb, if◌then◌else◌, str_eq,
}
use umbraco_mcp_ops.Graph.Event.{watchdog_expired}
use umbraco_mcp_ops.Graph.Routine.{routine_name, same_routine}
use umbraco_mcp_ops.Graph.Table.{State}
use umbraco_mcp_ops.Coordinate.DeriveState.{settled}
use umbraco_mcp_ops.Coordinate.Types.{
  no_effect, watchdog_recovered, IssueComment, applied, mode_for, domain, PendingFire, done, Answer,
  ok, thrown, Deps, Input, watchdog, CoordinateResult,
}
use umbraco_mcp_ops.Coordinate.Steps.{Step, pure, throw, read, ask, attempt, when, ◌>>=◌, ◌>>◌}
use umbraco_mcp_ops.Coordinate.Storage.{clear_pending_fire, record_status}
use umbraco_mcp_ops.Coordinate.Apply.{row, log_row}
use Prim.Native.String.{◌++◌ as join}
use mathlib.Core.List.{reverse}
use umbraco_mcp_ops.Graph.Json.{natural}
use umbraco_mcp_ops.Graph.Translate.{Payload, open_issue, issue_comment_created, blank_payload}
use umbraco_mcp_ops.Coordinate.OutcomeDedupe.{other_time}
use umbraco_mcp_ops.Coordinate.Webhook.{coordinate_webhook}

abbrev same_marker : Option String → String → Bool
same_marker none r = false
same_marker (some m) r = str_eq m r

-- Whether the fire of an earlier reading is still the pending one.
abbrev pub still_pending : PendingFire → Option PendingFire → Bool
still_pending p none = false
still_pending p (some q) = same_routine q.run p.run && not (other_time q.due_at p.due_at)

-- An outcome comment posted since the fire, by the routine that was fired.
abbrev pub is_candidate : Deps → PendingFire → ℕ → IssueComment → Bool
is_candidate d pending fired c =
    not (ltb c.created_at fired)
    && same_marker (d.outside.engine.marker c.body) (routine_name pending.run)

-- The comment as the webhook that was lost.
abbrev pub replay_payload : IssueComment → Payload
replay_payload c = record (blank_payload issue_comment_created) {
  sender = some (record { login = c.login; user_type = c.user_type });
  comment =
      some
        (record { body = c.body; association = some c.association; user_type = some c.user_type });
  issue = some (record { state = some open_issue; is_pr = some false });
}

-- A delivery id of its own for each replayed comment.
replay_id : Deps → PendingFire → ℕ → IssueComment → String
replay_id d pending fired c = join "watchdog-recover:" (
    join (routine_name pending.run) (
      join ":" (
        join (d.outside.engine.show (natural fired))
          (join ":" (d.outside.engine.show (natural c.created_at))))))

abbrev replay_input : Deps → Input → PendingFire → ℕ → IssueComment → Input
replay_input d input pending fired c = record {
  item = input.item;
  delivery = some (replay_id d pending fired c);
  actor = some watchdog;
  payload = some (replay_payload c);
}

-- A recovered outcome: its row, and the end of the watch unless a next run has started.
unfoldable pub recovered_as :
    Deps → Input → PendingFire → State → CoordinateResult → Step (Option CoordinateResult)
recovered_as d input pending from result = do
  log_row d
      (record (row input (settled from) watchdog_recovered (some no_effect)
        (some (routine_name pending.run)) none (mode_for d (domain watchdog_expired))) {
          delivery = none;
          actor = some "watchdog";
        })
  still ← read (λ s. still_pending pending s.pending)
  when still (do clear_pending_fire; record_status done)
  pure (some result)

-- What a replay comes to: the next comment (`rest`) where it was not applied.
unfoldable pub replayed :
    Deps
    → Input
    → PendingFire
    → Step (Option CoordinateResult)
    → Answer CoordinateResult
    → Step (Option CoordinateResult)
replayed d input pending rest (ok (applied from e r)) =
    recovered_as d input pending from (applied from e r)
replayed d input pending rest (ok result) = rest
replayed d input pending rest (thrown e) = do
  still ← read (λ s. still_pending pending s.pending)
  if still then pure none else throw e

-- The comments, newest first.
unfoldable pub recover_from :
    Deps → Input → PendingFire → ℕ → List IssueComment → Step (Option CoordinateResult)
unfolding replay_id
recover_from d input pending fired [] = pure none
recover_from d input pending fired (c ∷ cs) =
    let rest = recover_from d input pending fired cs in
    if is_candidate d pending fired c
    then (do
      answer ←
          attempt (coordinate_webhook d (replay_input d input pending fired c) (replay_payload c))
      replayed d input pending rest answer)
    else rest

unfoldable pub recover_in :
    Deps → Input → PendingFire → ℕ → Answer (List IssueComment) → Step (Option CoordinateResult)
recover_in d input pending fired (thrown e) = pure none
recover_in d input pending fired (ok comments) =
    recover_from d input pending fired (reverse comments)

-- The comments since the fire, where its time is known.
unfoldable pub recover_since :
    Deps → Input → PendingFire → Option ℕ → Step (Option CoordinateResult)
recover_since d input pending none = pure none
recover_since d input pending (some fired) = do
  comments ← attempt (ask d.outside.comments)
  recover_in d input pending fired comments

-- `recoverOutcome`.
unfoldable pub recover_outcome : Deps → Input → PendingFire → Step (Option CoordinateResult)
recover_outcome d input pending = recover_since d input pending pending.fired_at
