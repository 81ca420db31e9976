-- ===== src/Coordinate/Release.antt =====
-- worker/src/coordinate/release.ts: the release split.
use umbraco_mcp_ops.Prelude.{
  String, Bool, true, false, ◌&&◌, Option, none, some, List, str_eq, if◌then◌else◌,
}
use umbraco_mcp_ops.Graph.Label.{Name, tracked, ai_stuck, includes, without}
use umbraco_mcp_ops.Graph.Event.{release_approved, release_blocked, release_merged}
use umbraco_mcp_ops.Graph.Json.{Number}
use umbraco_mcp_ops.Graph.Outcome.{Outcome, MergeMethod}
use umbraco_mcp_ops.Graph.Translate.{
  Payload, Comment, body_of, parse_artifact, Association, is_trusted,
}
use umbraco_mcp_ops.Coordinate.Types.{
  domain, RefusedMerge, merged_elsewhere, merge_refused, Answer, ok, thrown, PullDetails, Call,
  merge_pull, not_releasing, Notice, Deps, Input, Actor, routine_signal, CoordinateResult, no_event,
  is_applied, deps_for,
}
use umbraco_mcp_ops.Coordinate.Steps.{Step, pure, ask, attempt, perform_live, when, ◌>>=◌, ◌>>◌}
use umbraco_mcp_ops.Coordinate.Storage.{set_release_merged, payload_sender}
use umbraco_mcp_ops.Coordinate.Apply.{apply_event, message}

abbrev from_signal : Option Actor → Bool
from_signal (some routine_signal) = true
from_signal _ = false

abbrev same_text : Option String → Option String → Bool
same_text (some a) (some b) = str_eq a b
same_text _ _ = false

abbrev pub comment_of : Option Payload → Option Comment
comment_of none = none
comment_of (some p) = p.comment

abbrev association_of : Option Comment → Option Association
association_of none = none
association_of (some c) = c.association

-- `trustedAuthor`.
unfoldable pub trusted_author : Deps → Input → Step Bool
trusted_author d input = if from_signal input.actor then pure true else do
  bot ← ask d.outside.bot_login
  pure (
      if same_text bot (payload_sender input.payload)
      then true
      else is_trusted (association_of (comment_of input.payload)))

-- The outcome that the input's comment carries.
unfoldable pub artifact_of : Deps → Input → Option Outcome
artifact_of d input = parse_artifact d.outside.engine (body_of (comment_of input.payload))

-- A refused merge: the trigger label comes off, with the reason.
unfoldable pub refuse_release :
    Deps → Input → List Name → String → CoordinateResult → RefusedMerge → Step CoordinateResult
refuse_release d input labels version result why = do
  blocked ← apply_event d input release_blocked labels
  perform_live (deps_for d (domain release_approved)) (Call.comment (not_releasing version why))
  pure result

-- The merge is there: recorded, then the after part, then the comment.
unfoldable pub release_after_merge :
    Deps → Input → List Name → Number → String → MergeMethod → Step CoordinateResult
release_after_merge d input labels pr sha method = do
  when (d.enforced (domain release_approved))
      (set_release_merged (some (record { pr = pr; sha = sha })))
  merged ← apply_event d input release_merged labels
  perform_live (deps_for d (domain release_approved))
      (Call.comment (Notice.release_merged pr method))
  pure merged

-- Whether a second look found the PR merged at the reviewed commit.
abbrev pub merged_at : String → Answer PullDetails → Bool
merged_at sha (ok p) = p.is_merged && str_eq p.head_sha sha
merged_at sha (thrown e) = false

-- A merge call that threw may have merged: look again.
unfoldable pub after_merge_call :
    Deps
    → Input
    → List Name
    → Number
    → String
    → String
    → MergeMethod
    → CoordinateResult
    → Answer (Unit {0})
    → Step CoordinateResult
after_merge_call d input labels pr sha version method result (ok _) =
    release_after_merge d input labels pr sha method
after_merge_call d input labels pr sha version method result (thrown e) = do
  again ← attempt (ask d.outside.pull)
  if merged_at sha again
      then release_after_merge d input labels pr sha method
      else refuse_release d input labels version result
          (merge_refused pr sha (d.outside.engine.slice 300 (message e)))

unfoldable pub merge_release :
    Deps
    → Input
    → List Name
    → Number
    → String
    → String
    → MergeMethod
    → CoordinateResult
    → PullDetails
    → Step CoordinateResult
merge_release d input labels pr sha version method result pull =
    if pull.is_merged
    then (if str_eq pull.head_sha sha
        then release_after_merge d input labels pr sha method
        else refuse_release d input labels version result (merged_elsewhere pr pull.head_sha))
    else do
      answer ←
          attempt (perform_live (deps_for d (domain release_approved)) (merge_pull pr sha method))
      after_merge_call d input labels pr sha version method result answer

unfoldable pub release_approved_as :
    Deps → Input → List Name → Option Outcome → Step CoordinateResult
release_approved_as d input labels (some (Outcome.release_approved pr sha version method)) = do
  trusted ← trusted_author d input
  if trusted
      then (do
        result ← apply_event d input release_approved labels
        if is_applied result
            then (do
              pull ← ask d.outside.pull
              merge_release d input labels pr sha version method result pull)
            else pure result)
      else pure no_event
release_approved_as d input labels _ = pure no_event

-- `releaseApproved`.
unfoldable pub handle_release_approved : Deps → Input → List Name → Step CoordinateResult
handle_release_approved d input labels = release_approved_as d input labels (artifact_of d input)

-- `retryReleasePublish`.
unfoldable pub retry_release_publish : Deps → Input → List Name → Step CoordinateResult
retry_release_publish d input labels = do
  when (includes (tracked ai_stuck) labels)
      (perform_live (deps_for d (domain release_merged)) (Call.remove_label (tracked ai_stuck)))
  apply_event d input release_merged (without (tracked ai_stuck) labels)
