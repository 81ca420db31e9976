-- ===== src/Coordinate/Rework.antt =====
-- worker/src/coordinate/webhook.ts: the end of a rework that the Worker started, a push to a stuck PR,
-- and the rounds of rework that a reviewer asks for.
use umbraco_mcp_ops.Prelude.{
  ℕ, ◌+◌, Bool, true, false, not, ◌&&◌, ◌||◌, Option, none, some, List, ltb, is_some, if◌then◌else◌,
}
use umbraco_mcp_ops.Graph.Label.{
  Label, Name, same_label, auto_reworking, ai_stuck, ai_reviewing, ready_for_review,
}
use umbraco_mcp_ops.Graph.Event.{
  Event, same_event, rework_pushed, rework_no_change, unlabelled_auto_reworking, review_fix_pushed,
  ci_fix_pushed, rework_cap_reached,
}
use umbraco_mcp_ops.Graph.Table.{untracked, on}
use umbraco_mcp_ops.Coordinate.DeriveState.{Derived, settled}
use umbraco_mcp_ops.Coordinate.Types.{
  domain, CiFix, ReviewLoop, push_without_rework, Call, rework_rounds_spent, Deps, Store, Input,
  CoordinateResult, dropped_no_rule, is_applied, deps_for, mode_for,
}
use umbraco_mcp_ops.Coordinate.Steps.{Step, pure, perform_live, when, ◌>>=◌, ◌>>◌}
use umbraco_mcp_ops.Coordinate.Storage.{
  set_ci_fix, set_review_loop, set_rework_expired, set_review_reworks,
}
use umbraco_mcp_ops.Coordinate.Apply.{apply_event, row, log_row}

-- `deriveState(labels) === l`.
abbrev pub reads_as : Label → Derived → Bool
reads_as l (settled (on m)) = same_label l m
reads_as l _ = false

abbrev pub reads_untracked : Derived → Bool
reads_untracked (settled untracked) = true
reads_untracked _ = false

abbrev pub is_ci_pending : Option CiFix → Bool
is_ci_pending none = false
is_ci_pending (some c) = c.pending

abbrev pub is_label_some : Label → Option Label → Bool
is_label_some l none = false
is_label_some l (some m) = same_label l m

abbrev pub returns_to_review : Option CiFix → Bool
returns_to_review none = false
returns_to_review (some c) = is_label_some ai_reviewing c.return_to

-- The pending flag that the end of a rework takes back.
pub data Claim : Type 0 where
  no_claim : Claim
  ci_claim : CiFix → Claim
  review_claim : ReviewLoop → Claim

unfoldable pub release_claim : Claim → Step (Unit {0})
release_claim no_claim = pure tt
release_claim (ci_claim c) = set_ci_fix (some (record c { pending = false }))
release_claim (review_claim r) = set_review_loop (some (record r { fix_pending = false }))

abbrev pub claims : Claim → Bool
claims no_claim = false
claims _ = true

-- What the end of a rework means: the event that it becomes, the claim it takes back, whether that
-- waits until the event applied, and whether it answers an expired rework.
pub record ReworkEnd : Type 0 where
  pub event : Event
  pub claim : Claim
  pub late : Bool
  pub expired : Bool

abbrev review_claim_of : Option ReviewLoop → Claim
review_claim_of none = no_claim
review_claim_of (some r) = if r.fix_pending then review_claim r else no_claim

-- The rework that is out: a CI fix, or else the review's.
abbrev pub claim_of : Store → Claim
claim_of s = elim s.ci_fix [
  | none ↦ review_claim_of s.review_loop
  | some c ↦ if c.pending then ci_claim c else review_claim_of s.review_loop
]

-- The event that a push is, under a claim, on a PR that is still in rework.
unfoldable pub push_event : Claim → Event
push_event no_claim = rework_pushed
push_event (ci_claim c) =
    if is_label_some ai_reviewing c.return_to then review_fix_pushed else ci_fix_pushed
push_event (review_claim r) = review_fix_pushed

unfoldable pub ends_rework : Event → Derived → Bool
ends_rework rework_no_change state = reads_as auto_reworking state || reads_as ai_stuck state
ends_rework rework_pushed state = true
ends_rework unlabelled_auto_reworking state = true
ends_rework _ state = false

unfoldable pub rework_end : Event → Derived → Store → ReworkEnd
unfolding push_event ends_rework
rework_end event state s =
    let late = same_event event rework_pushed && reads_as ai_stuck state in
    if ends_rework event state
    then record {
      event =
          if same_event event rework_pushed && reads_as auto_reworking state
          then push_event (claim_of s)
          else event;
      claim = claim_of s;
      late = late;
      expired = late && s.rework_expired;
    }
    else record { event = event; claim = no_claim; late = late; expired = false }

-- `reworkWasPending`.
abbrev pub was_pending : ReworkEnd → Bool
was_pending r = claims r.claim || r.expired

-- The claims that are taken back at once, and those that wait for the event to apply.
unfoldable pub release_now : ReworkEnd → Step (Unit {0})
unfolding release_claim
release_now r = if r.late then pure tt else release_claim r.claim

unfoldable pub release_later : ReworkEnd → Step (Unit {0})
unfolding release_claim
release_later r = do when r.late (release_claim r.claim); when r.expired (set_rework_expired false)

-- A push to a PR in `ai_stuck` that no rework was out for.
abbrev pub is_stray_push : ReworkEnd → Derived → Bool
is_stray_push r state =
    same_event r.event rework_pushed && (not (was_pending r) && reads_as ai_stuck state)

unfoldable pub drop_stray_push : Deps → Input → Event → Step CoordinateResult
drop_stray_push d input event = do
  log_row (deps_for d (domain event)) (
      row input (settled (on ai_stuck)) (domain event) none none (some push_without_rework)
        (mode_for d (domain event)))
  pure (dropped_no_rule (on ai_stuck) event)

-- `capReviewRework`.
unfoldable pub cap_review_rework : Deps → Input → List Name → ℕ → Step CoordinateResult
cap_review_rework d input labels rounds = do
  result ← apply_event d input rework_cap_reached labels
  when (is_applied result) (do
    set_rework_expired false
    perform_live (deps_for d (domain rework_cap_reached))
        (Call.comment (rework_rounds_spent rounds d.caps.review_reworks)))
  pure result

-- A round that a reviewer asks for, from the state before the label: its number, if it is counted.
abbrev pub round_number : Derived → ℕ → Option ℕ
round_number before rounds =
    if reads_as ai_stuck before
    then some 1
    else if reads_untracked before
    then some (rounds + 1)
    else none

-- Whether the rework goes back to review after its push.
abbrev pub restarts_review : Derived → Store → Bool
restarts_review before s =
    (reads_as ready_for_review before
      || reads_as ai_stuck before && (is_some s.review_loop || returns_to_review s.ci_fix))
    && not (is_ci_pending s.ci_fix)

unfoldable pub keep_rounds : Option ℕ → Step (Unit {0})
keep_rounds none = pure tt
keep_rounds (some n) = set_review_reworks n

-- The counts of a round that is let through.
unfoldable pub count_round : Derived → Option ℕ → Bool → Step (Unit {0})
count_round before rounds restart = do
  keep_rounds rounds
  when (reads_as ai_stuck before) (do set_review_loop none; set_rework_expired false)
  when restart
      (do set_review_loop (some (record { bot_rounds = 0; fix_pending = true })); set_ci_fix none)

abbrev pub past_cap : ℕ → Option ℕ → Bool
past_cap cap none = false
past_cap cap (some n) = ltb cap n
