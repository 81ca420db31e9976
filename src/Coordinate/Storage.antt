-- ===== src/Coordinate/Storage.antt =====
-- worker/src/issue-coordinator.ts, `deps`: the storage behind the coordinator's state, with the alarm
-- that a pending fire sets; and `actorOf` of worker/src/coordinate/types.ts.
use umbraco_mcp_ops.Prelude.{
  ℕ, String, ◌+◌, ◌*◌, Bool, false, not, Option, none, some, List, ◌∷◌, str_eq, any, filter, get_or,
  if◌then◌else◌,
}
use umbraco_mcp_ops.Graph.Routine.{Routine, routine_name}
use umbraco_mcp_ops.Graph.Translate.{Payload, Sender, Shipped}
use umbraco_mcp_ops.Coordinate.Types.{
  PendingFire, CiFix, ReleaseMerge, ReviewLoop, AppliedOutcome, StatusUpdate, Deps, Input,
  actor_name, arm, disarm, status,
}
use umbraco_mcp_ops.Coordinate.Steps.{Step, read, keep, note, clock, ◌>>=◌, ◌>>◌}

-- A fire of a routine with nothing else set.
abbrev pub fresh_fire : Routine → PendingFire
fresh_fire run = record {
  run = run;
  last_step = none;
  last_step_at = none;
  due_at = none;
  fired_at = none;
  retried = false;
  is_blocked = false;
  defer_until = none;
  unwatched = false;
}

-- When a pending fire's alarm is due: `info.deferUntil ?? Date.now() + watchdogMinutes(info.run) * 60_000`.
abbrev pub due_time : Deps → ℕ → PendingFire → ℕ
due_time d now info = get_or info.defer_until (now + d.watchdog_minutes info.run * 60000)

abbrev pub stamped : Deps → ℕ → PendingFire → PendingFire
stamped d now info = record info {
  due_at = some (due_time d now info);
  fired_at = some (get_or info.fired_at now);
}

unfoldable pub set_pending_fire : Deps → PendingFire → Step (Unit {0})
set_pending_fire d info = do
  now ← clock d
  keep (λ s. record s {
    pending = some (stamped d now info);
    alarm = some (due_time d now info);
    completed = none;
  })
  note (arm (due_time d now info))

unfoldable pub clear_pending_fire : Step (Unit {0})
clear_pending_fire = do keep (λ s. record s { pending = none; alarm = none }); note disarm

abbrev pub get_pending_fire : Step (Option PendingFire)
get_pending_fire = read (λ s. s.pending)

abbrev pub set_ci_fix : Option CiFix → Step (Unit {0})
set_ci_fix c = keep (λ s. record s { ci_fix = c })

abbrev pub set_rework_expired : Bool → Step (Unit {0})
set_rework_expired b = keep (λ s. record s { rework_expired = b })

abbrev pub set_review_reworks : ℕ → Step (Unit {0})
set_review_reworks n = keep (λ s. record s { review_reworks = n })

abbrev pub set_review_loop : Option ReviewLoop → Step (Unit {0})
set_review_loop r = keep (λ s. record s { review_loop = r })

abbrev pub set_shipped : Option Shipped → Step (Unit {0})
set_shipped x = keep (λ s. record s { shipped = x })

abbrev pub set_release_merged : Option ReleaseMerge → Step (Unit {0})
set_release_merged x = keep (λ s. record s { release_merged = x })

abbrev pub set_merge_fired_for : String → Step (Unit {0})
set_merge_fired_for sha = keep (λ s. record s { merge_fired_for = some sha })

abbrev pub mark_completed : ℕ → Step (Unit {0})
mark_completed at = keep (λ s. record s { completed = some at })

abbrev pub put_applied :
    String
    → Option AppliedOutcome
    → (String → Option AppliedOutcome)
    → String
    → Option AppliedOutcome
put_applied run a f k = if str_eq k run then a else f k

-- One record per routine.
abbrev pub set_applied_outcome : Routine → Option AppliedOutcome → Step (Unit {0})
set_applied_outcome run a =
    keep (λ s. record s { applied = put_applied (routine_name run) a s.applied })

abbrev pub has_seen : String → List String → Bool
has_seen id seen = any (str_eq id) seen

abbrev pub mark_seen : String → Step (Unit {0})
mark_seen id = keep (λ s. record s { seen = id ∷ s.seen })

abbrev pub unmark_seen : String → Step (Unit {0})
unmark_seen id = keep (λ s. record s { seen = filter (λ k. not (str_eq id k)) s.seen })

-- `recordStatus`, which never throws.
abbrev pub record_status : StatusUpdate → Step (Unit {0})
record_status u = note (status u)

abbrev sender_login : Option Sender → Option String
sender_login none = none
sender_login (some s) = some s.login

abbrev pub payload_sender : Option Payload → Option String
payload_sender none = none
payload_sender (some p) = sender_login p.sender

-- `actorOf`.
abbrev pub actor_of : Input → Option String
actor_of i = elim i.actor [ some a ↦ some (actor_name a) | none ↦ payload_sender i.payload ]
