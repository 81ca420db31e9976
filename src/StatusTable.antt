-- ===== src/StatusTable.antt =====
-- worker/src/db/issue-status.ts, an item's row on the dashboard, and `writeStatus` of
-- worker/src/issue-coordinator.ts, which keeps it.
pub mod Gone
use umbraco_mcp_ops.Prelude.{
  ℕ, suc, Bool, true, false, String, Option, none, some, List, [], ◌∷◌, ◌≡◌, ◌≢◌, refl, ap,
  if◌then◌else◌,
}
use umbraco_mcp_ops.Graph.Routine.{Routine, same_routine}
use umbraco_mcp_ops.Coordinate.Types.{StatusUpdate, transition, step, done, rework, gone, reopened}
use umbraco_mcp_ops.Coordinate.DeriveState.{Derived}

-- `StatusRow`, with the time of its last write.
pub record StatusRow : Type 0 where
  pub state : Derived
  pub routine : Option Routine
  pub attempt : ℕ
  pub running : Bool
  pub last_step : Option (String × ℕ)
  pub rework_count : ℕ
  pub updated_at : ℕ

-- The table's row of one item, and CLOSED_KEY of the item's storage.
pub record StatusItem : Type 0 where
  pub row : Option StatusRow
  pub closed : Bool

abbrev change_row : (StatusRow → StatusRow) → StatusItem → StatusItem
change_row f s = record s { row = elim s.row [ none ↦ none | some r ↦ some (f r) ] }

-- `CASE WHEN issue_status.routine = excluded.routine`; NULL equals nothing.
abbrev next_attempt : Option Routine → ℕ → Routine → ℕ
next_attempt none attempt run = 1
next_attempt (some k) attempt run = if same_routine k run then suc attempt else 1

-- The new row of a transition.
abbrev inserted : Derived → Option Routine → Bool → ℕ → ℕ → StatusRow
inserted state run running reworks now = record {
  state = state;
  routine = run;
  attempt = elim run [ none ↦ 0 | some k ↦ 1 ];
  running = running;
  last_step = none;
  rework_count = reworks;
  updated_at = now;
}

-- `upsertTransition`.
unfoldable pub upsert_transition :
    Derived → Option Routine → Bool → ℕ → ℕ → Option StatusRow → StatusRow
upsert_transition state run running reworks now none = inserted state run running reworks now
upsert_transition state none running reworks now (some r) = record r {
  state = state;
  running = false;
  rework_count = reworks;
  updated_at = now;
}
upsert_transition state (some k) running reworks now (some r) = record {
  state = state;
  routine = some k;
  attempt = next_attempt r.routine r.attempt k;
  running = running;
  last_step = none;
  rework_count = reworks;
  updated_at = now;
}

-- `writeStatus`, with the attempts that the item's storage counts (`CI_FIX_KEY`), at a time.
unfoldable pub write_status : ℕ → ℕ → StatusUpdate → StatusItem → StatusItem
write_status reworks now (gone closed) s = record {
  row = none;
  closed = if closed then true else s.closed;
}
write_status reworks now reopened s = record s { closed = false }
write_status reworks now (step what at) s =
    change_row (λ r. record r { last_step = some (what, at); updated_at = now }) s
write_status reworks now done s = change_row (λ r. record r { running = false; updated_at = now }) s
write_status reworks now (rework count) s =
    change_row (λ r. record r { rework_count = count; updated_at = now }) s
write_status reworks now (transition state run running) s =
    if s.closed
    then s
    else record s { row = some (upsert_transition state run running reworks now s.row) }

-- Any updates, one after the other, each with its attempts and its time.
unfoldable pub write_all : List (ℕ × ℕ × StatusUpdate) → StatusItem → StatusItem
write_all [] s = s
write_all ((reworks, now, u) ∷ us) s = write_all us (write_status reworks now u s)
