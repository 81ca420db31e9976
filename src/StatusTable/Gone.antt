-- ===== src/StatusTable/Gone.antt =====
-- An item's row on the dashboard after it was closed (`writeStatus` of worker/src/issue-coordinator.ts).
use umbraco_mcp_ops.Prelude.{ℕ, true, false, none, List, [], ◌∷◌, ◌≡◌, ◌≢◌, refl, ap}
use umbraco_mcp_ops.Coordinate.Types.{StatusUpdate, transition, step, done, rework, gone, reopened}
use umbraco_mcp_ops.StatusTable.{StatusItem, write_status, write_all}

abbrev StaysClosed : List (ℕ × ℕ × StatusUpdate) → Type 0
StaysClosed [] = Unit {0}
StaysClosed ((reworks, now, u) ∷ us) = (u ≢ reopened) × StaysClosed us

abbrev shut : StatusItem
shut = record { row = none; closed = true }

write_status-shut :
    (reworks now : ℕ) (u : StatusUpdate) → u ≢ reopened → write_status reworks now u shut ≡ shut
unfolding write_status
write_status-shut reworks now (gone true) h = refl
write_status-shut reworks now (gone false) h = refl
write_status-shut reworks now reopened h = absurd (h refl)
write_status-shut reworks now (step what at) h = refl
write_status-shut reworks now done h = refl
write_status-shut reworks now (rework count) h = refl
write_status-shut reworks now (transition state run running) h = refl

write_all-shut : (us : List (ℕ × ℕ × StatusUpdate)) → StaysClosed us → write_all us shut ≡ shut
unfolding write_all
write_all-shut [] k = refl
write_all-shut ((reworks, now, u) ∷ us) k =
    rw (write_status-shut reworks now u k.0) (write_all-shut us k.1)

-- An item that was closed shows nothing on the dashboard until it is reopened: whatever updates come
-- after, late transitions of its last run included, it has no row.
write_all-gone :
    (us : List (ℕ × ℕ × StatusUpdate)) (s : StatusItem) (reworks now : ℕ)
    → StaysClosed us
    → (write_all us (write_status reworks now (gone true) s)).row ≡ none
unfolding write_status
write_all-gone us s reworks now k = ap (λ i. i.row) (write_all-shut us k)
