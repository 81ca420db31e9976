-- ===== src/Graph/Lifecycle.antt =====
-- What graph/graph.ts says of whole lifecycles: expiries, watched runs, the way into a merge.
use umbraco_mcp_ops.Prelude.{◌≡◌, refl, true, false, ◌⊎◌, none, some, arith, All, All-mem}
use umbraco_mcp_ops.Graph.Label.{ai_stuck, auto_merging, auto_reworking}
use umbraco_mcp_ops.Graph.Event.{Event, watchdog_expired, labelled_auto_merging, ci_fix_pushed}
use umbraco_mcp_ops.Graph.Routine.{Routine, issue_discuss_loop, merge_flow}
use umbraco_mcp_ops.Graph.Table.{State, on, label, Rule, rules}
use umbraco_mcp_ops.Graph.Reduce.{reduce, is_watched}
use umbraco_mcp_ops.Graph.Order.{reduce_iff_mem}
use umbraco_mcp_ops.Coordinate.Apply.{target_of}

-- What holds of every rule of the table holds of the rule that is found.
found-All :
    (P : Rule → Type 0)
    → All P rules
    → (s : State) (e : Event) (r : Rule) → reduce s e ≡ some r
    → P r × (r.from ≡ s) × (r.event ≡ e)
found-All P h s e r found =
    let (m, a, b) = (reduce_iff_mem s e r).0 found in (All-mem P rules h m, a, b)

abbrev ExpiryHolds : Rule → Type 0
ExpiryHolds r = r.event ≡ watchdog_expired → (r.to ≡ label (on ai_stuck)) × (r.run ≡ none)

expiry_table : All ExpiryHolds rules
expiry_table = ground arith

-- A rule for an expiry moves the item to `ai-stuck` and fires nothing, and no run is watched
-- there.
pub expiry_sticks :
    (s : State) (r : Rule)
    → reduce s watchdog_expired ≡ some r
    → (r.to ≡ label (on ai_stuck)) × (r.run ≡ none) × (is_watched (target_of s r.to) ≡ false)
unfolding is_watched
expiry_sticks s r found =
    let (h, a, b) = found-All ExpiryHolds expiry_table s watchdog_expired r found in
    let (p, q) = h b in (p, q, rw p refl)

abbrev WatchHolds : Rule → Type 0
WatchHolds r =
    (run : Routine)
    → r.run ≡ some run
    → (run ≡ issue_discuss_loop) ⊎ (is_watched (target_of r.from r.to) ≡ true)

watch_table : All WatchHolds rules
unfolding is_watched
watch_table = ground arith

-- Every run that the table fires, the discussion's apart, is fired into a state whose expiry the
-- table knows.
pub run-IsWatched :
    (s : State) (e : Event) (r : Rule) (run : Routine)
    → reduce s e ≡ some r
    → r.run ≡ some run
    → (run ≡ issue_discuss_loop) ⊎ (is_watched (target_of s r.to) ≡ true)
run-IsWatched s e r run found h =
    let (k, a, b) = found-All WatchHolds watch_table s e r found in rw a at (k run h)

abbrev MergeHolds : Rule → Type 0
MergeHolds r =
    r.to ≡ label (on auto_merging)
    → ((r.event ≡ labelled_auto_merging)
        ⊎ ((r.event ≡ ci_fix_pushed) × (r.from ≡ on auto_reworking)))
      × (r.run ≡ some merge_flow)

merge_table : All MergeHolds rules
merge_table = ground arith

-- A rule that moves an item to `auto-merging` is for the event of that label being added, or for
-- the push of a CI fix from `auto-reworking`, and it fires merge-flow.
pub merge_needs_label :
    (s : State) (e : Event) (r : Rule)
    → reduce s e ≡ some r
    → r.to ≡ label (on auto_merging)
    → ((e ≡ labelled_auto_merging) ⊎ ((e ≡ ci_fix_pushed) × (s ≡ on auto_reworking)))
      × (r.run ≡ some merge_flow)
merge_needs_label s e r found h =
    let (k, a, b) = found-All MergeHolds merge_table s e r found in rw (a, b) at (k h)
