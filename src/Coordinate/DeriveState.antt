-- ===== src/Coordinate/DeriveState.antt =====
-- worker/src/coordinate/apply.ts, `deriveState`: the labels of an item, read as a state; and
-- worker/src/coordinate/types.ts, `LABEL_JUST_ADDED_BY`.
use umbraco_mcp_ops.Prelude.{Bool, ◌&&◌, Option, none, some, List, [], ◌∷◌, any, if◌then◌else◌}
use umbraco_mcp_ops.Graph.Label.{
  Label, Name, tracked, other, same_label, without, ai_ready, auto_releasing, ai_discussing,
  auto_reworking, auto_merging, ai_stuck, ai_reviewing,
}
use umbraco_mcp_ops.Graph.Event.{
  Event, labelled_ai_ready, labelled_auto_releasing, labelled_ai_discussing,
  labelled_auto_reworking, labelled_auto_merging, labelled_ai_reviewing,
}
use umbraco_mcp_ops.Graph.Table.{State, untracked, on}

-- `State | "ambiguous"`.
pub data Derived : Type 0 where
  settled : State → Derived
  ambiguous : Derived

-- `labels.filter((l) => ALL_LABELS.includes(l))`.
abbrev pub tracked_labels : List Name → List Label
tracked_labels [] = []
tracked_labels (tracked l ∷ ns) = l ∷ tracked_labels ns
tracked_labels (other s ∷ ns) = tracked_labels ns

-- Whether one of two labels is `l`.
abbrev either_is : Label → Label → Label → Bool
either_is l a b = any (same_label l) (a ∷ b ∷ [])

-- Two tracked labels: the two pairs with a defined answer, anything else is ambiguous.
derive_pair : Label → Label → Derived
derive_pair a b =
    if either_is ai_stuck a b
    then settled (on ai_stuck)
    else if either_is Label.merge_blocked a b && either_is auto_merging a b
    then settled (on auto_merging)
    else ambiguous

unfoldable pub derive_tracked : List Label → Derived
unfolding derive_pair
derive_tracked [] = settled untracked
derive_tracked (a ∷ []) = settled (on a)
derive_tracked (a ∷ b ∷ []) = derive_pair a b
derive_tracked (a ∷ b ∷ c ∷ ls) = ambiguous

unfoldable pub derive_state : List Name → Derived
unfolding derive_tracked
derive_state labels = derive_tracked (tracked_labels labels)

-- LABEL_JUST_ADDED_BY: the label whose addition the event is.
abbrev pub just_added : Event → Option Label
just_added labelled_ai_ready = some ai_ready
just_added labelled_auto_releasing = some auto_releasing
just_added labelled_ai_discussing = some ai_discussing
just_added labelled_auto_reworking = some auto_reworking
just_added labelled_auto_merging = some auto_merging
just_added labelled_ai_reviewing = some ai_reviewing
just_added _ = none

-- `justAdded ? labels.filter((l) => l !== justAdded) : labels`.
abbrev pub drop_added : Option Label → List Name → List Name
drop_added none labels = labels
drop_added (some l) labels = without (tracked l) labels

abbrev pub before_event : Event → List Name → List Name
before_event e labels = drop_added (just_added e) labels
