-- ===== src/Graph/Reduce.antt =====
-- graph/graph.ts: `reduce`, `isWatched`, the contextual events; graph/github/to-github.ts: the
-- label operations that a fired rule requires.
use umbraco_mcp_ops.Prelude.{
  Bool, true, ◌&&◌, not, Option, none, some, List, [], ◌∷◌, ◌++◌, if◌then◌else◌, find, any, is_some,
}
use umbraco_mcp_ops.Graph.Label.{Name, tracked, other, includes, same_name}
use umbraco_mcp_ops.Graph.Event.{
  Event, same_event, rework_pushed, ci_fix_pushed, merged, discussion_reply, issue_closed,
  unlabelled_ai_ready, unlabelled_auto_releasing, unlabelled_auto_reworking,
  unlabelled_auto_merging, unlabelled_ai_reviewing, pr_merged, released, watchdog_expired,
}
use umbraco_mcp_ops.Graph.Table.{
  State, untracked, on, Effect, label, unlabel, close, noop, Rule, rules, same_state,
}

-- `rules.find(...) ?? null`.
unfoldable pub reduce : State → Event → Option Rule
reduce current event = find (λ r. same_state r.from current && same_event r.event event) rules

-- CONTEXTUAL_EVENTS.
abbrev pub contextual_events : List Event
contextual_events =
    rework_pushed ∷ ci_fix_pushed ∷ merged ∷ discussion_reply ∷ issue_closed ∷ unlabelled_ai_ready
    ∷ unlabelled_auto_releasing ∷ unlabelled_auto_reworking ∷ unlabelled_auto_merging
    ∷ unlabelled_ai_reviewing ∷ pr_merged ∷ released ∷ []

unfoldable pub is_contextual : Event → Bool
is_contextual e = any (same_event e) contextual_events

-- Whether a routine fired into the state is watched.
unfoldable pub is_watched : State → Bool
unfolding reduce
is_watched s = is_some (reduce s watchdog_expired)

pub data LabelOp : Type 0 where
  add : Name → LabelOp
  remove : Name → LabelOp
  close_item : LabelOp

-- A state as a label of an item; "none" is no tracked label's spelling.
abbrev pub state_name : State → Name
state_name untracked = other "none"
state_name (on l) = tracked l

abbrev pub from_label : State → Option Name
from_label untracked = none
from_label (on l) = some (tracked l)

-- `a !== b`, for labels that may be null.
abbrev pub differs : Name → Option Name → Bool
differs a none = true
differs a (some b) = not (same_name a b)

abbrev pub removal : List Name → Option Name → Option Name → List LabelOp
removal labels none to = []
removal labels (some f) to = if differs f to && includes f labels then remove f ∷ [] else []

abbrev pub addition : List Name → Option Name → Option Name → List LabelOp
addition labels from none = []
addition labels from (some t) = if differs t from && not (includes t labels) then add t ∷ [] else []

unfoldable pub effect_ops : List Name → State → Effect → List LabelOp
effect_ops labels from noop = []
effect_ops labels from close = close_item ∷ []
effect_ops labels from unlabel = removal labels (from_label from) none
effect_ops labels from (label v) =
    removal labels (from_label from) (some (state_name v))
    ++ addition labels (from_label from) (some (state_name v))

-- `labelOps`: the GitHub calls of a fired rule, given the labels that are there now.
unfoldable pub label_ops : List Name → Rule → List LabelOp
unfolding effect_ops
label_ops labels r = effect_ops labels r.from r.to
