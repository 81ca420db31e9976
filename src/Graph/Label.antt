-- ===== src/Graph/Label.antt =====
-- graph/constants/labels.ts: the tracked labels and their GitHub spellings, and the labels an
-- item carries. A label of an item is either one of the twelve that the graph tracks or any
-- other text; `read_label` and `spelling` go between that view and GitHub's strings.
use umbraco_mcp_ops.Prelude.{
  ℕ, String, Bool, false, none, some, List, [], ◌∷◌, str_eq, ◌==◌, find, any, filter, not,
}

pub data Label : Type 0 where
  ai_ready pr_open ai_blocked auto_releasing ai_discussing auto_reworking : Label
  auto_merging ai_stuck merge_blocked ai_reviewing ready_for_release ready_for_review : Label

-- The spelling on GitHub.
unfoldable pub spelling : Label → String
spelling ai_ready = "ai-ready"
spelling pr_open = "pr-open"
spelling ai_blocked = "ai-blocked"
spelling auto_releasing = "auto-releasing"
spelling ai_discussing = "ai-discussing"
spelling auto_reworking = "auto-reworking"
spelling auto_merging = "auto-merging"
spelling ai_stuck = "ai-stuck"
spelling merge_blocked = "merge-blocked"
spelling ai_reviewing = "ai-reviewing"
spelling ready_for_release = "ready-for-release"
spelling ready_for_review = "ready-for-review"

-- ALL_LABELS.
abbrev pub all_labels : List Label
all_labels =
    ai_ready ∷ pr_open ∷ ai_blocked ∷ auto_releasing ∷ ai_discussing ∷ auto_reworking ∷ auto_merging
    ∷ ai_stuck ∷ merge_blocked ∷ ai_reviewing ∷ ready_for_release ∷ ready_for_review ∷ []

-- Where a label stands in ALL_LABELS: equality of labels is equality of these numbers.
abbrev pub label_index : Label → ℕ
label_index ai_ready = 0
label_index pr_open = 1
label_index ai_blocked = 2
label_index auto_releasing = 3
label_index ai_discussing = 4
label_index auto_reworking = 5
label_index auto_merging = 6
label_index ai_stuck = 7
label_index merge_blocked = 8
label_index ai_reviewing = 9
label_index ready_for_release = 10
label_index ready_for_review = 11

abbrev pub same_label : Label → Label → Bool
same_label a b = label_index a == label_index b

-- A label on an item: a tracked one, or any other text.
pub data Name : Type 0 where
  tracked : Label → Name
  other : String → Name

unfoldable pub read_label : String → Name
unfolding spelling
read_label s = elim (find (λ l. str_eq (spelling l) s) all_labels) [
  | none ↦ other s
  | some l ↦ tracked l
]

unfoldable pub print_label : Name → String
print_label (tracked l) = spelling l
print_label (other s) = s

-- Whether two labels of an item are the same text.
abbrev pub same_name : Name → Name → Bool
same_name (tracked l) (tracked m) = same_label l m
same_name (other s) (other t) = str_eq s t
same_name _ _ = false

-- `labels.includes(l)`.
abbrev pub includes : Name → List Name → Bool
includes n labels = any (same_name n) labels

-- `labels.filter((l) => l !== n)`.
abbrev pub without : Name → List Name → List Name
without n labels = filter (λ m. not (same_name n m)) labels
