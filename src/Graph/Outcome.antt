-- ===== src/Graph/Outcome.antt =====
-- graph/outcomes.ts: the outcomes that a routine reports, and the check of a reported value.
use umbraco_mcp_ops.Prelude.{String, Option, none, some, str_eq, if◌then◌else◌}
use umbraco_mcp_ops.Graph.Json.{Json, Number, Fields, object, get, as_text, as_number}

pub data MergeMethod : Type 0 where
  merge squash rebase : MergeMethod

unfoldable pub method_name : MergeMethod → String
method_name merge = "merge"
method_name squash = "squash"
method_name rebase = "rebase"

pub data Outcome : Type 0 where
  build_succeeded : Number → Outcome
  build_blocked : String → Outcome
  release_blocked : String → Outcome
  release_published : String → Option String → Outcome
  release_approved : Number → String → String → MergeMethod → Outcome
  review_passed : Outcome
  review_findings : Number → Outcome
  review_blocked : String → Outcome
  rework_no_change : String → Outcome
  merge_blocked : String → Outcome
  discussion_capped : Outcome

-- `outcome.outcome`.
unfoldable pub outcome_name : Outcome → String
outcome_name (build_succeeded pr) = "build_succeeded"
outcome_name (build_blocked reason) = "build_blocked"
outcome_name (release_blocked reason) = "release_blocked"
outcome_name (release_published version tag) = "release_published"
outcome_name (release_approved pr sha version method) = "release_approved"
outcome_name review_passed = "review_passed"
outcome_name (review_findings findings) = "review_findings"
outcome_name (review_blocked reason) = "review_blocked"
outcome_name (rework_no_change reason) = "rework_no_change"
outcome_name (merge_blocked reason) = "merge_blocked"
outcome_name discussion_capped = "discussion_capped"

infixl 5 ◌>>=◌
abbrev ◌>>=◌ : {A B : Type 0} → Option A → (A → Option B) → Option B
none >>= f = none
some a >>= f = f a

-- One `if (v.outcome === name && …) return …`, and then the ones below it.
infixr 4 ◌orelse◌
abbrev ◌orelse◌ : Option Outcome → Option Outcome → Option Outcome
some o orelse next = some o
none orelse next = next

named : String → Fields → Option Outcome → Option Outcome
named name v result = elim (as_text (get "outcome" v)) [
  | none ↦ none
  | some s ↦ if str_eq s name then result else none
]

read_method : String → Option MergeMethod
unfolding method_name
read_method s =
    if str_eq s (method_name merge)
    then some merge
    else if str_eq s (method_name squash)
    then some squash
    else if str_eq s (method_name rebase)
    then some rebase
    else none

text_of : String → Fields → Option String
text_of k v = as_text (get k v)

number_of : String → Fields → Option Number
number_of k v = as_number (get k v)

parse_fields : Fields → Option Outcome
unfolding named read_method text_of number_of get
parse_fields v =
    named "build_succeeded" v (number_of "pr" v >>= λ pr. some (build_succeeded pr))
    orelse named "build_blocked" v (text_of "reason" v >>= λ r. some (build_blocked r))
    orelse named "release_blocked" v (text_of "reason" v >>= λ r. some (release_blocked r))
    orelse named "release_published" v
        (text_of "version" v >>= λ n. some (release_published n (text_of "tag" v)))
    orelse named "release_approved" v (do
      pr ← number_of "pr" v
      sha ← text_of "sha" v
      version ← text_of "version" v
      name ← text_of "merge_method" v
      method ← read_method name
      some (release_approved pr sha version method))
    orelse named "review_passed" v (some review_passed)
    orelse named "review_findings" v (number_of "findings" v >>= λ n. some (review_findings n))
    orelse named "review_blocked" v (text_of "reason" v >>= λ r. some (review_blocked r))
    orelse named "rework_no_change" v (text_of "reason" v >>= λ r. some (rework_no_change r))
    orelse named "merge_blocked" v (text_of "reason" v >>= λ r. some (merge_blocked r))
    orelse named "discussion_capped" v (some discussion_capped)

-- `parseOutcomeShape`.
unfoldable pub parse_outcome : Json → Option Outcome
unfolding parse_fields
parse_outcome (object v) = parse_fields v
parse_outcome _ = none
