-- ===== src/Graph/Routine.antt =====
-- graph/constants/routines.ts: the loops that the reducer can fire.
use umbraco_mcp_ops.Prelude.{ℕ, String, Bool, Option, List, [], ◌∷◌, ◌==◌, str_eq, find}

pub data Routine : Type 0 where
  issue_build_loop auto_release_loop issue_discuss_loop rework_loop merge_flow review_loop
        release_publish :
      Routine

-- ALL_ROUTINES.
abbrev pub all_routines : List Routine
all_routines =
    issue_build_loop ∷ auto_release_loop ∷ issue_discuss_loop ∷ rework_loop ∷ merge_flow
    ∷ review_loop ∷ release_publish ∷ []

-- Where a routine stands in ALL_ROUTINES.
abbrev pub routine_index : Routine → ℕ
routine_index issue_build_loop = 0
routine_index auto_release_loop = 1
routine_index issue_discuss_loop = 2
routine_index rework_loop = 3
routine_index merge_flow = 4
routine_index review_loop = 5
routine_index release_publish = 6

abbrev pub same_routine : Routine → Routine → Bool
same_routine a b = routine_index a == routine_index b

-- The routine's string, as the fire text, the log and an outcome marker write it.
unfoldable pub routine_name : Routine → String
routine_name issue_build_loop = "issue-build-loop"
routine_name auto_release_loop = "auto-release-loop"
routine_name issue_discuss_loop = "issue-discuss-loop"
routine_name rework_loop = "rework-loop"
routine_name merge_flow = "merge-flow"
routine_name review_loop = "review-loop"
routine_name release_publish = "release-publish"

-- The routine that a string names, if any: how a marker's routine meets a pending run.
unfoldable pub read_routine : String → Option Routine
unfolding routine_name
read_routine s = find (λ r. str_eq (routine_name r) s) all_routines
