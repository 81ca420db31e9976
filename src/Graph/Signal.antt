-- ===== src/Graph/Signal.antt =====
-- graph/routines/from-routine.ts: what a routine reports directly, and its check.
use umbraco_mcp_ops.Prelude.{String, ℕ, Option, none, some, str_eq, if◌then◌else◌}
use umbraco_mcp_ops.Graph.Routine.{Routine}
use umbraco_mcp_ops.Graph.Json.{Json, as_text}
use umbraco_mcp_ops.Graph.Outcome.{Outcome, parse_outcome}

-- The kinds of a signal with what each carries, as it arrives: the outcome and the detail unchecked.
pub data SignalKind : Type 0 where
  process : String → SignalKind
  completion : Json → SignalKind
  outcome : Json → SignalKind
  blocked : Json → SignalKind
  ended : Json → SignalKind

pub record RoutineSignal : Type 0 where
  pub routine : Routine
  pub issue : ℕ
  pub kind : SignalKind

pub data UpdateKind : Type 0 where
  process : String → UpdateKind
  completion : Outcome → UpdateKind
  outcome : Outcome → UpdateKind
  blocked : String → UpdateKind
  ended : String → UpdateKind

pub record RoutineUpdate : Type 0 where
  pub routine : Routine
  pub issue : ℕ
  pub kind : UpdateKind

-- A text that is not empty.
abbrev non_empty : Option String → Option String
non_empty none = none
non_empty (some s) = if str_eq s "" then none else some s

abbrev mapped : {A : Type 0} → (A → UpdateKind) → Option A → Option UpdateKind
mapped f none = none
mapped f (some a) = some (f a)

parse_kind : SignalKind → Option UpdateKind
parse_kind (process step) = mapped process (non_empty (some step))
parse_kind (completion v) = mapped completion (parse_outcome v)
parse_kind (outcome v) = mapped outcome (parse_outcome v)
parse_kind (blocked v) = mapped blocked (non_empty (as_text (some v)))
parse_kind (ended v) = mapped ended (non_empty (as_text (some v)))

abbrev with_kind : Routine → ℕ → Option UpdateKind → Option RoutineUpdate
with_kind r n none = none
with_kind r n (some k) = some (record { routine = r; issue = n; kind = k })

-- `parseRoutineSignal`.
unfoldable pub parse_signal : RoutineSignal → Option RoutineUpdate
unfolding parse_kind
parse_signal s = with_kind s.routine s.issue (parse_kind s.kind)
