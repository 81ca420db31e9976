-- ===== src/Graph/ClosingRefs.antt =====
-- graph/github/closing-refs.ts: the issues that a PR's description closes.
use umbraco_mcp_ops.Prelude.{
  ℕ, String, not, Option, none, some, List, [], ◌∷◌, ◌==◌, filter, str_eq, if◌then◌else◌,
}
use umbraco_mcp_ops.Graph.Json.{Engine}

-- The members of a list in the order of their first place, as a `Set` keeps them.
unfoldable pub first_of_each : List ℕ → List ℕ
first_of_each [] = []
first_of_each (n ∷ ns) = n ∷ filter (λ m. not (n == m)) (first_of_each ns)

-- `closingIssues`.
unfoldable pub closing_issues : Engine → Option String → List ℕ
unfolding first_of_each
closing_issues e none = []
closing_issues e (some body) = if str_eq body "" then [] else first_of_each (e.closing body)
