-- ===== src/Graph/Json.antt =====
-- Values of JavaScript that arrive from outside (`unknown`), and the parts of the JavaScript engine
-- that the program calls on text. `JSON.parse`, `JSON.stringify` and the regular expressions are the
-- engine's own code: they are fields of `Engine`, arguments of what uses them.
use umbraco_mcp_ops.Prelude.{
  ℕ, String, Bool, false, Option, none, some, List, str_eq, if◌then◌else◌, ◌==◌,
}

-- A number of JavaScript: a natural one, or any other by its text (a fraction, a negative, NaN).
pub data Number : Type 0 where
  natural : ℕ → Number
  unusual : String → Number

-- `n === k`, for a natural number `k`.
abbrev pub is_number : ℕ → Number → Bool
is_number k (natural n) = n == k
is_number k (unusual s) = false

mutual
  pub data Json : Type 0 where
    null : Json
    bool : Bool → Json
    number : Number → Json
    text : String → Json
    array : Items → Json
    object : Fields → Json

  pub data Items : Type 0 where
    nil : Items
    item : Json → Items → Items

  pub data Fields : Type 0 where
    end : Fields
    field : String → Json → Fields → Fields

-- `v[k]` of an object; `none` is `undefined`.
unfoldable pub get : String → Fields → Option Json
get k end = none
get k (field j v fs) = if str_eq j k then some v else get k fs

-- The value if `typeof v === "string"`, or `"number"`.
abbrev pub as_text : Option Json → Option String
as_text (some (text s)) = some s
as_text _ = none

abbrev pub as_number : Option Json → Option Number
as_number (some (number n)) = some n
as_number _ = none

pub record Engine : Type 0 where
  -- The first capture of `<!-- agent-outcome:([a-zA-Z0-9_-]+) -->` in a text, if it matches.
  pub marker : String → Option String
  -- The first capture of a text's first JSON code fence, if it has one.
  pub fence : String → Option String
  -- `JSON.parse`; `none` where it throws.
  pub parse_json : String → Option Json
  -- `JSON.stringify`.
  pub stringify : Json → String
  -- `s.trimStart()`.
  pub trim_start : String → String
  -- The numbers that the closing-keyword pattern captures in a text, in order.
  pub closing : String → List ℕ
  -- A report's text within its limits: `s.slice(0, n)`.
  pub slice : ℕ → String → String
  -- A number in a template literal.
  pub show : Number → String
  -- `/`/g replaced by its JSON escape.
  pub escape_backticks : String → String
  -- Each run of backticks and line ends, replaced by a space.
  pub one_line : String → String
  -- `s.trim()`.
  pub trim : String → String
