-- ===== src/Intake/Signature.antt =====
-- worker/src/webhook-parse.ts, `verifySignature`. A text is the list of its UTF-16 units; the HMAC is
-- the platform's, its bytes an argument.
use umbraco_mcp_ops.Prelude.{
  ℕ, ◌+◌, ◌/◌, ◌%◌, Bool, false, not, Option, none, some, List, [], ◌∷◌, ◌++◌, length, ltb, ◌==◌,
  if◌then◌else◌,
}
use Prim.Native.Nat.{bit_or, bit_xor}

-- "sha256=".
abbrev pub prefix : List ℕ
prefix = 115 ∷ 104 ∷ 97 ∷ 50 ∷ 53 ∷ 54 ∷ 61 ∷ []

-- A digit of base 16: "0" to "9", then "a" to "f".
abbrev pub hex_digit : ℕ → ℕ
hex_digit n = if ltb n 10 then n + 48 else n + 87

-- `b.toString(16).padStart(2, "0")` of each byte, joined.
abbrev pub hex : List ℕ → List ℕ
hex [] = []
hex (b ∷ bs) = hex_digit (b / 16) ∷ hex_digit (b % 16) ∷ hex bs

abbrev pub expected : List ℕ → List ℕ
expected mac = prefix ++ hex mac

-- The loop of the comparison: every unit is compared, and the differences are joined.
unfoldable pub differences : ℕ → List ℕ → List ℕ → ℕ
differences diff [] ys = diff
differences diff (x ∷ xs) [] = differences (bit_or diff x) xs []
differences diff (x ∷ xs) (y ∷ ys) = differences (bit_or diff (bit_xor x y)) xs ys

unfoldable pub same_signature : List ℕ → List ℕ → Bool
same_signature xs ys = if not (length xs == length ys) then false else differences 0 xs ys == 0

-- `verifySignature`, given the bytes of the body's HMAC.
unfoldable pub verify_signature : List ℕ → Option (List ℕ) → Bool
verify_signature mac none = false
verify_signature mac (some []) = false
verify_signature mac (some (c ∷ cs)) = same_signature (expected mac) (c ∷ cs)
