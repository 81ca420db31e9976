-- ===== src/Intake/SignatureExact.antt =====
-- The comparison of a signature (worker/src/webhook-parse.ts) is equality.
use umbraco_mcp_ops.Prelude.{
  ℕ, zero, suc, ◌/◌, ◌%◌, ◌≤◌, max, ◌≡◌, refl, sym, ap, ◌∙◌, ◌↔◌, true, Option, none, some, List,
  [], ◌∷◌, length, ◌==◌, ==_iff, ==_refl, Bool-cases, inl, inr, arith,
}
use Prim.Native.Nat.{bit_or, bit_xor, digits, differ, bit_or-bitwise, bit_xor-bitwise}
use umbraco_mcp_ops.Intake.Signature.{expected, differences, same_signature, verify_signature}

differ-zero : (x y : ℕ) → differ x y ≡ 0 → x ≡ y
differ-zero zero y h = sym h
differ-zero (suc x) zero h = absurd (omega (arith, h))
differ-zero (suc x) (suc y) h = ap suc (differ-zero x y h)

differ_self : (x : ℕ) → differ x x ≡ 0
differ_self zero = refl
differ_self (suc x) = differ_self x

xor_digits : ℕ → ℕ → ℕ → ℕ
xor_digits n a b = digits (λ b. b) differ n a b

or_digits : ℕ → ℕ → ℕ → ℕ
or_digits n a b = digits (λ b. b) max n a b

xor_digits-zero : (n a b : ℕ) → a ≤ n → xor_digits n a b ≡ 0 → a ≡ b
unfolding xor_digits
xor_digits-zero zero a b p h = omega arith
xor_digits-zero (suc n) zero b p h = sym h
xor_digits-zero (suc n) (suc a) b p h = omega (
  arith,
  xor_digits-zero n (suc a / 2) (b / 2) (omega arith) (omega arith),
  differ-zero (suc a % 2) (b % 2) (omega arith),
)

xor_digits_self : (n a : ℕ) → a ≤ n → xor_digits n a a ≡ 0
unfolding xor_digits
xor_digits_self zero a p = omega arith
xor_digits_self (suc n) zero p = refl
xor_digits_self (suc n) (suc a) p =
    omega (arith, xor_digits_self n (suc a / 2) (omega arith), differ_self (suc a % 2))

or_digits-zero : (n a b : ℕ) → a ≤ n → or_digits n a b ≡ 0 → (a ≡ 0) × (b ≡ 0)
unfolding or_digits
or_digits-zero zero a b p h = (omega arith, h)
or_digits-zero (suc n) zero b p h = (refl, h)
or_digits-zero (suc n) (suc a) b p h =
    let r = or_digits-zero n (suc a / 2) (b / 2) (omega arith) (omega arith) in
    absurd (omega (arith, r, h))

bit_xor-zero : (a b : ℕ) → (bit_xor a b ≡ 0) ↔ (a ≡ b)
unfolding xor_digits
bit_xor-zero a b = (
  λ h. xor_digits-zero a a b (omega arith) (sym (bit_xor-bitwise a b) ∙ h),
  λ e. ap (bit_xor a) (sym e) ∙ bit_xor-bitwise a a ∙ xor_digits_self a a (omega arith),
)

bit_or-zero : (a b : ℕ) → bit_or a b ≡ 0 → (a ≡ 0) × (b ≡ 0)
unfolding or_digits
bit_or-zero a b h = or_digits-zero a a b (omega arith) (sym (bit_or-bitwise a b) ∙ h)

-- The joined differences are 0 only where there were none.
differences-zero :
    (diff : ℕ) (xs ys : List ℕ)
    → length xs ≡ length ys
    → differences diff xs ys ≡ 0
    → (diff ≡ 0) × (xs ≡ ys)
unfolding differences
differences-zero diff [] [] e h = (h, refl)
differences-zero diff [] (y ∷ ys) e h = absurd (omega arith)
differences-zero diff (x ∷ xs) [] e h = absurd (omega arith)
differences-zero diff (x ∷ xs) (y ∷ ys) e h =
    let r = differences-zero (bit_or diff (bit_xor x y)) xs ys (omega arith) h in
    let s = bit_or-zero diff (bit_xor x y) r.0 in
    let q : x ≡ y = (bit_xor-zero x y).0 s.1 in (s.0, cc (q, r.1))

differences_self : (xs : List ℕ) → differences 0 xs xs ≡ 0
unfolding differences
differences_self [] = refl
differences_self (x ∷ xs) = rw ((bit_xor-zero x x).1 refl) (differences_self xs)

pub same_signature_iff : (xs ys : List ℕ) → (same_signature xs ys ≡ true) ↔ (xs ≡ ys)
unfolding same_signature
same_signature_iff xs ys = (
  λ h. elim (Bool-cases (length xs == length ys)) [
    | inl e ↦
        (differences-zero 0 xs ys ((==_iff _ (length ys)).0 e)
          ((==_iff (differences 0 xs ys) 0).0 (rw e at h))).1
    | inr e ↦ absurd (cc (sym (rw e at h)))
  ],
  λ e. rw (← e, ==_refl (length xs), differences_self xs) refl,
)

-- A signature is accepted exactly where the header is "sha256=" with the bytes of the body's HMAC
-- written in base 16, whatever those bytes are.
pub verify_signature_iff :
    (mac : List ℕ) (header : Option (List ℕ))
    → (verify_signature mac header ≡ true) ↔ (header ≡ some (expected mac))
unfolding verify_signature
verify_signature_iff mac none = (λ h. cc, λ h. cc)
verify_signature_iff mac (some []) = (λ h. cc, λ h. cc)
verify_signature_iff mac (some (c ∷ cs)) = (
  λ h. ap some (sym ((same_signature_iff (expected mac) (c ∷ cs)).0 h)),
  λ e. (same_signature_iff (expected mac) (c ∷ cs)).1 (cc e),
)
