-- ===== src/WorkLog/Codec.antt =====
-- base64url and the two parts of a token (worker/src/work-log.ts): what is written is read back.
use umbraco_mcp_ops.Prelude.{
  ℕ, All, Bool-cases, inl, inr, ◌≡◌, ◌≢◌, refl, List, [], ◌∷◌, ◌++◌, map, some, false, ◌==◌, arith,
}
use umbraco_mcp_ops.WorkLog.{
  Tools, url_unit, base_unit, before_padding, strip_padding, b64url, from_b64url, split_dots,
}

-- Not "-", "_" or ".", none of which is of base64.
abbrev pub IsPlain : ℕ → Type 0
IsPlain c = (c ≢ 45) × (c ≢ 95) × (c ≢ 46)

abbrev pub IsNoDot : ℕ → Type 0
IsNoDot c = c ≢ 46

-- What `btoa` and `atob` are documented to do: `atob` gives back the bytes that `btoa` wrote, with its
-- padding or without, `btoa` writes nothing but base64, and writes something for some bytes.
pub record Base64 (tools : Tools) : Type 0 where
  pub reads : (bytes : List ℕ) → tools.atob (strip_padding (tools.btoa bytes)) ≡ some bytes
  pub plain : (bytes : List ℕ) → All IsPlain (tools.btoa bytes)
  pub full : (bytes : List ℕ) → bytes ≢ [] → strip_padding (tools.btoa bytes) ≢ []

url_unit-back : (c : ℕ) → IsPlain c → base_unit (url_unit c) ≡ c
url_unit-back c h = ground arith

url_unit-IsNoDot : (c : ℕ) → IsPlain c → IsNoDot (url_unit c)
url_unit-IsNoDot c h = ground arith

map-back : (cs : List ℕ) → All IsPlain cs → map base_unit (map url_unit cs) ≡ cs
map-back [] h = refl
map-back (c ∷ cs) h = rw (url_unit-back c h.0, map-back cs h.1) refl

map-IsNoDot : (cs : List ℕ) → All IsPlain cs → All IsNoDot (map url_unit cs)
map-IsNoDot [] h = tt
map-IsNoDot (c ∷ cs) h = (url_unit-IsNoDot c h.0, map-IsNoDot cs h.1)

padding_as : (c : ℕ) → (url_unit c == 61) ≡ (c == 61)
padding_as c = ground arith

before_padding-map :
    (c : ℕ) (ds : List ℕ)
    → before_padding (url_unit c) (map url_unit ds) ≡ map url_unit (before_padding c ds)
before_padding-map c [] = elim (Bool-cases (c == 61)) [
  | inl e ↦ rw (padding_as c, e) refl
  | inr e ↦ rw (padding_as c, e) refl
]
before_padding-map c (d ∷ ds) = refl

-- The padding can be left off before the units are replaced or after.
strip_padding-map :
    (cs : List ℕ) → strip_padding (map url_unit cs) ≡ map url_unit (strip_padding cs)
unfolding strip_padding
strip_padding-map [] = refl
strip_padding-map (c ∷ cs) = rw (strip_padding-map cs) (before_padding-map c (strip_padding cs))

before_padding-All :
    (P : ℕ → Type 0) (c : ℕ) (ds : List ℕ) → P c → All P ds → All P (before_padding c ds)
before_padding-All P c [] h k = elim (Bool-cases (c == 61)) [
  | inl e ↦ rw e tt
  | inr e ↦ rw e (h, tt)
]
before_padding-All P c (d ∷ ds) h k = (h, k)

strip_padding-All : (P : ℕ → Type 0) (cs : List ℕ) → All P cs → All P (strip_padding cs)
unfolding strip_padding
strip_padding-All P [] h = tt
strip_padding-All P (c ∷ cs) h =
    before_padding-All P c (strip_padding cs) h.0 (strip_padding-All P cs h.1)

pub b64url-back :
    (tools : Tools) (bytes : List ℕ)
    → Base64 tools
    → from_b64url tools (b64url tools bytes) ≡ some bytes
unfolding from_b64url b64url
b64url-back tools bytes b =
    let cs = strip_padding (tools.btoa bytes) in
    let plain = strip_padding-All IsPlain (tools.btoa bytes) (b.plain bytes) in
    rw (strip_padding-map (tools.btoa bytes), from_b64url, map-back cs plain) (b.reads bytes)

pub b64url-IsNoDot :
    (tools : Tools) (bytes : List ℕ) → Base64 tools → All IsNoDot (b64url tools bytes)
unfolding b64url
b64url-IsNoDot tools bytes b =
    strip_padding-All IsNoDot (map url_unit (tools.btoa bytes))
      (map-IsNoDot (tools.btoa bytes) (b.plain bytes))

map-filled : (cs : List ℕ) → cs ≢ [] → map url_unit cs ≢ []
map-filled [] h = absurd (h refl)
map-filled (c ∷ cs) h = λ e. cc

pub b64url-filled :
    (tools : Tools) (bytes : List ℕ) → Base64 tools → bytes ≢ [] → b64url tools bytes ≢ []
unfolding b64url
b64url-filled tools bytes b h =
    rw (strip_padding-map (tools.btoa bytes))
      (map-filled (strip_padding (tools.btoa bytes)) (b.full bytes h))

other_unit : (c : ℕ) → IsNoDot c → (c == 46) ≡ false
other_unit c h = ground arith

split_dots-one : (s : List ℕ) → All IsNoDot s → split_dots s ≡ s ∷ []
unfolding split_dots
split_dots-one [] h = refl
split_dots-one (c ∷ cs) h = rw (split_dots-one cs h.1, other_unit c h.0) refl

-- Two parts that have no dot, with one between them, are split into these.
pub split_dots-two :
    (p s : List ℕ) → All IsNoDot p → All IsNoDot s → split_dots (p ++ 46 ∷ s) ≡ p ∷ s ∷ []
unfolding split_dots
split_dots-two [] s h k = rw (split_dots-one s k) refl
split_dots-two (c ∷ cs) s h k = rw (split_dots-two cs s h.1 k, other_unit c h.0) refl
