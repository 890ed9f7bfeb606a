-- ===== src/Fields/Enums/Laws.antt =====
-- Bytes and the variants of an enum (ublox_derive/src/output.rs).
use ublox.Prelude.{
  ℕ, zero, suc, ◌+◌, ◌≤◌, ◌<◌, ◌≡◌, refl, ◌∙◌, ap, Option, none, some, List, [], ◌∷◌, ◌++◌, Bool,
  true, false, ◌==◌, arith, Bool-cases, inl, inr, ◌⊎◌, Option-cases,
}
use mathlib.Core.List.{Memᴰ}
use mathlib.Core.List.Memᴰ.{head, tail, append_cases}
use ublox.Fields.Enums.{
  Variant, reserved, UbxExtendEnum, rest_reserved, rest_error, into_raw, is_defined, rest_from,
  all_variants, match_value, from_byte, is_valid_byte,
}

-- A byte that is defined is matched by a variant with this value, another by none.
abbrev pub Matches : ℕ → Bool → Option Variant → Type 0
Matches x true out = (v : Variant) × (out ≡ some v) × (into_raw v ≡ x)
Matches x false out = out ≡ none

Matches-match_value :
    (variants : List Variant) (x : ℕ) → Matches x (is_defined variants x) (match_value variants x)
unfolding is_defined match_value
Matches-match_value [] x = refl
Matches-match_value (v ∷ variants) x = elim (Bool-cases (into_raw v == x)) [
  | inl same ↦
      let flip : (x == into_raw v) ≡ true = ground arith in rw (same, flip) (v, refl, ground arith)
  | inr other ↦
      let flip : (x == into_raw v) ≡ false = ground arith in
      rw (other, flip) (Matches-match_value variants x)
]

-- A byte that `is_valid` accepts is matched by a variant with this value, any other by none.
pub Matches-from_byte : (e : UbxExtendEnum) (x : ℕ) → Matches x (is_valid_byte e x) (from_byte e x)
unfolding is_valid_byte from_byte
Matches-from_byte e x = Matches-match_value (all_variants e) x

match_value-append_left :
    (xs ys : List Variant) (x : ℕ) {v : Variant}
    → match_value xs x ≡ some v
    → match_value (xs ++ ys) x ≡ some v
unfolding match_value
match_value-append_left [] ys x e = absurd (ground arith)
match_value-append_left (w ∷ xs) ys x {v = v} e = elim (Bool-cases (x == into_raw w)) [
  | inl same ↦ ground arith
  | inr other ↦ ground (arith, match_value-append_left xs ys x {v = v})
]

match_value-append_right :
    (xs ys : List Variant) (x : ℕ)
    → is_defined xs x ≡ false
    → match_value (xs ++ ys) x ≡ match_value ys x
unfolding match_value is_defined
match_value-append_right [] ys x e = refl
match_value-append_right (w ∷ xs) ys x e = ground (arith, match_value-append_right xs ys x)

-- A value that the enum does not define has a variant of its own.
match_value-rest_from :
    (defined : List Variant) (i rounds x : ℕ)
    → is_defined defined x ≡ false
    → i ≤ x
    → x < i + rounds
    → match_value (rest_from defined i rounds) x ≡ some (reserved x)
unfolding match_value rest_from into_raw
match_value-rest_from defined i zero x e h k = absurd (omega arith)
match_value-rest_from defined i (suc rounds) x e h k = elim (Bool-cases (x == i)) [
  | inl same ↦ let here : x ≡ i = ground arith in rw (← here) (rw e (ground arith))
  | inr other ↦
      let more = match_value-rest_from defined (i + 1) rounds x e (ground arith) (omega arith) in
      elim (Bool-cases (is_defined defined i)) [
        | inl old ↦ rw old more
        | inr new ↦ rw (new, other) more
      ]
]

-- The match of an enum with reserved values.
abbrev all_of : List Variant → List Variant
all_of variants = variants ++ rest_from variants 0 256

all_variants-reserved :
    (e : UbxExtendEnum) → e.rest_handling ≡ some rest_reserved → all_variants e ≡ all_of e.variants
unfolding all_variants
all_variants-reserved e h = ground arith

match_value-all_of :
    (variants : List Variant) (x : ℕ)
    → x < 256
    → (v : Variant) × (match_value (all_of variants) x ≡ some v) × (into_raw v ≡ x)
unfolding into_raw
match_value-all_of variants x h = elim (Bool-cases (is_defined variants x)) [
  | inl old ↦
      let (v, run, e) = rw old at (Matches-match_value variants x) in
      (v, match_value-append_left variants (rest_from variants 0 256) x run, e)
  | inr new ↦ (
    reserved x,
    match_value-append_right variants (rest_from variants 0 256) x new
        ∙ match_value-rest_from variants 0 256 x new (omega arith) (omega arith),
    refl,
  )
]

-- With `rest_reserved`, each byte is matched by a variant with this value.
from_byte-reserved :
    (e : UbxExtendEnum) (x : ℕ)
    → e.rest_handling ≡ some rest_reserved
    → x < 256
    → (v : Variant) × (from_byte e x ≡ some v) × (into_raw v ≡ x)
unfolding from_byte
from_byte-reserved e x h k =
    let (v, run, same) = match_value-all_of e.variants x k in
    (v, ap (λ vs. match_value vs x) (all_variants-reserved e h) ∙ run, same)

-- No two variants have the same value, as in any Rust enum.
abbrev Distinct : List Variant → Type 0
Distinct [] = Unit
Distinct (v ∷ variants) = (is_defined variants (into_raw v) ≡ false) × Distinct variants

is_defined-Memᴰ :
    {v : Variant} {variants : List Variant}
    → Memᴰ v variants
    → is_defined variants (into_raw v) ≡ true
unfolding is_defined
is_defined-Memᴰ {v} {variants = []} m = elim m [ ]
is_defined-Memᴰ {v} {variants = w ∷ variants} (head e) = rw e (ground arith)
is_defined-Memᴰ {v} {variants = w ∷ variants} (tail m) =
    ground (arith, is_defined-Memᴰ {v = v} {variants = variants} m)

match_value-Memᴰ :
    {v : Variant} {variants : List Variant}
    → Distinct variants
    → Memᴰ v variants
    → match_value variants (into_raw v) ≡ some v
unfolding match_value
match_value-Memᴰ {v} {variants = []} d m = elim m [ ]
match_value-Memᴰ {v} {variants = w ∷ variants} d (head e) = rw e (ground arith)
match_value-Memᴰ {v} {variants = w ∷ variants} d (tail m) =
    elim (Bool-cases (into_raw v == into_raw w)) [
      | inl same ↦ absurd (ground (arith, is_defined-Memᴰ m))
      | inr other ↦ rw other (match_value-Memᴰ d.1 m)
    ]

Memᴰ-uncons : {v w : Variant} {xs : List Variant} → Memᴰ v (w ∷ xs) → (v ≡ w) ⊎ Memᴰ v xs
Memᴰ-uncons (head e) = inl e
Memᴰ-uncons (tail m) = inr m

-- A variant that the macro adds.
abbrev Added : List Variant → Variant → ℕ → ℕ → Type 0
Added defined v from to =
    (x : ℕ) × (v ≡ reserved x) × (is_defined defined x ≡ false) × (from ≤ x) × (x < to)

Added-Memᴰ :
    {v : Variant} (defined : List Variant) (i rounds : ℕ)
    → Memᴰ v (rest_from defined i rounds)
    → Added defined v i (i + rounds)
unfolding rest_from
Added-Memᴰ {v} defined i zero m = elim m [ ]
Added-Memᴰ {v} defined i (suc rounds) m =
    let later : Memᴰ v (rest_from defined (i + 1) rounds) → Added defined v i (i + suc rounds) =
      λ n.
        let (x, e, new, le, lt) = Added-Memᴰ defined (i + 1) rounds n in
        (x, e, new, omega arith, omega arith) in
    elim (Bool-cases (is_defined defined i)) [
      | inl old ↦ later (rw old at m)
      | inr new ↦ elim (Memᴰ-uncons (rw new at m)) [
        | inl e ↦ (i, e, new, omega arith, omega arith)
        | inr n ↦ later n
      ]
    ]

match_value-Memᴰ_all_of :
    {v : Variant} (variants : List Variant)
    → Distinct variants
    → Memᴰ v (all_of variants)
    → match_value (all_of variants) (into_raw v) ≡ some v
match_value-Memᴰ_all_of {v} variants d m = elim (append_cases variants m) [
  | inl user ↦
      match_value-append_left variants (rest_from variants 0 256) (into_raw v)
        (match_value-Memᴰ d user)
  | inr made ↦
      let (x, e, new, le, lt) = Added-Memᴰ variants 0 256 made in
      rw e (
        unfold into_raw in
        match_value-append_right variants (rest_from variants 0 256) x new
        ∙ match_value-rest_from variants 0 256 x new le lt)
]

-- For an enum no two variants of which have the same value, `from` of the value of any variant,
-- those that the macro adds included, is this variant.
pub from_byte-into_raw :
    (e : UbxExtendEnum) (v : Variant)
    → Distinct e.variants
    → Memᴰ v (all_variants e)
    → from_byte e (into_raw v) ≡ some v
unfolding from_byte all_variants
from_byte-into_raw e v d m = elim (Option-cases e.rest_handling) [
  | inl p ↦ rw p (match_value-Memᴰ d (rw p at m))
  | inr (rest_reserved, p) ↦ rw p (match_value-Memᴰ_all_of e.variants d (rw p at m))
  | inr (rest_error, p) ↦ rw p (match_value-Memᴰ d (rw p at m))
]
