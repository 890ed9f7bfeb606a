-- ===== src/Fields/Flags/Powers.antt =====
-- Which constants `#[ubx_extend_bitflags]` takes (ublox_derive/src/output.rs).
use ublox.Prelude.{
  ℕ, zero, suc, ◌+◌, ◌*◌, ◌^◌, ◌≤◌, ◌<◌, ◌≡◌, ◌⊎◌, refl, ◌∙◌, ap, ◌==◌, if◌then◌else◌, some, List,
  [], ◌∷◌, arith, Option-cases, Bool-cases, inl, inr, length, All,
}
use native.Mathlib.Nat.{pow-succ'}
use ublox.Error.{ok}
use ublox.Fields.Flags.{
  BitFlagsMacroItem, BitFlagsMacro, Flag, find_const, known_flags, check_flags, extend,
}
use ublox.Fields.Flags.Laws.{flags-extend, lt-two_pow}

double-pow : (n : ℕ) → 2 ^ (n + 1) ≡ 2 * 2 ^ n
double-pow n = let e : n + 1 ≡ suc n = omega arith in ap (◌^◌ 2) e ∙ pow-succ' 2 n

-- The bits of the loop that one value has.
single : ℕ → (bit rounds : ℕ) → ℕ
single value bit zero = 0
single value bit (suc rounds) =
    let rest = single value (bit + 1) rounds in if value == 2 ^ bit then suc rest else rest

-- A value is of one bit at most.
abbrev Single : ℕ → (bit rounds : ℕ) → Type 0
Single value bit rounds =
    (single value bit rounds ≡ 0)
    ⊎ ((single value bit rounds ≡ 1) × ((i : ℕ) × (bit ≤ i) × (i < bit + rounds) × (value ≡ 2 ^ i)))

no_single : (value bit rounds : ℕ) → value < 2 ^ bit → single value bit rounds ≡ 0
unfolding single
no_single value bit zero h = refl
no_single value bit (suc rounds) h =
    let above : value < 2 ^ (bit + 1) = omega (arith, double-pow bit) in
    let rest = no_single value (bit + 1) rounds above in ground arith

Single-value : (value bit rounds : ℕ) → Single value bit rounds
unfolding single
Single-value value bit zero = inl refl
Single-value value bit (suc rounds) = elim (Bool-cases (value == 2 ^ bit)) [
  | inl same ↦
      let above : value < 2 ^ (bit + 1) =
        (let e : value ≡ 2 ^ bit = ground arith in
          omega (arith, e, double-pow bit, lt-two_pow bit)) in
      inr (
        rw same (ap suc (no_single value (bit + 1) rounds above)),
        (bit, omega arith, omega arith, ground arith),
      )
  | inr other ↦ elim (Single-value value (bit + 1) rounds) [
    | inl none_of ↦ inl (rw other none_of)
    | inr (one, (i, le, lt, e)) ↦ inr (rw other one, (i, omega arith, omega arith, e))
  ]
]

known_flags-cons :
    (c : BitFlagsMacroItem) (consts : List BitFlagsMacroItem) (bit rounds : ℕ)
    → known_flags (c ∷ consts) bit rounds
      ≤ single c.value bit rounds + known_flags consts bit rounds
unfolding known_flags find_const single
known_flags-cons c consts bit zero = omega arith
known_flags-cons c consts bit (suc rounds) =
    let rest = known_flags-cons c consts (bit + 1) rounds in
    elim (Option-cases (find_const consts (2 ^ bit))) [
      | inl p ↦ ground arith
      | inr (d, p) ↦ ground arith
    ]

known_flags-nil : (bit rounds : ℕ) → known_flags [] bit rounds ≡ 0
unfolding known_flags find_const
known_flags-nil bit zero = refl
known_flags-nil bit (suc rounds) = known_flags-nil (bit + 1) rounds

single-le : (value bit rounds : ℕ) → single value bit rounds ≤ 1
single-le value bit rounds = elim (Single-value value bit rounds) [
  | inl e ↦ omega arith
  | inr (e, at) ↦ omega arith
]

known_flags-le_length :
    (consts : List BitFlagsMacroItem) (bit rounds : ℕ)
    → known_flags consts bit rounds ≤ length consts
known_flags-le_length [] bit rounds = omega (arith, known_flags-nil bit rounds)
known_flags-le_length (c ∷ consts) bit rounds = omega (
  arith,
  known_flags-cons c consts bit rounds,
  single-le c.value bit rounds,
  known_flags-le_length consts bit rounds,
)

-- A constant of one bit of a word of so many.
abbrev pub IsBit : ℕ → BitFlagsMacroItem → Type 0
IsBit nbits c = (bit : ℕ) × (bit < nbits) × (c.value ≡ 2 ^ bit)

All-IsBit :
    (consts : List BitFlagsMacroItem) (nbits : ℕ)
    → known_flags consts 0 nbits ≡ length consts
    → All (IsBit nbits) consts
All-IsBit [] nbits e = tt
All-IsBit (c ∷ consts) nbits e =
    let more = known_flags-cons c consts 0 nbits in
    let few = known_flags-le_length consts 0 nbits in
    elim (Single-value c.value 0 nbits) [
      | inl none_of ↦ absurd (omega arith)
      | inr (one, (i, le, lt, at)) ↦ ((i, omega arith, at), All-IsBit consts nbits (omega arith))
    ]

-- Where the macro accepts a struct of flags, each constant of the source is a power of two that is
-- a bit of the struct's width.
pub All-IsBit-extend :
    (b : BitFlagsMacro) (flags : List Flag)
    → extend b ≡ some (ok flags)
    → All (IsBit b.nbits) b.consts
unfolding check_flags
All-IsBit-extend b flags e =
    let checked = flags-extend b flags e in All-IsBit b.consts b.nbits (ground arith)
