-- ===== src/Prelude/Search.antt =====
-- The first place of a byte: `iter().position`, and the loop over indices that looks for one.
use Prim.Native.Nat.{ℕ, zero, suc, ◌+◌, ◌<◌}
use mathlib.Core.Path.{◌≡◌, refl, ap, ◌∙◌}
use mathlib.Core.Logic.{◌≢◌, inl, inr}
use mathlib.Core.Bool.{true, false}
use mathlib.Core.Option.{Option, none, some}
use mathlib.Core.List.{List, [], ◌∷◌}
use native.Mathlib.Omega.{arith}
use ublox.Prelude.Tests.{◌==◌, if◌then◌else◌, Option-cases}
use ublox.Prelude.Lists.{length, get_elem?}

-- An index counted from `i` on.
abbrev pub shift : ℕ → Option ℕ → Option ℕ
shift i none = none
shift i (some j) = some (i + j)

unfoldable pub position : ℕ → List ℕ → Option ℕ
position value [] = none
position value (x ∷ xs) = if x == value then some 0 else shift 1 (position value xs)

-- `for i in i..i + rounds { if self[i] == value { return Some(i) } } None`; a read may panic.
unfoldable pub find_index : (ℕ → Option ℕ) → ℕ → ℕ → ℕ → Option (Option ℕ)
find_index read value i zero = some none
find_index read value i (suc rounds) = elim (read i) [
  | none ↦ none
  | some x ↦ elim (x == value) [
    | true ↦ some (some i)
    | false ↦ find_index read value (i + 1) rounds
  ]
]

-- The loop finds the first place, where the reads are those of a list.
find_index-position :
    (read : ℕ → Option ℕ) (value i : ℕ) (ys : List ℕ)
    → ((k : ℕ) → k < length ys → read (i + k) ≡ get_elem? ys k)
    → find_index read value i (length ys) ≡ some (shift i (position value ys))
unfolding find_index position
find_index-position read value i [] h = refl
find_index-position read value i (y ∷ ys) h =
    ground
      (arith, h 0, find_index-position read value (i + 1) ys (λ k lt. ground (arith, h (suc k))))

shift-zero : (o : Option ℕ) → shift 0 o ≡ o
shift-zero none = refl
shift-zero (some j) = ground arith

-- The loop over all indices.
pub find_index_all :
    (read : ℕ → Option ℕ) (value n : ℕ) (ys : List ℕ)
    → n ≡ length ys
    → ((k : ℕ) → k < length ys → read k ≡ get_elem? ys k)
    → find_index read value 0 n ≡ some (position value ys)
find_index_all read value n ys e h = rw e (
    find_index-position read value 0 ys (λ k lt. ground (arith, h k))
    ∙ ap some (shift-zero (position value ys)))

-- The byte at the place is the one looked for, and the place is within the list.
pub position-some :
    (value : ℕ) (xs : List ℕ) (i : ℕ)
    → position value xs ≡ some i
    → (i < length xs) × (get_elem? xs i ≡ some value)
unfolding position
position-some value [] i e = cc
position-some value (x ∷ xs) zero e = elim (Option-cases (position value xs)) [
  | inl p ↦ ground arith
  | inr (j, p) ↦ ground arith
]
position-some value (x ∷ xs) (suc i) e = elim (Option-cases (position value xs)) [
  | inl p ↦ ground arith
  | inr (j, p) ↦ ground (arith, position-some value xs i)
]

-- A byte that has no place is nowhere in the list.
position-none :
    (value : ℕ) (xs : List ℕ) (i : ℕ) → position value xs ≡ none → get_elem? xs i ≢ some value
unfolding position
position-none value [] i e = λ h. cc
position-none value (x ∷ xs) zero e = λ h. ground arith
position-none value (x ∷ xs) (suc i) e = λ h. elim (Option-cases (position value xs)) [
  | inl p ↦ position-none value xs i p h
  | inr (j, p) ↦ ground arith
]

-- Nothing before the place is the byte looked for.
position-first :
    (value : ℕ) (xs : List ℕ) (i j : ℕ)
    → position value xs ≡ some i
    → j < i
    → get_elem? xs j ≢ some value
unfolding position
position-first value [] i j e lt = λ h. cc
position-first value (x ∷ xs) zero j e lt = λ h. absurd (omega arith)
position-first value (x ∷ xs) (suc i) zero e lt = λ h. ground arith
position-first value (x ∷ xs) (suc i) (suc j) e lt = λ h. elim (Option-cases (position value xs)) [
  | inl p ↦ ground arith
  | inr (k, p) ↦ position-first value xs i j (ground arith) (omega arith) h
]

pub position-cons_none :
    (value x : ℕ) (xs : List ℕ)
    → position value (x ∷ xs) ≡ none
    → ((x == value) ≡ false) × (position value xs ≡ none)
unfolding position
position-cons_none value x xs e = elim (Option-cases (position value xs)) [
  | inl p ↦ ground arith
  | inr (j, p) ↦ ground arith
]
