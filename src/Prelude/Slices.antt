-- ===== src/Prelude/Slices.antt =====
-- Laws of `take`, `drop`, `get_elem?` and `++`, and ranges of a slice.
use Prim.Native.Nat.{ℕ, zero, suc, ◌+◌, ◌-◌, ◌≤◌, ◌<◌, min}
use mathlib.Core.Path.{◌≡◌, refl, sym, ap, ◌∙◌}
use mathlib.Core.List.{List, [], ◌∷◌, ◌++◌, append_assoc}
use mathlib.Core.Option.{some}
use native.Mathlib.Omega.{arith}
use ublox.Prelude.Lists.{
  length, get_elem?, take, drop, length-append, length-drop, length-take, take-append-drop,
}

-- The length of a list that is put together from parts of others.
pub ruleset lengths = (length-append, length-take, length-drop)

module _ {ℓ} {A : Type ℓ} where
  -- `xs[start..end]`, for a range within the list
  abbrev pub slice : ℕ → ℕ → List A → List A
  slice start end xs = take (end - start) (drop start xs)

  pub drop-nil : (n : ℕ) → drop {A = A} n [] ≡ []
  drop-nil zero = refl
  drop-nil (suc n) = refl

  pub take-nil : (n : ℕ) → take {A = A} n [] ≡ []
  take-nil zero = refl
  take-nil (suc n) = refl

  pub drop-append :
      (n : ℕ) (xs ys : List A) → drop n (xs ++ ys) ≡ drop n xs ++ drop (n - length xs) ys
  drop-append zero [] ys = refl
  drop-append zero (x ∷ xs) ys = ground arith
  drop-append (suc n) [] ys = ground arith
  drop-append (suc n) (x ∷ xs) ys = ground (arith, drop-append n xs ys)

  pub take-append :
      (n : ℕ) (xs ys : List A) → take n (xs ++ ys) ≡ take n xs ++ take (n - length xs) ys
  take-append zero [] ys = refl
  take-append zero (x ∷ xs) ys = ground arith
  take-append (suc n) [] ys = ground arith
  take-append (suc n) (x ∷ xs) ys = ground (arith, take-append n xs ys)

  pub drop-drop : (n m : ℕ) (xs : List A) → drop n (drop m xs) ≡ drop (m + n) xs
  drop-drop n zero xs = ground arith
  drop-drop n (suc m) [] = drop-nil n ∙ sym (drop-nil (suc m + n))
  drop-drop n (suc m) (x ∷ xs) =
      let e : suc m + n ≡ suc (m + n) = omega arith in rw e (drop-drop n m xs)

  pub take-of_le : (n : ℕ) (xs : List A) → length xs ≤ n → take n xs ≡ xs
  take-of_le zero [] h = refl
  take-of_le zero (x ∷ xs) h = absurd (omega arith)
  take-of_le (suc n) [] h = refl
  take-of_le (suc n) (x ∷ xs) h = ap (◌∷◌ x) (take-of_le n xs (omega arith))

  pub drop-of_le : (n : ℕ) (xs : List A) → length xs ≤ n → drop n xs ≡ []
  drop-of_le zero [] h = refl
  drop-of_le zero (x ∷ xs) h = absurd (omega arith)
  drop-of_le (suc n) [] h = refl
  drop-of_le (suc n) (x ∷ xs) h = drop-of_le n xs (omega arith)

  pub take-take : (n m : ℕ) (xs : List A) → n ≤ m → take n (take m xs) ≡ take n xs
  take-take zero m xs h = refl
  take-take (suc n) zero xs h = absurd (omega arith)
  take-take (suc n) (suc m) [] h = refl
  take-take (suc n) (suc m) (x ∷ xs) h = ap (◌∷◌ x) (take-take n m xs (omega arith))

  pub drop-take : (n m : ℕ) (xs : List A) → drop n (take m xs) ≡ take (m - n) (drop n xs)
  drop-take zero m xs = ground arith
  drop-take (suc n) zero xs = ground arith
  drop-take (suc n) (suc m) [] = sym (take-nil (suc m - suc n))
  drop-take (suc n) (suc m) (x ∷ xs) = ground (arith, drop-take n m xs)

  pub get_elem?-append_left :
      (xs ys : List A) (i : ℕ) → i < length xs → get_elem? (xs ++ ys) i ≡ get_elem? xs i
  get_elem?-append_left [] ys i h = absurd (omega arith)
  get_elem?-append_left (x ∷ xs) ys zero h = refl
  get_elem?-append_left (x ∷ xs) ys (suc i) h = get_elem?-append_left xs ys i (omega arith)

  pub get_elem?-append_right :
      (xs ys : List A) (i : ℕ)
      → length xs ≤ i
      → get_elem? (xs ++ ys) i ≡ get_elem? ys (i - length xs)
  get_elem?-append_right [] ys i h = ap (get_elem? ys) (omega arith)
  get_elem?-append_right (x ∷ xs) ys zero h = absurd (omega arith)
  get_elem?-append_right (x ∷ xs) ys (suc i) h =
      get_elem?-append_right xs ys i (omega arith) ∙ ap (get_elem? ys) (omega arith)

  pub get_elem?-drop :
      (n : ℕ) (xs : List A) (i : ℕ) → get_elem? (drop n xs) i ≡ get_elem? xs (n + i)
  get_elem?-drop zero xs i = ground arith
  get_elem?-drop (suc n) [] i = refl
  get_elem?-drop (suc n) (x ∷ xs) i = ground (arith, get_elem?-drop n xs i)

  pub get_elem?-take :
      (n : ℕ) (xs : List A) (i : ℕ) → i < n → get_elem? (take n xs) i ≡ get_elem? xs i
  get_elem?-take zero xs i h = absurd (omega arith)
  get_elem?-take (suc n) [] i h = refl
  get_elem?-take (suc n) (x ∷ xs) zero h = refl
  get_elem?-take (suc n) (x ∷ xs) (suc i) h = get_elem?-take n xs i (omega arith)

  -- A read in range succeeds.
  pub get_elem?-of_lt : (xs : List A) (i : ℕ) → i < length xs → (x : A) × (get_elem? xs i ≡ some x)
  get_elem?-of_lt [] i h = absurd (omega arith)
  get_elem?-of_lt (x ∷ xs) zero h = (x, refl)
  get_elem?-of_lt (x ∷ xs) (suc i) h = get_elem?-of_lt xs i (omega arith)

  -- The item that a read returns stands at the head of what is left behind it.
  pub drop-of_get_elem? :
      (xs : List A) (i : ℕ) {x : A} → get_elem? xs i ≡ some x → drop i xs ≡ x ∷ drop (i + 1) xs
  drop-of_get_elem? [] i e = cc
  drop-of_get_elem? (x ∷ xs) zero e = ground arith
  drop-of_get_elem? (x ∷ xs) (suc i) e = ground (arith, drop-of_get_elem? xs i e)

  -- A prefix of a known length, and what stands behind it.
  pub take-append_exact : (n : ℕ) (xs ys : List A) → n ≡ length xs → take n (xs ++ ys) ≡ xs
  take-append_exact zero [] ys e = refl
  take-append_exact zero (x ∷ xs) ys e = absurd (omega arith)
  take-append_exact (suc n) [] ys e = absurd (omega arith)
  take-append_exact (suc n) (x ∷ xs) ys e = ap (◌∷◌ x) (take-append_exact n xs ys (omega arith))

  pub drop-append_exact : (n : ℕ) (xs ys : List A) → n ≡ length xs → drop n (xs ++ ys) ≡ ys
  drop-append_exact zero [] ys e = refl
  drop-append_exact zero (x ∷ xs) ys e = absurd (omega arith)
  drop-append_exact (suc n) [] ys e = absurd (omega arith)
  drop-append_exact (suc n) (x ∷ xs) ys e = drop-append_exact n xs ys (omega arith)

  pub take-min : (n : ℕ) (xs : List A) → take (min (length xs) n) xs ≡ take n xs
  take-min zero [] = refl
  take-min (suc n) [] = take-nil (min 0 (suc n))
  take-min zero (x ∷ xs) = let e : min (suc (length xs)) 0 ≡ 0 = omega arith in rw e
  take-min (suc n) (x ∷ xs) =
      let e : min (suc (length xs)) (suc n) ≡ suc (min (length xs) n) = omega arith in
      rw e (ap (◌∷◌ x) (take-min n xs))

  pub take-length : (xs : List A) → take (length xs) xs ≡ xs
  take-length [] = refl
  take-length (x ∷ xs) = ap (◌∷◌ x) (take-length xs)

  pub drop-min : (n : ℕ) (xs : List A) → drop (min (length xs) n) xs ≡ drop n xs
  drop-min zero [] = refl
  drop-min (suc n) [] = drop-nil (min 0 (suc n))
  drop-min zero (x ∷ xs) = let e : min (suc (length xs)) 0 ≡ 0 = omega arith in rw e
  drop-min (suc n) (x ∷ xs) =
      let e : min (suc (length xs)) (suc n) ≡ suc (min (length xs) n) = omega arith in
      rw e (drop-min n xs)

  pub take-append_left : (n : ℕ) (xs ys : List A) → n ≤ length xs → take n (xs ++ ys) ≡ take n xs
  take-append_left zero xs ys h = refl
  take-append_left (suc n) [] ys h = absurd (omega arith)
  take-append_left (suc n) (x ∷ xs) ys h = ap (◌∷◌ x) (take-append_left n xs ys (omega arith))

  pub drop-append_left :
      (n : ℕ) (xs ys : List A) → n ≤ length xs → drop n (xs ++ ys) ≡ drop n xs ++ ys
  drop-append_left zero xs ys h = refl
  drop-append_left (suc n) [] ys h = absurd (omega arith)
  drop-append_left (suc n) (x ∷ xs) ys h = drop-append_left n xs ys (omega arith)

  pub nil_of_length : (xs : List A) → length xs ≡ 0 → xs ≡ []
  nil_of_length [] e = refl
  nil_of_length (x ∷ xs) e = absurd (omega arith)

  pub take-append-drop_lem : (n : ℕ) (xs ys : List A) → (xs ++ take n ys) ++ drop n ys ≡ xs ++ ys
  take-append-drop_lem n xs ys =
      append_assoc xs (take n ys) (drop n ys) ∙ ap (◌++◌ xs) (take-append-drop n ys)

  -- A range of two lists in a row.
  pub slice-append :
      (i j : ℕ) (xs ys : List A)
      → i ≤ j
      → slice i j (xs ++ ys) ≡ slice i j xs ++ slice (i - length xs) (j - length xs) ys
  slice-append i j xs ys h =
      let e : j - i - length (drop i xs) ≡ j - length xs - (i - length xs) =
        rw (length-drop i xs) (omega arith) in
      ap (take (j - i)) (drop-append i xs ys)
      ∙ take-append (j - i) (drop i xs) (drop (i - length xs) ys)
      ∙ ap (λ k. slice i j xs ++ take k (drop (i - length xs) ys)) e

  pub slice-drop : (n i j : ℕ) (xs : List A) → slice i j (drop n xs) ≡ slice (n + i) (n + j) xs
  slice-drop n i j xs =
      let e : j - i ≡ n + j - (n + i) = omega arith in
      ap (take (j - i)) (drop-drop i n xs) ∙ ap (λ k. take k (drop (n + i) xs)) e

  pub slice-of_le : (i j : ℕ) (xs : List A) → length xs ≤ i → slice i j xs ≡ []
  slice-of_le i j xs h = ap (take (j - i)) (drop-of_le i xs h) ∙ take-nil (j - i)

  -- Past the end of the list a range ends with it.
  pub slice-min : (i j : ℕ) (xs : List A) → slice i (min (length xs) j) xs ≡ slice i j xs
  slice-min i j xs =
      let e : min (length xs) j - i ≡ min (length (drop i xs)) (j - i) =
        rw (length-drop i xs) (omega arith) in
      rw e (take-min (j - i) (drop i xs))

  pub slice-of_ge : (i j : ℕ) (xs : List A) → j ≤ i → slice i j xs ≡ []
  slice-of_ge i j xs h = let e : j - i ≡ 0 = omega arith in ap (λ k. take k (drop i xs)) e
