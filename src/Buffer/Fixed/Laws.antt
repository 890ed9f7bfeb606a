-- ===== src/Buffer/Fixed/Laws.antt =====
-- `FixedLinearBuffer` (ublox/src/parser.rs) keeps the laws of `UnderlyingBuffer`, over the bytes
-- that are in use.
use ublox.Prelude.{
  ℕ, ◌+◌, ◌-◌, ◌≤◌, ◌<◌, ◌≡◌, refl, sym, ◌∙◌, ap, some, List, [], ◌++◌, length, get_elem?, take,
  drop, slice, arith, min, position, length-take, lengths, get_elem?-take, take-append_exact,
  take-take, drop-take, find_index_all, append_assoc, take-min, tests, drop-of_le, Bool-cases,
  leb→le, leb, inl, inr,
}
use ublox.Buffer.Interface.{Laws, Fits}
use ublox.Buffer.Vector.{slice_index_lem}
use ublox.Buffer.Fixed.{
  FixedLinearBuffer, fixed_buffer, index, index_range, clear, max_capacity, copy_at,
  extend_from_slice, drain, find,
}

abbrev pub IsValid : FixedLinearBuffer → Type 0
IsValid b = b.len ≤ length b.buffer

abbrev pub contents : FixedLinearBuffer → List ℕ
contents b = take b.len b.buffer

pub length-contents : (b : FixedLinearBuffer) → IsValid b → length (contents b) ≡ b.len
length-contents b h = omega (arith, length-take b.len b.buffer)

pub index-contents :
    (b : FixedLinearBuffer) (i : ℕ)
    → IsValid b
    → i < length (contents b)
    → index b i ≡ get_elem? (contents b) i
unfolding index
index-contents b i v h = sym (get_elem?-take b.len b.buffer i (omega (arith, length-contents b v)))

slice-take : (i j n : ℕ) (xs : List ℕ) → j ≤ n → slice i j (take n xs) ≡ slice i j xs
slice-take i j n xs h =
    ap (take (j - i)) (drop-take i n xs) ∙ take-take (j - i) (n - i) (drop i xs) (omega arith)

pub index_range-contents :
    (b : FixedLinearBuffer) (i j : ℕ)
    → IsValid b
    → i ≤ j
    → j ≤ length (contents b)
    → index_range b i j ≡ some (slice i j (contents b))
unfolding index_range
index_range-contents b i j v h k =
    let m : j ≤ b.len = omega (arith, length-contents b v) in
    rw (slice-take i j b.len b.buffer m)
      (ground (arith, slice_index_lem b.buffer i j h (omega arith)))

-- On a valid `FixedLinearBuffer` with at least `n` bytes in use, `drain` leaves those behind the
-- first `n`, in a valid buffer of the same capacity.
pub contents-drain :
    (b : FixedLinearBuffer) (n : ℕ)
    → IsValid b
    → n ≤ length (contents b)
    → (b' : FixedLinearBuffer) × (drain b n ≡ some b')
      × IsValid b'
      × (contents b' ≡ drop n (contents b))
      × (max_capacity b' ≡ max_capacity b)
unfolding drain max_capacity
contents-drain b n v h = elim (Bool-cases (leb b.len n)) [
  | inl all ↦ (
    record b { len = 0 },
    rw all,
    omega arith,
    sym (drop-of_le n (contents b) (omega (tests, length-contents b v, leb→le b.len n all))),
    refl,
  )
  | inr part ↦ (
    record {
      buffer = take (b.len - n) (drop n b.buffer) ++ drop (b.len - n) b.buffer;
      len = b.len - n;
    },
    rw part,
    simp lengths (omega arith),
    take-append_exact (b.len - n) _ _ (simp lengths (omega arith))
        ∙ sym (drop-take n b.len b.buffer),
    simp lengths (omega arith),
  )
]

-- On a valid `FixedLinearBuffer`, where the bytes in use and the new ones are together no more than
-- the largest object, `extend_from_slice` does not panic: it appends the new bytes that there is
-- room for, returns how many there is none for, and keeps the buffer valid and its capacity.
pub contents-extend :
    (b : FixedLinearBuffer) (xs : List ℕ)
    → IsValid b
    → Fits (length (contents b)) (length xs)
    → (b' : FixedLinearBuffer) × (extend_from_slice b xs
        ≡ some (length xs - (max_capacity b - length (contents b)), b'))
      × IsValid b'
      × (contents b' ≡ contents b ++ take (max_capacity b - length (contents b)) xs)
      × (max_capacity b' ≡ max_capacity b)
unfolding extend_from_slice copy_at max_capacity
contents-extend b xs v fits =
    let room = length b.buffer - b.len in
    let k = min (length xs) room in
    (
      record {
        buffer = take b.len b.buffer ++ (take k xs ++ drop (b.len + k) b.buffer);
        len = b.len + k;
      },
      ground (arith, length-take k xs, length-contents b v),
      simp lengths (omega arith),
      ap (take (b.len + k)) (sym (append_assoc (contents b) (take k xs) _))
          ∙ take-append_exact (b.len + k) (contents b ++ take k xs) _ (simp lengths (omega arith))
          ∙ ap (◌++◌ (contents b)) (
              take-min room xs
              ∙ ap (λ t. take (length b.buffer - t) xs) (sym (length-contents b v))),
      simp lengths (omega arith),
    )

-- On a valid `FixedLinearBuffer`, `find` does not panic, and returns the first place of the value
-- among the bytes in use, if there is one.
pub find-contents :
    (b : FixedLinearBuffer) (value : ℕ)
    → IsValid b
    → find b value ≡ some (position value (contents b))
unfolding find
find-contents b value v =
    find_index_all (get_elem? b.buffer) value b.len (contents b) (sym (length-contents b v))
      (λ k lt. sym (get_elem?-take b.len b.buffer k (omega (arith, length-contents b v))))

pub contents-clear :
    (b : FixedLinearBuffer)
    → IsValid b
    → IsValid (clear b) × (contents (clear b) ≡ []) × (max_capacity (clear b) ≡ max_capacity b)
unfolding clear max_capacity
contents-clear b v = (omega arith, refl, refl)

pub length-contents_le_max :
    (b : FixedLinearBuffer) → IsValid b → length (contents b) ≤ max_capacity b
unfolding max_capacity
length-contents_le_max b v = omega (arith, length-contents b v)

-- A `FixedLinearBuffer` keeps the laws.
abbrev pub fixed_laws : Laws fixed_buffer
fixed_laws = record {
  IsValid = IsValid;
  contents = contents;
  len_lem = λ b v. sym (length-contents b v);
  len-le = length-contents_le_max;
  index_lem = index-contents;
  index_range_lem = index_range-contents;
  drain_lem = contents-drain;
  extend_lem = contents-extend;
  clear_lem = contents-clear;
  find_lem = find-contents;
}
