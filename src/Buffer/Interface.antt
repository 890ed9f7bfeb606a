-- ===== src/Buffer/Interface.antt =====
-- `UnderlyingBuffer` (ublox/src/parser.rs) as a record of operations over a type of buffers, and the
-- laws that its documentation asks of an implementation, over the list of bytes that it holds.
use ublox.Prelude.{
  ℕ, ◌+◌, ◌-◌, ◌^◌, ◌≤◌, ◌<◌, ◌≡◌, Option, some, List, [], ◌++◌, length, get_elem?, take, drop,
  slice, Bool, ◌==◌, find_index, position,
}

abbrev pub usize_max : ℕ
usize_max = 2 ^ 64 - 1

-- the largest number of bytes that one object can hold
abbrev pub isize_max : ℕ
isize_max = 2 ^ 63 - 1

-- An operation that may panic returns an option, and `none` is the panic. One that takes
-- `&mut self` returns the buffer.
pub record UnderlyingBuffer (T : Type 0) : Type 0 where
  pub clear : T → T
  pub len : T → ℕ
  pub max_capacity : T → ℕ
  pub extend_from_slice : T → List ℕ → Option (ℕ × T)
  pub drain : T → ℕ → Option T
  pub find : T → ℕ → Option (Option ℕ)
  pub index : T → ℕ → Option ℕ
  pub index_range : T → ℕ → ℕ → Option (List ℕ)

-- The default methods `find` and `is_empty`, over the other methods.
unfoldable pub default_find :
    {T : Type 0} → (T → ℕ) → (T → ℕ → Option ℕ) → T → ℕ → Option (Option ℕ)
default_find len index b value = find_index (index b) value 0 (len b)

unfoldable pub is_empty : {T : Type 0} → UnderlyingBuffer T → T → Bool
is_empty ops b = ops.len b == 0

-- A buffer that holds `held` bytes can take `n` more without passing the largest object.
abbrev pub Fits : ℕ → ℕ → Type 0
Fits held n = held + n ≤ isize_max

pub record Laws {T : Type 0} (ops : UnderlyingBuffer T) : Type 1 where
  pub IsValid : T → Type 0
  pub contents : T → List ℕ
  pub len_lem : (b : T) → IsValid b → ops.len b ≡ length (contents b)
  pub len-le : (b : T) → IsValid b → length (contents b) ≤ ops.max_capacity b
  pub index_lem :
      (b : T) (i : ℕ)
      → IsValid b
      → i < length (contents b)
      → ops.index b i ≡ get_elem? (contents b) i
  pub index_range_lem :
      (b : T) (i j : ℕ)
      → IsValid b
      → i ≤ j
      → j ≤ length (contents b)
      → ops.index_range b i j ≡ some (slice i j (contents b))
  pub drain_lem :
      (b : T) (n : ℕ)
      → IsValid b
      → n ≤ length (contents b)
      → (b' : T) × (ops.drain b n ≡ some b')
        × IsValid b'
        × (contents b' ≡ drop n (contents b))
        × (ops.max_capacity b' ≡ ops.max_capacity b)
  pub extend_lem :
      (b : T) (xs : List ℕ)
      → IsValid b
      → Fits (length (contents b)) (length xs)
      → (b' : T) × (ops.extend_from_slice b xs
          ≡ some (length xs - (ops.max_capacity b - length (contents b)), b'))
        × IsValid b'
        × (contents b' ≡ contents b ++ take (ops.max_capacity b - length (contents b)) xs)
        × (ops.max_capacity b' ≡ ops.max_capacity b)
  pub clear_lem :
      (b : T)
      → IsValid b
      → IsValid (ops.clear b)
        × (contents (ops.clear b) ≡ [])
        × (ops.max_capacity (ops.clear b) ≡ ops.max_capacity b)
  pub find_lem :
      (b : T) (value : ℕ) → IsValid b → ops.find b value ≡ some (position value (contents b))
