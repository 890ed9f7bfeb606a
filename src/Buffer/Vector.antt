-- ===== src/Buffer/Vector.antt =====
-- `impl UnderlyingBuffer for Vec<u8>` (ublox/src/parser.rs). A `Vec<u8>` is the list of its bytes.
use ublox.Prelude.{
  ℕ, ◌+◌, ◌-◌, ◌≤◌, ◌≡◌, refl, Option, none, some, List, [], ◌++◌, length, length-append,
  length-drop, get_elem?, take, drop, slice, take-of_le, arith, leb, if◌then◌else◌, ◌&&◌, position,
}
use ublox.Buffer.Interface.{UnderlyingBuffer, Laws, usize_max, isize_max, Fits}

abbrev pub Vector : Type 0
Vector = List ℕ

unfoldable pub clear : Vector → Vector
clear v = []

unfoldable pub max_capacity : Vector → ℕ
max_capacity v = usize_max

-- `Vec::extend_from_slice` panics where the new length passes `isize::MAX` bytes.
unfoldable pub extend_from_slice : Vector → List ℕ → Option (ℕ × Vector)
extend_from_slice v other =
    if leb (length v + length other) isize_max then some (0, v ++ other) else none

-- `Vec::drain(0..count)` panics where `count` is past the end.
unfoldable pub drain : Vector → ℕ → Option Vector
drain v count = if leb count (length v) then some (drop count v) else none

-- `iter().position`
unfoldable pub find : Vector → ℕ → Option (Option ℕ)
find v value = some (position value v)

-- `&v[start..end]` panics where the range is reversed, or its end past the length.
unfoldable pub slice_index : Vector → ℕ → ℕ → Option (List ℕ)
slice_index v start end =
    if leb start end && leb end (length v) then some (slice start end v) else none

abbrev pub vector_buffer : UnderlyingBuffer Vector
vector_buffer = record {
  clear = clear;
  len = length;
  max_capacity = max_capacity;
  extend_from_slice = extend_from_slice;
  drain = drain;
  find = find;
  index = get_elem?;
  index_range = slice_index;
}

abbrev pub IsValid : Vector → Type 0
IsValid v = length v ≤ isize_max

pub slice_index_lem :
    (v : Vector) (i j : ℕ) → i ≤ j → j ≤ length v → slice_index v i j ≡ some (slice i j v)
unfolding slice_index
slice_index_lem v i j h k = ground arith

pub drain_lem :
    (v : Vector) (n : ℕ)
    → IsValid v
    → n ≤ length v
    → (v' : Vector) × (drain v n ≡ some v')
      × IsValid v'
      × (v' ≡ drop n v)
      × (max_capacity v' ≡ max_capacity v)
unfolding drain max_capacity
drain_lem v n valid h = (drop n v, ground arith, omega (arith, length-drop n v), refl, refl)

pub extend_lem :
    (v xs : Vector)
    → IsValid v
    → Fits (length v) (length xs)
    → (v' : Vector) × (extend_from_slice v xs ≡ some (length xs - (max_capacity v - length v), v'))
      × IsValid v'
      × (v' ≡ v ++ take (max_capacity v - length v) xs)
      × (max_capacity v' ≡ max_capacity v)
unfolding extend_from_slice max_capacity
extend_lem v xs valid h = (
  v ++ xs,
  ground arith,
  omega (arith, length-append v xs),
  rw (take-of_le (usize_max - length v) xs (omega arith)),
  refl,
)

pub length-le_max : (v : Vector) → IsValid v → length v ≤ max_capacity v
unfolding max_capacity
length-le_max v h = omega arith

pub clear_lem :
    (v : Vector)
    → IsValid v
    → IsValid (clear v) × (clear v ≡ []) × (max_capacity (clear v) ≡ max_capacity v)
unfolding clear max_capacity
clear_lem v h = (omega arith, refl, refl)

pub find_lem : (v : Vector) (value : ℕ) → IsValid v → find v value ≡ some (position value v)
unfolding find
find_lem v value h = refl

-- A `Vec<u8>` keeps the laws.
abbrev pub vector_laws : Laws vector_buffer
vector_laws = record {
  IsValid = IsValid;
  contents = λ v. v;
  len_lem = λ v _. refl;
  len-le = length-le_max;
  index_lem = λ v i _ h. refl;
  index_range_lem = λ v i j _ h k. slice_index_lem v i j h k;
  drain_lem = drain_lem;
  extend_lem = extend_lem;
  clear_lem = clear_lem;
  find_lem = find_lem;
}
