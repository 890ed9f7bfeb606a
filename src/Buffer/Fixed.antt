-- ===== src/Buffer/Fixed.antt =====
-- `FixedLinearBuffer` (ublox/src/parser.rs): a slice of fixed length of which the first `len` bytes
-- are in use.
pub mod Laws
use ublox.Prelude.{
  ℕ, ◌+◌, ◌-◌, Option, none, some, List, ◌++◌, length, get_elem?, take, drop, leb, ltb,
  if◌then◌else◌, min, find_index, sub, guard, ◌>>=◌, ◌>>◌,
}
use ublox.Buffer.Interface.{UnderlyingBuffer}
use ublox.Buffer.Vector.{slice_index}

pub record FixedLinearBuffer : Type 0 where
  pub buffer : List ℕ
  pub len : ℕ

unfoldable pub new : List ℕ → FixedLinearBuffer
new buf = record { buffer = buf; len = 0 }

-- `index(&self, Range<usize>)`, with its own check before that of the slice
unfoldable pub index_range : FixedLinearBuffer → ℕ → ℕ → Option (List ℕ)
index_range b start end = if ltb b.len end then none else slice_index b.buffer start end

-- `index(&self, usize)` checks the slice's length, and not `len`.
unfoldable pub index : FixedLinearBuffer → ℕ → Option ℕ
index b i = get_elem? b.buffer i

unfoldable pub clear : FixedLinearBuffer → FixedLinearBuffer
clear b = record b { len = 0 }

unfoldable pub max_capacity : FixedLinearBuffer → ℕ
max_capacity b = length b.buffer

-- `dst[at..at + src.len()].copy_from_slice(src)`
unfoldable pub copy_at : List ℕ → ℕ → List ℕ → Option (List ℕ)
copy_at dst at src = do
  guard (leb (at + length src) (length dst))
  some (take at dst ++ (src ++ drop (at + length src) dst))

unfoldable pub extend_from_slice : FixedLinearBuffer → List ℕ → Option (ℕ × FixedLinearBuffer)
extend_from_slice b other = do
  room ← sub (length b.buffer) b.len
  let to_copy = min (length other) room
  uncopyable ← sub (length other) to_copy
  buffer ← copy_at b.buffer b.len (take to_copy other)
  some (uncopyable, record { buffer = buffer; len = b.len + to_copy })

-- `core::ptr::copy` moves `new_size` bytes from offset `count` to the front.
unfoldable pub drain : FixedLinearBuffer → ℕ → Option FixedLinearBuffer
drain b count =
    if leb b.len count
    then some (record b { len = 0 })
    else (let new_size = b.len - count in
        some (record {
          buffer = take new_size (drop count b.buffer) ++ drop new_size b.buffer;
          len = new_size;
        }))

unfoldable pub find : FixedLinearBuffer → ℕ → Option (Option ℕ)
find b value = find_index (get_elem? b.buffer) value 0 b.len

abbrev pub fixed_buffer : UnderlyingBuffer FixedLinearBuffer
fixed_buffer = record {
  clear = clear;
  len = λ b. b.len;
  max_capacity = max_capacity;
  extend_from_slice = extend_from_slice;
  drain = drain;
  find = find;
  index = index;
  index_range = index_range;
}
