-- ===== src/Dual.antt =====
-- `DualBuffer` (ublox/src/parser.rs): the parser's buffer and the new data, seen as one sequence.
-- `none` is a panic of the code: a subtraction below zero, or an access out of range.
pub mod View
pub mod Room
pub mod Moves
pub mod Take
pub mod Peek
use ublox.Prelude.{
  ℕ, ◌+◌, ◌-◌, Option, none, some, List, [], length, get_elem?, Bool, true, false, leb, ltb, ◌==◌,
  if◌then◌else◌, min, sub, ◌>>=◌, ◌>>◌,
}
use ublox.Error.{ParserError, out_of_memory, Result, ok, err}
use ublox.Buffer.{UnderlyingBuffer}
use ublox.Buffer.Vector.{slice_index}

pub record DualBuffer (T : Type 0) : Type 0 where
  pub buf : T
  pub off : ℕ
  pub new_buf : List ℕ
  pub new_buf_offset : ℕ

unfoldable pub new : {T : Type 0} → T → List ℕ → DualBuffer T
new buf new_buf = record { buf = buf; off = 0; new_buf = new_buf; new_buf_offset = 0 }

module _ {T : Type 0} (ops : UnderlyingBuffer T) where
  unfoldable pub index : DualBuffer T → ℕ → Option ℕ
  index d i = if ltb (d.off + i) (ops.len d.buf) then ops.index d.buf (i + d.off) else do
    held ← sub (ops.len d.buf) d.off
    at ← sub (d.new_buf_offset + i) held
    get_elem? d.new_buf at

  -- `count.saturating_sub(underlying_bytes)` is the truncated difference.
  unfoldable pub drain : DualBuffer T → ℕ → Option (DualBuffer T)
  drain d count = do
    held ← sub (ops.len d.buf) d.off
    let underlying_bytes = min held count
    let new_bytes = count - underlying_bytes
    some
        (record d { off = d.off + underlying_bytes; new_buf_offset = d.new_buf_offset + new_bytes })

  unfoldable pub len : DualBuffer T → Option ℕ
  len d = do held ← sub (ops.len d.buf) d.off; sub (held + length d.new_buf) d.new_buf_offset

  unfoldable pub clear : DualBuffer T → Option (DualBuffer T)
  clear d = do n ← len d; drain d n

  unfoldable pub potential_lost_bytes : DualBuffer T → Option ℕ
  potential_lost_bytes d = do
    n ← len d
    if leb n (ops.max_capacity d.buf) then some 0 else sub n (ops.max_capacity d.buf)

  unfoldable pub can_drain_and_take : DualBuffer T → ℕ → ℕ → Option Bool
  can_drain_and_take d to_drain to_take = do
    held ← sub (ops.len d.buf) d.off
    let drained_off = d.off + min held to_drain
    let drained_new_off = d.new_buf_offset + (to_drain - min held to_drain)
    left ← sub (ops.len d.buf) drained_off
    available ← sub (left + length d.new_buf) drained_new_off
    let underlying_bytes = min left to_take
    let new_bytes = to_take - underlying_bytes
    if ltb available to_take
        then some false
        else if underlying_bytes == 0
        then some true
        else if new_bytes == 0
        then some true
        else (do room ← sub (ops.max_capacity d.buf) left; some (leb new_bytes room))

  unfoldable pub peek_raw : DualBuffer T → ℕ → ℕ → Option (List ℕ × List ℕ)
  peek_raw d start end = do
    split ← sub (ops.len d.buf) d.off
    a ←
        if leb split start
        then some []
        else ops.index_range d.buf (start + d.off) (min (ops.len d.buf) (end + d.off))
    b ← if leb end split then some [] else (do
      last ← sub end split
      slice_index d.new_buf (d.new_buf_offset + (start - split)) (last + d.new_buf_offset))
    some (a, b)

  -- The case of `take` that extends the buffer by all new data that it holds.
  unfoldable pub take_extended :
      DualBuffer T → ℕ → Option (Result (List ℕ) ParserError × DualBuffer T)
  take_extended d count = do
    rest ← slice_index d.new_buf d.new_buf_offset (length d.new_buf)
    (bytes_not_moved, buf) ← ops.extend_from_slice d.buf rest
    left ← sub (length d.new_buf) d.new_buf_offset
    moved ← sub left bytes_not_moved
    bytes ← ops.index_range buf d.off (d.off + count)
    some (
      ok bytes,
      record d { buf = buf; off = d.off + count; new_buf_offset = d.new_buf_offset + moved },
    )

  -- The last case of `take`: the data in the buffer moves to its front first.
  unfoldable pub take_moved :
      DualBuffer T → ℕ → ℕ → Option (Result (List ℕ) ParserError × DualBuffer T)
  take_moved d count new_bytes = do
    drained ← ops.drain d.buf d.off
    piece ← slice_index d.new_buf d.new_buf_offset (d.new_buf_offset + new_bytes)
    (_, buf) ← ops.extend_from_slice drained piece
    bytes ← ops.index_range buf 0 count
    some (
      ok bytes,
      record d { buf = buf; off = 0 + count; new_buf_offset = d.new_buf_offset + new_bytes },
    )

  unfoldable pub take : DualBuffer T → ℕ → Option (Result (List ℕ) ParserError × DualBuffer T)
  take d count = do
    held ← sub (ops.len d.buf) d.off
    let underlying_bytes = min held count
    let new_bytes = count - underlying_bytes
    left ← sub (length d.new_buf) d.new_buf_offset
    if ltb left new_bytes
        then none
        else if underlying_bytes == 0
        then (do
          bytes ← slice_index d.new_buf d.new_buf_offset (d.new_buf_offset + count)
          some (ok bytes, record d { new_buf_offset = d.new_buf_offset + count }))
        else if new_bytes == 0
        then (do
          bytes ← ops.index_range d.buf d.off (d.off + count)
          some (ok bytes, record d { off = d.off + count }))
        else if ltb (ops.max_capacity d.buf) count
        then some (err (out_of_memory count), d)
        else (do
          room ← sub (ops.max_capacity d.buf) (ops.len d.buf)
          if ltb new_bytes room then take_extended d count else take_moved d count new_bytes)

  -- `Drop::drop`: what the iterator has not read goes back into the parser's buffer. `drop` stands
  -- for the list operation here.
  unfoldable pub drop_dual : DualBuffer T → Option T
  drop_dual d = do
    drained ← ops.drain d.buf d.off
    rest ← slice_index d.new_buf d.new_buf_offset (length d.new_buf)
    (_, buf) ← ops.extend_from_slice drained rest
    some buf
