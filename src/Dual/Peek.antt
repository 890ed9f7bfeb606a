-- ===== src/Dual/Peek.antt =====
-- `peek_raw` of `DualBuffer` and its `Drop` (ublox/src/parser.rs).
use ublox.Prelude.{
  ℕ, ◌+◌, ◌-◌, ◌≤◌, ◌<◌, ◌≡◌, sym, ◌∙◌, ap, some, List, ◌++◌, length, take, slice, arith, min,
  length-append, length-drop, take-append, take-of_le, slice-append, slice-drop, slice-of_le,
  slice-of_ge, slice-min,
}
use ublox.Buffer.{UnderlyingBuffer, Laws}
use ublox.Buffer.Vector.{slice_index, slice_index_lem}
use ublox.Dual
use ublox.Dual.{DualBuffer}
use ublox.Dual.View.{held, fresh, view, IsValid, sub-held}
use ublox.Dual.Moves.{fresh_rest}

module _ {T : Type 0} {ops : UnderlyingBuffer T} (laws : Laws ops) where
  -- The part of a range that lies in the parser's buffer.
  held_range :
      (d : DualBuffer T) (i j : ℕ)
      → IsValid laws d
      → i < length (held laws d)
      → i ≤ j
      → ops.index_range d.buf (i + d.off) (min (ops.len d.buf) (j + d.off))
        ≡ some (slice i j (held laws d))
  held_range d i j v lt h =
      let c = laws.contents d.buf in
      let size : length (held laws d) ≡ length c - d.off = length-drop d.off c in
      let e : i + d.off ≡ d.off + i = omega arith in
      let e' : j + d.off ≡ d.off + j = omega arith in
      rw (laws.len_lem d.buf v.buf_valid, e, e')
        (laws.index_range_lem d.buf (d.off + i) (min (length c) (d.off + j)) v.buf_valid
            (omega arith) (omega arith)
          ∙ ap some (slice-min (d.off + i) (d.off + j) c ∙ sym (slice-drop d.off i j c)))

  -- The part that lies in the new data.
  fresh_range :
      (d : DualBuffer T) (i j : ℕ)
      → IsValid laws d
      → i ≤ j
      → j ≤ length (fresh laws d)
      → slice_index d.new_buf (d.new_buf_offset + i) (j + d.new_buf_offset)
        ≡ some (slice i j (fresh laws d))
  fresh_range d i j v h k =
      let size : length (fresh laws d) ≡ length d.new_buf - d.new_buf_offset = length-drop _ _ in
      let e : j + d.new_buf_offset ≡ d.new_buf_offset + j = omega arith in
      rw e (
        slice_index_lem d.new_buf (d.new_buf_offset + i) (d.new_buf_offset + j) (omega arith)
          (omega (arith, v.new_le))
        ∙ ap some (sym (slice-drop d.new_buf_offset i j d.new_buf)))

  pub peek_raw-parts :
      (d : DualBuffer T) (i j : ℕ)
      → IsValid laws d
      → i ≤ j
      → j ≤ length (view laws d)
      → let k = length (held laws d) in
        Dual.peek_raw ops d i j
        ≡ some (slice i j (held laws d), slice (i - k) (j - k) (fresh laws d))
  unfolding Dual.peek_raw
  peek_raw-parts d i j v h enough =
      let k = length (held laws d) in
      let all : length (view laws d) ≡ k + length (fresh laws d) = length-append _ _ in
      rw (sub-held laws d v) (
        ground (
          arith,
          held_range d i j v,
          slice-of_le i j (held laws d),
          fresh_range d (i - k) (j - k) v,
          slice-of_ge (i - k) (j - k) (fresh laws d),
        ))

  -- On a valid `DualBuffer`, where the range is not reversed and ends within the view, `peek_raw`
  -- returns two slices that are, one behind the other, the range of the view.
  pub peek_raw-view :
      (d : DualBuffer T) (i j : ℕ)
      → IsValid laws d
      → i ≤ j
      → j ≤ length (view laws d)
      → (a : List ℕ) × (b : List ℕ) × (Dual.peek_raw ops d i j ≡ some (a, b))
        × (a ++ b ≡ slice i j (view laws d))
  peek_raw-view d i j v h enough =
      (_, _, peek_raw-parts d i j v h enough, sym (slice-append i j (held laws d) (fresh laws d) h))

  -- Dropping a valid `DualBuffer` does not panic, and leaves a valid buffer of the same capacity
  -- with the first bytes of the view, as many as the capacity allows.
  pub drop_dual-view :
      (d : DualBuffer T)
      → IsValid laws d
      → (b : T) × (Dual.drop_dual ops d ≡ some b)
        × laws.IsValid b
        × (laws.contents b ≡ take (ops.max_capacity d.buf) (view laws d))
        × (ops.max_capacity b ≡ ops.max_capacity d.buf)
  unfolding Dual.drop_dual
  drop_dual-view d v =
      let cap = ops.max_capacity d.buf in
      let k = length (held laws d) in
      let (b1, run1, w1, e1, c1) = laws.drain_lem d.buf d.off v.buf_valid v.off_le in
      let size1 : length (laws.contents b1) ≡ k = ap length e1 in
      let size : k ≡ length (laws.contents d.buf) - d.off = length-drop _ _ in
      let size' : length (fresh laws d) ≡ length d.new_buf - d.new_buf_offset = length-drop _ _ in
      let (b2, run2, w2, e2, c2) = laws.extend_lem b1 (fresh laws d) w1 (omega (arith, v.fits)) in
      let short : k ≤ cap = omega (arith, laws.len-le d.buf v.buf_valid) in
      (
        b2,
        rw (run1, fresh_rest laws d v, run2),
        w2,
        rw (e2, e1, c1)
            (sym (
              take-append cap (held laws d) (fresh laws d)
              ∙ ap (λ xs. xs ++ take (cap - k) (fresh laws d))
                  (take-of_le cap (held laws d) short))),
        c2 ∙ c1,
      )
