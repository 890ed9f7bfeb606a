-- ===== src/Dual/View.antt =====
-- The bytes that a `DualBuffer` (ublox/src/parser.rs) stands for, and how its methods act on them.
use ublox.Prelude.{
  ℕ, ◌+◌, ◌-◌, ◌≤◌, ◌<◌, ◌≡◌, sym, ◌∙◌, ap₂, some, List, ◌++◌, length, get_elem?, drop, arith, min,
  sub, length-drop, lengths, drop-append, get_elem?-append_left, get_elem?-append_right,
  get_elem?-drop, drop-drop, drop-min,
}
use ublox.Buffer.{UnderlyingBuffer, Laws, isize_max}
use ublox.Dual
use ublox.Dual.{DualBuffer}

module _ {T : Type 0} {ops : UnderlyingBuffer T} (laws : Laws ops) where
  -- what is left of the parser's buffer, and of the new data
  abbrev pub held : DualBuffer T → List ℕ
  held d = drop d.off (laws.contents d.buf)

  abbrev pub fresh : DualBuffer T → List ℕ
  fresh d = drop d.new_buf_offset d.new_buf

  abbrev pub view : DualBuffer T → List ℕ
  view d = held d ++ fresh d

  pub record IsValid (d : DualBuffer T) : Type 0 where
    pub buf_valid : laws.IsValid d.buf
    pub off_le : d.off ≤ length (laws.contents d.buf)
    pub new_le : d.new_buf_offset ≤ length d.new_buf
    pub fits : length (laws.contents d.buf) + (length d.new_buf - d.new_buf_offset) ≤ isize_max

  pub length-view :
      (d : DualBuffer T)
      → IsValid d
      → length (view d)
        ≡ (length (laws.contents d.buf) - d.off) + (length d.new_buf - d.new_buf_offset)
  length-view d v = simp lengths

  -- The two subtractions that the methods make do not pass zero.
  pub sub-held : (d : DualBuffer T) → IsValid d → sub (ops.len d.buf) d.off ≡ some (length (held d))
  sub-held d v =
      ground (arith, laws.len_lem d.buf v.buf_valid, length-drop d.off (laws.contents d.buf))

  pub sub-view :
      (d : DualBuffer T)
      → IsValid d
      → sub (length (held d) + length d.new_buf) d.new_buf_offset ≡ some (length (view d))
  sub-view d v = ground (arith, length-view d v, length-drop d.off (laws.contents d.buf))

  -- On a valid `DualBuffer`, indexing below the length of the view reads the byte of the view.
  pub index-view :
      (d : DualBuffer T) (i : ℕ)
      → IsValid d
      → i < length (view d)
      → Dual.index ops d i ≡ get_elem? (view d) i
  unfolding Dual.index
  index-view d i v h = ground (
    arith,
    length-view d v,
    laws.len_lem d.buf v.buf_valid,
    laws.index_lem d.buf (i + d.off) v.buf_valid,
    get_elem?-append_left (held d) (fresh d) i,
    get_elem?-append_right (held d) (fresh d) i,
    get_elem?-drop d.off (laws.contents d.buf) i,
    get_elem?-drop d.new_buf_offset d.new_buf (i - length (held d)),
    length-drop d.off (laws.contents d.buf),
  )

  -- `len` is the length of the view.
  pub len-view : (d : DualBuffer T) → IsValid d → Dual.len ops d ≡ some (length (view d))
  unfolding Dual.len
  len-view d v = ground (arith, length-view d v, laws.len_lem d.buf v.buf_valid)

  -- What `drain` leaves.
  abbrev pub drained : DualBuffer T → ℕ → DualBuffer T
  drained d n = record d {
    off = d.off + min (length (held d)) n;
    new_buf_offset = d.new_buf_offset + (n - min (length (held d)) n);
  }

  pub drain-drained :
      (d : DualBuffer T) (n : ℕ) → IsValid d → Dual.drain ops d n ≡ some (drained d n)
  unfolding Dual.drain
  drain-drained d n v =
      ground (arith, laws.len_lem d.buf v.buf_valid, length-drop d.off (laws.contents d.buf))

  pub drained-IsValid :
      (d : DualBuffer T) (n : ℕ) → IsValid d → n ≤ length (view d) → IsValid (drained d n)
  drained-IsValid d n v h =
      let e : length (held d) ≡ length (laws.contents d.buf) - d.off = length-drop _ _ in
      record {
        buf_valid = v.buf_valid;
        off_le = omega (arith, v.off_le);
        new_le = omega (arith, length-view d v, v.new_le);
        fits = omega (arith, v.fits);
      }

  -- `drain` drops as many bytes from the view.
  pub view-drained : (d : DualBuffer T) (n : ℕ) → view (drained d n) ≡ drop n (view d)
  view-drained d n =
      let k = min (length (held d)) n in
      let e : n - k ≡ n - length (held d) = omega arith in
      ap₂ ◌++◌ (sym (drop-drop k d.off (laws.contents d.buf)) ∙ drop-min n (held d))
        (rw e (sym (drop-drop (n - length (held d)) d.new_buf_offset d.new_buf)))
      ∙ sym (drop-append n (held d) (fresh d))

  pub clear-view :
      (d : DualBuffer T) → IsValid d → Dual.clear ops d ≡ some (drained d (length (view d)))
  unfolding Dual.clear
  clear-view d v = rw (len-view d v) (drain-drained d (length (view d)) v)

  -- What does not fit into the parser's buffer is lost.
  pub potential_lost_bytes-view :
      (d : DualBuffer T)
      → IsValid d
      → Dual.potential_lost_bytes ops d ≡ some (length (view d) - ops.max_capacity d.buf)
  unfolding Dual.potential_lost_bytes
  potential_lost_bytes-view d v = ground (arith, len-view d v)
