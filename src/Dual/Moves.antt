-- ===== src/Dual/Moves.antt =====
-- The ways in which `take` of `DualBuffer` (ublox/src/parser.rs) finds its bytes: in one of the two
-- parts, or in the parser's buffer after new data has moved there.
use ublox.Prelude.{
  ℕ, zero, suc, ◌+◌, ◌-◌, ◌≤◌, ◌<◌, ◌≡◌, refl, sym, ◌∙◌, ap, Option, some, List, [], ◌++◌, length,
  take, drop, arith, min, length-append, length-drop, length-take, drop-drop, ◌>>=◌, take-of_le,
  take-append_left, take-min, sub-of_le, take-append-drop_lem, drop-append_left, nil_of_length,
}
use ublox.Error.{ParserError, Result, ok}
use ublox.Buffer.{UnderlyingBuffer, Laws, isize_max}
use ublox.Buffer.Vector.{slice_index, slice_index_lem}
use ublox.Dual
use ublox.Dual.{DualBuffer}
use ublox.Dual.View.{held, fresh, view, IsValid}
use ublox.Dual.Room.{Taken}

module _ {T : Type 0} {ops : UnderlyingBuffer T} (laws : Laws ops) where
  fresh_slice :
      (d : DualBuffer T) (k : ℕ)
      → IsValid laws d
      → k ≤ length (fresh laws d)
      → slice_index d.new_buf d.new_buf_offset (d.new_buf_offset + k) ≡ some (take k (fresh laws d))
  fresh_slice d k v h =
      let e : d.new_buf_offset + k - d.new_buf_offset ≡ k = omega arith in
      slice_index_lem d.new_buf d.new_buf_offset (d.new_buf_offset + k) (omega arith)
        (omega (arith, v.new_le, length-drop d.new_buf_offset d.new_buf))
      ∙ ap (λ j. some (take j (fresh laws d))) e

  pub fresh_rest :
      (d : DualBuffer T)
      → IsValid laws d
      → slice_index d.new_buf d.new_buf_offset (length d.new_buf) ≡ some (fresh laws d)
  fresh_rest d v =
      slice_index_lem d.new_buf d.new_buf_offset (length d.new_buf) v.new_le (omega arith)
      ∙ ap some
          (take-of_le _ (fresh laws d) (omega (arith, length-drop d.new_buf_offset d.new_buf)))

  -- Bytes that lie in the parser's buffer are read from there.
  pub held_slice :
      (d : DualBuffer T) (n : ℕ)
      → IsValid laws d
      → n ≤ length (held laws d)
      → ops.index_range d.buf d.off (d.off + n) ≡ some (take n (view laws d))
  held_slice d n v h =
      let e : d.off + n - d.off ≡ n = omega arith in
      laws.index_range_lem d.buf d.off (d.off + n) v.buf_valid (omega arith)
        (omega (arith, v.off_le, length-drop d.off (laws.contents d.buf)))
      ∙ ap (λ j. some (take j (held laws d))) e
      ∙ ap some (sym (take-append_left n (held laws d) (fresh laws d) h))

  -- The state after such a read.
  abbrev advanced : DualBuffer T → ℕ → DualBuffer T
  advanced d n = record d { off = d.off + n }

  pub Taken-held :
      (d : DualBuffer T) (n : ℕ) {bytes : Option (List ℕ)}
      → IsValid laws d
      → n ≤ length (held laws d)
      → bytes ≡ some (take n (view laws d))
      → Taken laws d n (do b ← bytes; some (ok b, advanced d n))
  Taken-held d n v h e = record {
    rest = advanced d n;
    runs = rw e;
    valid = record {
      buf_valid = v.buf_valid;
      off_le = omega (arith, v.off_le, length-drop d.off (laws.contents d.buf));
      new_le = v.new_le;
      fits = v.fits;
    };
    left =
        ap (λ xs. xs ++ fresh laws d) (sym (drop-drop n d.off (laws.contents d.buf)))
        ∙ sym (drop-append_left n (held laws d) (fresh laws d) h);
    capacity = refl;
  }

  fresh-view :
      (d : DualBuffer T) (n : ℕ)
      → min (length (held laws d)) n ≡ 0
      → (take n (fresh laws d) ≡ take n (view laws d))
        × (held laws d ++ drop n (fresh laws d) ≡ drop n (view laws d))
  fresh-view d zero z = (refl, refl)
  fresh-view d (suc n) z =
      let e : held laws d ≡ [] = nil_of_length (held laws d) (omega arith) in
      (ap (λ xs. take (suc n) (xs ++ fresh laws d)) (sym e), rw e refl)

  -- Bytes that lie in the new data are read from there.
  pub Taken-fresh :
      (d : DualBuffer T) (n : ℕ)
      → IsValid laws d
      → n ≤ length (view laws d)
      → min (length (held laws d)) n ≡ 0
      → Taken laws d n (do
        b ← slice_index d.new_buf d.new_buf_offset (d.new_buf_offset + n)
        some (ok b, record d { new_buf_offset = d.new_buf_offset + n }))
  Taken-fresh d n v h z =
      let k : n ≤ length (fresh laws d) =
        omega (arith, length-append (held laws d) (fresh laws d)) in
      record {
        rest = record d { new_buf_offset = d.new_buf_offset + n };
        runs = rw (fresh_slice d n v k, (fresh-view d n z).0);
        valid = record {
          buf_valid = v.buf_valid;
          off_le = v.off_le;
          new_le = omega (arith, length-drop d.new_buf_offset d.new_buf, v.new_le);
          fits = omega (arith, v.fits);
        };
        left =
            ap (◌++◌ (held laws d)) (sym (drop-drop n d.new_buf_offset d.new_buf))
            ∙ (fresh-view d n z).1;
        capacity = refl;
      }

  -- Moving `m` bytes of new data behind what is held leaves the view as it was.
  moved_lem :
      (d : DualBuffer T) (b : T) (off m : ℕ) (c : List ℕ)
      → IsValid laws d
      → laws.IsValid b
      → off ≤ length c
      → drop off c ≡ held laws d
      → m ≤ length (fresh laws d)
      → laws.contents b ≡ c ++ take m (fresh laws d)
      → length c + length (fresh laws d) ≤ isize_max
      → let d' = record d { buf = b; off = off; new_buf_offset = d.new_buf_offset + m } in
        IsValid laws d'
        × (view laws d' ≡ view laws d)
        × (length (held laws d') ≡ length (held laws d) + m)
  moved_lem d b off m c v w ho hc hm e fits =
      let both : drop off (laws.contents b) ≡ held laws d ++ take m (fresh laws d) =
        rw (e, drop-append_left off c (take m (fresh laws d)) ho, hc) refl in
      let size : length (laws.contents b) ≡ length c + m =
        rw e (simp (length-append, length-take) (omega arith)) in
      (
        record {
          buf_valid = w;
          off_le = omega arith;
          new_le = omega (arith, length-drop d.new_buf_offset d.new_buf, v.new_le);
          fits = omega (arith, length-drop d.new_buf_offset d.new_buf);
        },
        rw (both, ← drop-drop m d.new_buf_offset d.new_buf)
            (take-append-drop_lem m (held laws d) (fresh laws d)),
        rw both (simp (length-append, length-take) (omega arith)),
      )

  Taken-of_view :
      {d d' : DualBuffer T} {n : ℕ} {out : Option (Result (List ℕ) ParserError × DualBuffer T)}
      → view laws d' ≡ view laws d
      → ops.max_capacity d'.buf ≡ ops.max_capacity d.buf
      → Taken laws d' n out
      → Taken laws d n out
  Taken-of_view {d} {d'} {n} {out} e c t = record {
    rest = t.rest;
    runs = t.runs ∙ ap (λ xs. some (ok (take n xs), t.rest)) e;
    valid = t.valid;
    left = t.left ∙ ap (drop n) e;
    capacity = t.capacity ∙ c;
  }

  pub Taken-extended :
      (d : DualBuffer T) (n : ℕ)
      → IsValid laws d
      → n ≤ length (view laws d)
      → n - min (length (held laws d)) n < ops.max_capacity d.buf - length (laws.contents d.buf)
      → Taken laws d n (Dual.take_extended ops d n)
  unfolding Dual.take_extended
  Taken-extended d n v h lt =
      let f = fresh laws d in
      let size : length f ≡ length d.new_buf - d.new_buf_offset = length-drop _ _ in
      let fits : length (laws.contents d.buf) + length f ≤ isize_max = omega (arith, v.fits) in
      let room = ops.max_capacity d.buf - length (laws.contents d.buf) in
      let (b, run, w, e, c) = laws.extend_lem d.buf f v.buf_valid fits in
      let left = length d.new_buf - d.new_buf_offset in
      let moved = left - (length f - room) in
      let m : moved ≡ min (length f) room = omega arith in
      let e' : laws.contents b ≡ laws.contents d.buf ++ take moved f =
        rw m (e ∙ ap (◌++◌ (laws.contents d.buf)) (sym (take-min room f))) in
      let (valid, same, more) =
        moved_lem d b d.off moved (laws.contents d.buf) v w v.off_le refl (omega arith) e' fits in
      let d' = record d { buf = b; new_buf_offset = d.new_buf_offset + moved } in
      let enough : n ≤ length (held laws d') = omega (arith, length-append (held laws d) f) in
      rw
        (
          fresh_rest d v,
          run,
          sub-of_le (length d.new_buf) d.new_buf_offset v.new_le,
          sub-of_le left (length f - room) (omega arith),
        )
        (Taken-of_view {d = d} {d' = d'} {n = n} same c
          (Taken-held d' n valid enough (held_slice d' n valid enough)))

  pub Taken-moved :
      (d : DualBuffer T) (n : ℕ)
      → IsValid laws d
      → n ≤ length (view laws d)
      → length (held laws d) < n
      → n ≤ ops.max_capacity d.buf
      → Taken laws d n (Dual.take_moved ops d n (n - min (length (held laws d)) n))
  unfolding Dual.take_moved
  Taken-moved d n v h lt cap =
      let f = fresh laws d in
      let m = n - min (length (held laws d)) n in
      let size : length f ≡ length d.new_buf - d.new_buf_offset = length-drop _ _ in
      let all : length (view laws d) ≡ length (held laws d) + length f = length-append _ _ in
      let held_size : length (held laws d) ≡ length (laws.contents d.buf) - d.off =
        length-drop _ _ in
      let piece_size : length (take m f) ≡ min m (length f) = length-take m f in
      let (b1, run1, w1, e1, c1) = laws.drain_lem d.buf d.off v.buf_valid v.off_le in
      let size1 : length (laws.contents b1) ≡ length (held laws d) = ap length e1 in
      let (b2, run2, w2, e2, c2) = laws.extend_lem b1 (take m f) w1 (omega (arith, v.fits)) in
      let room = ops.max_capacity b1 - length (laws.contents b1) in
      let whole : take room (take m f) ≡ take m f = take-of_le room (take m f) (omega arith) in
      let (valid, same, more) =
        moved_lem d b2 0 m (laws.contents b1) v w2 (omega arith) e1 (omega arith)
          (e2 ∙ ap (◌++◌ (laws.contents b1)) whole) (omega (arith, v.fits)) in
      let d' = record d { buf = b2; off = 0; new_buf_offset = d.new_buf_offset + m } in
      let enough : n ≤ length (held laws d') = omega arith in
      let bytes : ops.index_range b2 0 n ≡ some (take n (view laws d')) =
        let z : 0 + n ≡ n = omega arith in
        ap (ops.index_range b2 0) (sym z) ∙ held_slice d' n valid enough in
      rw (run1, fresh_slice d m v (omega arith), run2)
        (Taken-of_view {d = d} {d' = d'} {n = n} same (c2 ∙ c1)
          (Taken-held d' n valid enough bytes))
