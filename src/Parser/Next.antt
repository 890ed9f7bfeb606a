-- ===== src/Parser/Next.antt =====
-- `ParserIter::next` and `Parser::consume` (ublox/src/parser.rs), against the reference.
use ublox.Prelude.{
  ℕ, zero, suc, ◌+◌, ◌≤◌, ◌<◌, ◌≡◌, refl, ◌∙◌, ap, Option, some, List, ◌++◌, length, arith, inl,
  inr, position, find_index_all, length-append, length-drop, Option-cases, position-some,
}
use ublox.Error.{ParserError, Result}
use ublox.Buffer.{UnderlyingBuffer, Laws, Fits}
use ublox.Dual
use ublox.Dual.{DualBuffer}
use ublox.Dual.View.{
  view, IsValid, len-view, drained, drain-drained, drained-IsValid, view-drained, index-view,
}
use ublox.Packets.{Packets}
use ublox.Parser
use ublox.Parser.{Parser, ParserIter, next_round, next_loop, sync_char_1}
use ublox.Parser.Scan.{Scanned, scan}
use ublox.Parser.Refine.{Refines}
use ublox.Parser.Skip.{scan-drop-position}
use ublox.Parser.Step.Rounds.{next_round_lem}

module _ {T P : Type 0} {ops : UnderlyingBuffer T} (laws : Laws ops) (packets : Packets P) where
  -- More rounds than bytes are enough.
  next_loop_lem :
      (fuel : ℕ) (d : DualBuffer T)
      → IsValid laws d
      → packets.max_payload_len + 7 ≤ ops.max_capacity d.buf
      → length (view laws d) < fuel
      → Refines laws d (next_loop ops packets fuel d) (scan packets (view laws d))
  unfolding next_loop
  next_loop_lem zero d v cap h = absurd (omega arith)
  next_loop_lem (suc fuel) d v cap h = elim (next_round_lem laws packets d v cap) [
    | inl r ↦ rw (r.runs) (record {
      rest = r.rest;
      runs = refl;
      valid = r.valid;
      left = r.left;
      capacity = r.capacity;
    })
    | inr r ↦
        let more =
          next_loop_lem fuel r.rest r.valid (omega (arith, r.capacity))
            (omega (arith, r.shorter)) in
        rw (← r.same, r.runs)
          (record {
            rest = more.rest;
            runs = more.runs;
            valid = more.valid;
            left = more.left;
            capacity = more.capacity ∙ r.capacity;
          })
  ]

  -- What `next` does on an iterator: it returns the item that the reference finds in the bytes
  -- ahead, and leaves the bytes that the reference leaves.
  pub record Follows (it : ParserIter T)
      (out : Option (Option (Result P ParserError) × ParserIter T)) (spec : Scanned packets)
      : Type 0 where
    pub rest : ParserIter T
    pub runs : out ≡ some (spec.0, rest)
    pub valid : IsValid laws rest.buf
    pub left : view laws rest.buf ≡ spec.1
    pub capacity : ops.max_capacity rest.buf.buf ≡ ops.max_capacity it.buf.buf

  -- On a valid iterator whose buffer has room for the largest payload and seven bytes, `next`
  -- neither panics nor runs on: it returns the item that the reference finds in the bytes ahead,
  -- and leaves ahead what the reference leaves, in a valid iterator of the same capacity.
  pub next-scan :
      (it : ParserIter T)
      → IsValid laws it.buf
      → packets.max_payload_len + 7 ≤ ops.max_capacity it.buf.buf
      → Follows it (Parser.next ops packets it) (scan packets (view laws it.buf))
  unfolding Parser.next
  next-scan it v cap =
      let r = next_loop_lem (suc (length (view laws it.buf))) it.buf v cap (omega arith) in
      rw (len-view laws it.buf v, r.runs)
        (record {
          rest = record { buf = r.rest };
          runs = refl;
          valid = r.valid;
          left = r.left;
          capacity = r.capacity;
        })

  -- A new `DualBuffer` shows what the buffer holds, and the new data behind it.
  new-IsValid :
      (b : T) (bytes : List ℕ)
      → laws.IsValid b
      → Fits (length (laws.contents b)) (length bytes)
      → IsValid laws (Dual.new b bytes) × (view laws (Dual.new b bytes) ≡ laws.contents b ++ bytes)
  unfolding Dual.new
  new-IsValid b bytes w fits = (
    record { buf_valid = w; off_le = omega arith; new_le = omega arith; fits = omega arith },
    refl,
  )

  -- `consume` does not panic, and the reference finds in the iterator what it finds in the bytes
  -- that were kept and the new data behind them.
  pub record Consumed (p : Parser T) (bytes : List ℕ) (out : Option (ParserIter T)) : Type 0 where
    pub it : ParserIter T
    pub runs : out ≡ some it
    pub valid : IsValid laws it.buf
    pub same : scan packets (view laws it.buf) ≡ scan packets (laws.contents p.buf ++ bytes)
    pub shorter : length (view laws it.buf) ≤ length (laws.contents p.buf) + length bytes
    pub capacity : ops.max_capacity it.buf.buf ≡ ops.max_capacity p.buf

  -- `consume` on a valid buffer, where the bytes kept and the new ones together are no more than
  -- the largest object, does not panic: the reference finds in the bytes ahead of the iterator what
  -- it finds in the bytes kept and the new ones behind them, and the iterator is valid, has no more
  -- bytes ahead than these, and keeps the capacity.
  pub consume-scan :
      (p : Parser T) (bytes : List ℕ)
      → laws.IsValid p.buf
      → Fits (length (laws.contents p.buf)) (length bytes)
      → Consumed p bytes (Parser.consume ops packets p bytes)
  unfolding Parser.consume Dual.new
  consume-scan p bytes w fits =
      let d = Dual.new p.buf bytes in
      let (v, e) = new-IsValid p.buf bytes w fits in
      let size : length (view laws d) ≡ length (laws.contents p.buf) + length bytes =
        length-append (laws.contents p.buf) bytes in
      let all =
        find_index_all (Dual.index ops d) sync_char_1 (length (view laws d)) (view laws d) refl
          (λ k lt. index-view laws d k v lt) in
      rw (len-view laws d v, all)
        (elim (Option-cases (position sync_char_1 (view laws d))) [
          | inl q ↦ rw q (record {
            it = record { buf = d };
            runs = refl;
            valid = v;
            same = refl;
            shorter = omega arith;
            capacity = refl;
          })
          | inr (i, q) ↦
              let within = (position-some sync_char_1 (view laws d) i q).0 in
              let w = view-drained laws d i in
              rw (q, drain-drained laws d i v)
                (record {
                  it = record { buf = drained laws d i };
                  runs = refl;
                  valid = drained-IsValid laws d i v (omega arith);
                  same = ap (scan packets) w ∙ scan-drop-position packets (view laws d) i q;
                  shorter = omega (arith, ap length w, length-drop i (view laws d));
                  capacity = refl;
                })
        ])
