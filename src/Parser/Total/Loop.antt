-- ===== src/Parser/Total/Loop.antt =====
-- The rounds of `ParserIter::next` (ublox/src/parser.rs) on a buffer of any capacity.
use ublox.Prelude.{
  ℕ, zero, suc, ◌≤◌, ◌<◌, ◌≡◌, refl, ap, ◌∙◌, Option, none, some, length, arith, length-drop,
  Bool-cases, inl, inr, ◌==◌, position, position-some, Option-cases,
}
use ublox.Error.{ParserError, Result}
use ublox.Buffer.{UnderlyingBuffer, Laws}
use ublox.Dual.{DualBuffer}
use ublox.Dual.View.{
  view, IsValid, len-view, drained, drain-drained, drained-IsValid, view-drained, clear-view,
}
use ublox.Packets.{Packets}
use ublox.Parser
use ublox.Parser.{ParserIter, next_round, next_loop, sync_char_1}
use ublox.Parser.Step.Rounds.{find_sync-position}
use ublox.Parser.Total.{Progress, Ran, RoundRan}
use ublox.Parser.Total.Header.{Stops-still, RoundRan-read_header}

module _ {T P : Type 0} {ops : UnderlyingBuffer T} (laws : Laws ops) (packets : Packets P) where
  Progress-le :
      (item : Option (Result P ParserError)) (left m n : ℕ)
      → Progress laws packets item left m
      → m ≤ n
      → Progress laws packets item left n
  Progress-le none left m n p h = omega arith
  Progress-le (some item) left m n p h = omega arith

  -- A round after some bytes were drained is one on all of them.
  RoundRan-drained :
      (d : DualBuffer T) (n : ℕ) {out : _}
      → RoundRan laws packets (drained laws d n) out
      → RoundRan laws packets d out
  RoundRan-drained d n (inl r) = inl (record {
    item = r.item;
    rest = r.rest;
    runs = r.runs;
    valid = r.valid;
    progress =
        Progress-le r.item _ _ _ r.progress
          (omega (arith, ap length (view-drained laws d n), length-drop n (view laws d)));
    capacity = r.capacity;
  })
  RoundRan-drained d n (inr r) = inr (record {
    rest = r.rest;
    runs = r.runs;
    valid = r.valid;
    shorter =
        omega (arith, r.shorter, ap length (view-drained laws d n), length-drop n (view laws d));
    capacity = r.capacity;
  })

  RoundRan-next_round :
      (d : DualBuffer T) → IsValid laws d → RoundRan laws packets d (next_round ops packets d)
  unfolding next_round
  RoundRan-next_round d v = rw (len-view laws d v) (elim (Bool-cases (length (view laws d) == 0)) [
    | inl empty ↦ rw empty (inl (Stops-still laws packets d v))
    | inr more ↦
        rw (more, find_sync-position laws packets d v)
          (elim (Option-cases (position sync_char_1 (view laws d))) [
            | inl p ↦
                let n = length (view laws d) in
                rw (p, clear-view laws d v)
                  (inl (record {
                    item = none;
                    rest = drained laws d n;
                    runs = refl;
                    valid = drained-IsValid laws d n v (omega arith);
                    progress =
                        omega
                          (arith, ap length (view-drained laws d n), length-drop n (view laws d));
                    capacity = refl;
                  }))
            | inr (i, p) ↦
                let (within, here) = position-some sync_char_1 (view laws d) i p in
                rw (p, drain-drained laws d i v)
                  (RoundRan-drained d i (
                    RoundRan-read_header laws packets (drained laws d i) _
                      (drained-IsValid laws d i v (omega arith)) refl))
          ])
  ])

  Ran-next_loop :
      (fuel : ℕ) (d : DualBuffer T)
      → IsValid laws d
      → length (view laws d) < fuel
      → Ran laws packets d (next_loop ops packets fuel d)
  unfolding next_loop
  Ran-next_loop zero d v h = absurd (omega arith)
  Ran-next_loop (suc fuel) d v h = elim (RoundRan-next_round d v) [
    | inl r ↦ rw (r.runs) (record {
      item = r.item;
      rest = r.rest;
      runs = refl;
      valid = r.valid;
      progress = r.progress;
      capacity = r.capacity;
    })
    | inr r ↦
        let more = Ran-next_loop fuel r.rest r.valid (omega (arith, r.shorter)) in
        rw (r.runs) (record {
          item = more.item;
          rest = more.rest;
          runs = more.runs;
          valid = more.valid;
          progress = Progress-le more.item _ _ _ more.progress (omega (arith, r.shorter));
          capacity = more.capacity ∙ r.capacity;
        })
  ]

  -- What `next` returns and leaves.
  pub record Nexts (it : ParserIter T) (out : Option (Option (Result P ParserError) × ParserIter T))
      : Type 0 where
    pub item : Option (Result P ParserError)
    pub rest : ParserIter T
    pub runs : out ≡ some (item, rest)
    pub valid : IsValid laws rest.buf
    pub progress :
        Progress laws packets item (length (view laws rest.buf)) (length (view laws it.buf))
    pub capacity : ops.max_capacity rest.buf.buf ≡ ops.max_capacity it.buf.buf

  -- On any valid iterator, whatever the capacity of its buffer, `next` ends without a panic: an
  -- item takes a byte at least from the bytes ahead, the iterator stays valid, and its buffer keeps
  -- its capacity.
  pub Nexts-next : (it : ParserIter T) → IsValid laws it.buf → Nexts it (Parser.next ops packets it)
  unfolding Parser.next
  Nexts-next it v =
      let r = Ran-next_loop (suc (length (view laws it.buf))) it.buf v (omega arith) in
      rw (len-view laws it.buf v, r.runs)
        (record {
          item = r.item;
          rest = record { buf = r.rest };
          runs = refl;
          valid = r.valid;
          progress = r.progress;
          capacity = r.capacity;
        })
