-- ===== src/Parser/Total.antt =====
-- `ParserIter::next` (ublox/src/parser.rs) on a buffer of any capacity: no panic, and an end.
pub mod Header
pub mod Loop
use ublox.Prelude.{
  ℕ, zero, suc, ◌+◌, ◌≤◌, ◌<◌, ◌≡◌, refl, sym, ap, ◌∙◌, Option, none, some, List, [], ◌∷◌, length,
  drop, arith, length-drop, Bool-cases, inl, inr, true, false, ltb, ◌==◌, ◌⊎◌, ◌>>=◌, if◌then◌else◌,
  position, position-some, Option-cases, get_elem?-of_lt, get_elem?,
}
use ublox.Error.{ParserError, Result, err, out_of_memory}
use ublox.Buffer.{UnderlyingBuffer, Laws}
use ublox.Dual
use ublox.Dual.{DualBuffer}
use ublox.Dual.View.{
  view, IsValid, len-view, drained, drain-drained, drained-IsValid, view-drained, index-view,
  clear-view,
}
use ublox.Dual.Room.{can_take}
use ublox.Packets.{Packets}
use ublox.Parser
use ublox.Parser.{
  ParserIter, Round, returns, continues, u16_of_le, sync_char_2, extract_packet, read_header,
  next_round, next_loop, find_sync,
}
use ublox.Parser.Scan.{Scanned, covered, close}
use ublox.Parser.Refine.{Refines, index_at}
use ublox.Parser.Extract.{
  Refines-check_packet, Refines-extract_out_of_memory, Refines-extract_waits,
  extract_packet-possible,
}
use ublox.Parser.Step.Rounds.{find_sync-position}
use ublox.Parser.Stream.{Shrinks, close-Shrinks}

module _ {T P : Type 0} {ops : UnderlyingBuffer T} (laws : Laws ops) (packets : Packets P) where
  -- An item takes a byte away at least.
  abbrev pub Progress : Option (Result P ParserError) → ℕ → ℕ → Type 0
  Progress none left n = left ≤ n
  Progress (some item) left n = left < n

  pub record Ran (d : DualBuffer T) (out : Option (Option (Result P ParserError) × DualBuffer T))
      : Type 0 where
    pub item : Option (Result P ParserError)
    pub rest : DualBuffer T
    pub runs : out ≡ some (item, rest)
    pub valid : IsValid laws rest
    pub progress : Progress item (length (view laws rest)) (length (view laws d))
    pub capacity : ops.max_capacity rest.buf ≡ ops.max_capacity d.buf

  -- The round goes on with fewer bytes.
  pub record GoesOn (d : DualBuffer T) (out : Option (Round T (Option (Result P ParserError))))
      : Type 0 where
    pub rest : DualBuffer T
    pub runs : out ≡ some (continues rest)
    pub valid : IsValid laws rest
    pub shorter : length (view laws rest) < length (view laws d)
    pub capacity : ops.max_capacity rest.buf ≡ ops.max_capacity d.buf

  pub record Stops (d : DualBuffer T) (out : Option (Round T (Option (Result P ParserError))))
      : Type 0 where
    pub item : Option (Result P ParserError)
    pub rest : DualBuffer T
    pub runs : out ≡ some (returns item rest)
    pub valid : IsValid laws rest
    pub progress : Progress item (length (view laws rest)) (length (view laws d))
    pub capacity : ops.max_capacity rest.buf ≡ ops.max_capacity d.buf

  abbrev pub RoundRan : DualBuffer T → Option (Round T (Option (Result P ParserError))) → Type 0
  RoundRan d out = Stops d out ⊎ GoesOn d out

  Progress-Shrinks :
      (s : Scanned packets) (n : ℕ) → Shrinks packets s n → Progress s.0 (length s.1) n
  Progress-Shrinks (none, rest) n h = h.0
  Progress-Shrinks (some item, rest) n h = h

  Ran-Refines :
      {d : DualBuffer T} {out : Option (Option (Result P ParserError) × DualBuffer T)}
      {spec : Scanned packets}
      → Refines laws d out spec
      → Progress spec.0 (length spec.1) (length (view laws d))
      → Ran d out
  Ran-Refines {d} {spec = spec} r p = record {
    item = spec.0;
    rest = r.rest;
    runs = r.runs;
    valid = r.valid;
    progress = rw (r.left) p;
    capacity = r.capacity;
  }

  two_behind :
      (n : ℕ) (body : List ℕ)
      → n + 2 ≤ length body
      → (a : ℕ) × (b : ℕ) × (rest : List ℕ) × (drop n body ≡ a ∷ b ∷ rest)
  two_behind zero (a ∷ b ∷ rest) h = (a, b, rest, refl)
  two_behind zero (a ∷ []) h = absurd (omega arith)
  two_behind zero [] h = absurd (omega arith)
  two_behind (suc n) [] h = absurd (omega arith)
  two_behind (suc n) (x ∷ body) h = two_behind n body (omega arith)

  pub Ran-extract_packet :
      (d : DualBuffer T) (w s class msg_id lo hi : ℕ) (body : List ℕ)
      → IsValid laws d
      → view laws d ≡ w ∷ s ∷ covered class msg_id lo hi body
      → u16_of_le lo hi ≤ packets.max_payload_len
      → Ran d (extract_packet ops packets d (u16_of_le lo hi))
  Ran-extract_packet d w s class msg_id lo hi body v e fits =
      let n = u16_of_le lo hi in
      let size : length (view laws d) ≡ 6 + length body = ap length e ∙ omega arith in
      let size' : length (view laws (drained laws d 6)) ≡ length body =
        ap length (view-drained laws d 6 ∙ ap (drop 6) e) in
      elim (Bool-cases (can_take laws (drained laws d 6) (n + 2))) [
        | inl can ↦
            let (a, b, rest, t) = two_behind n body (ground arith) in
            rw (extract_packet-possible laws packets d v w s class msg_id lo hi body e can) (
              Ran-Refines
                (Refines-check_packet laws packets d v w s class msg_id lo hi body e a b rest t can)
                (Progress-Shrinks _ _
                  (close-Shrinks packets class msg_id lo hi _ body (a ∷ b ∷ rest) size t fits)))
        | inr cannot ↦ elim (Bool-cases (ltb (ops.max_capacity d.buf) (length (view laws d)))) [
          | inl full ↦
              Ran-Refines
                (Refines-extract_out_of_memory laws packets d v w s class msg_id lo hi body e cannot
                  (ground arith))
                (omega arith)
          | inr room ↦
              Ran-Refines
                (Refines-extract_waits laws packets d v w s class msg_id lo hi body e cannot
                  (ground arith))
                (omega arith)
        ]
      ]
