-- ===== src/Parser/Step.antt =====
-- What one round of the loop in `ParserIter::next` (ublox/src/parser.rs) does, against the reference.
pub mod Header
pub mod Rounds
use ublox.Prelude.{
  ℕ, ◌+◌, ◌≤◌, ◌<◌, ◌≡◌, refl, sym, ◌∙◌, ap, Option, none, some, List, [], ◌∷◌, length, drop, arith,
  length-drop, Bool-cases, inl, inr, true, false, ltb, ◌==◌, ◌⊎◌, ◌>>=◌, position, position-some,
  find_index_all, drop-of_le, nil_of_length, drop-of_get_elem?, Option-cases,
}
use ublox.Error.{ParserError, Result}
use ublox.Buffer.{UnderlyingBuffer, Laws}
use ublox.Dual
use ublox.Dual.{DualBuffer}
use ublox.Dual.View.{
  view, IsValid, len-view, drained, drain-drained, drained-IsValid, view-drained, index-view,
  clear-view,
}
use ublox.Dual.Room.{can_take}
use ublox.Packets.{Packets}
use ublox.Parser.{
  Round, returns, continues, find_sync, extract_packet, read_header, next_round, u16_of_le,
  sync_char_1, sync_char_2,
}
use ublox.Parser.Scan.{Scanned, covered, close, header, after_sync, scan}
use ublox.Parser.Refine.{Refines, index_at}
use ublox.Parser.Extract.{Refines-check_packet, Refines-extract_incomplete, extract_packet-possible}
use ublox.Parser.Skip.{
  header-short, close-incomplete, scan-drop-position, scan-no_position, scan-synced, scan-other,
}

module _ {T P : Type 0} {ops : UnderlyingBuffer T} (laws : Laws ops) (packets : Packets P) where
  -- The round returns what the reference finds, and leaves what it leaves.
  pub record Returns (d : DualBuffer T) (out : Option (Round T (Option (Result P ParserError))))
      (spec : Scanned packets) : Type 0 where
    pub rest : DualBuffer T
    pub runs : out ≡ some (returns spec.0 rest)
    pub valid : IsValid laws rest
    pub left : view laws rest ≡ spec.1
    pub capacity : ops.max_capacity rest.buf ≡ ops.max_capacity d.buf

  -- The round goes on with fewer bytes, in which the reference finds the same.
  pub record Continues (d : DualBuffer T) (out : Option (Round T (Option (Result P ParserError))))
      (spec : Scanned packets) : Type 0 where
    pub rest : DualBuffer T
    pub runs : out ≡ some (continues rest)
    pub valid : IsValid laws rest
    pub same : scan packets (view laws rest) ≡ spec
    pub shorter : length (view laws rest) < length (view laws d)
    pub capacity : ops.max_capacity rest.buf ≡ ops.max_capacity d.buf

  abbrev pub Follows :
      DualBuffer T → Option (Round T (Option (Result P ParserError))) → Scanned packets → Type 0
  Follows d out spec = Returns d out spec ⊎ Continues d out spec

  pub Continues-drain :
      (d : DualBuffer T) (n : ℕ) {xs : List ℕ} {spec : Scanned packets}
      → IsValid laws d
      → 0 < n
      → n ≤ length (view laws d)
      → drop n (view laws d) ≡ xs
      → scan packets xs ≡ spec
      → Continues d (do rest ← Dual.drain ops d n; some (continues rest)) spec
  Continues-drain d n v pos h e s = record {
    rest = drained laws d n;
    runs = rw (drain-drained laws d n v);
    valid = drained-IsValid laws d n v h;
    same = ap (scan packets) (view-drained laws d n ∙ e) ∙ s;
    shorter = rw (view-drained laws d n) (rw length-drop (omega arith));
    capacity = refl;
  }

  pub Returns-Refines :
      {d : DualBuffer T} {out : Option (Option (Result P ParserError) × DualBuffer T)}
      {spec : Scanned packets}
      → Refines laws d out spec
      → Returns d (do (item, rest) ← out; some (returns item rest)) spec
  Returns-Refines r = record {
    rest = r.rest;
    runs = rw (r.runs);
    valid = r.valid;
    left = r.left;
    capacity = r.capacity;
  }
