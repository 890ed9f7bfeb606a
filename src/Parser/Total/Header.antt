-- ===== src/Parser/Total/Header.antt =====
-- A round of `ParserIter::next` (ublox/src/parser.rs) from the first sync char on, on a buffer of any
-- capacity.
use ublox.Prelude.{
  ℕ, ◌+◌, ◌≤◌, ◌<◌, ◌≡◌, refl, ap, ◌∙◌, Option, none, some, List, [], ◌∷◌, length, drop, arith,
  length-drop, Bool-cases, inl, inr, true, false, ltb, ◌==◌, ◌>>=◌,
}
use ublox.Error.{ParserError, Result}
use ublox.Buffer.{UnderlyingBuffer, Laws}
use ublox.Dual
use ublox.Dual.{DualBuffer}
use ublox.Dual.View.{view, IsValid, len-view, drained, drain-drained, drained-IsValid, view-drained}
use ublox.Packets.{Packets}
use ublox.Parser.{returns, continues, u16_of_le, sync_char_2, read_header}
use ublox.Parser.Scan.{covered}
use ublox.Parser.Refine.{index_at}
use ublox.Parser.Total.{Ran, GoesOn, Stops, RoundRan, Ran-extract_packet}

module _ {T P : Type 0} {ops : UnderlyingBuffer T} (laws : Laws ops) (packets : Packets P) where
  pub Stops-still :
      (d : DualBuffer T) → IsValid laws d → Stops laws packets d (some (returns none d))
  Stops-still d v = record {
    item = none;
    rest = d;
    runs = refl;
    valid = v;
    progress = omega arith;
    capacity = refl;
  }

  GoesOn-drain :
      (d : DualBuffer T) (n : ℕ)
      → IsValid laws d
      → 0 < n
      → n ≤ length (view laws d)
      → GoesOn laws packets d (do rest ← Dual.drain ops d n; some (continues rest))
  GoesOn-drain d n v pos h = record {
    rest = drained laws d n;
    runs = rw (drain-drained laws d n v);
    valid = drained-IsValid laws d n v h;
    shorter = omega (arith, ap length (view-drained laws d n), length-drop n (view laws d));
    capacity = refl;
  }

  Stops-Ran :
      {d : DualBuffer T} {out : Option (Option (Result P ParserError) × DualBuffer T)}
      → Ran laws packets d out
      → Stops laws packets d (do (item, rest) ← out; some (returns item rest))
  Stops-Ran r = record {
    item = r.item;
    rest = r.rest;
    runs = rw (r.runs);
    valid = r.valid;
    progress = r.progress;
    capacity = r.capacity;
  }

  RoundRan-long :
      (d : DualBuffer T) (w s class msg_id lo hi : ℕ) (body : List ℕ)
      → IsValid laws d
      → view laws d ≡ w ∷ s ∷ covered class msg_id lo hi body
      → RoundRan laws packets d (read_header ops packets d)
  unfolding read_header
  RoundRan-long d w s class msg_id lo hi body v e =
      let n = u16_of_le lo hi in
      let size : length (view laws d) ≡ 6 + length body = ap length e ∙ omega arith in
      let two : ltb (length (view laws d)) 2 ≡ false = ground arith in
      let six : ltb (length (view laws d)) 6 ≡ false = ground arith in
      rw (len-view laws d v, two, index_at laws d 1 v (ap (drop 1) e))
        (elim (Bool-cases (s == sync_char_2)) [
          | inl synced ↦
              rw
                (
                  synced,
                  six,
                  index_at laws d 4 v (ap (drop 4) e),
                  index_at laws d 5 v (ap (drop 5) e),
                )
                (elim (Bool-cases (ltb packets.max_payload_len n)) [
                  | inl long ↦ rw long (inr (GoesOn-drain d 2 v (omega arith) (omega arith)))
                  | inr fits ↦ rw fits (
                      inl (
                        Stops-Ran (
                          Ran-extract_packet laws packets d w s class msg_id lo hi body v e
                            (ground arith))))
                ])
          | inr other ↦ rw other (inr (GoesOn-drain d 1 v (omega arith) (omega arith)))
        ])

  RoundRan-short :
      (d : DualBuffer T) (w s : ℕ) (bytes : List ℕ)
      → IsValid laws d
      → view laws d ≡ w ∷ s ∷ bytes
      → length bytes < 4
      → RoundRan laws packets d (read_header ops packets d)
  unfolding read_header
  RoundRan-short d w s bytes v e short =
      let size : length (view laws d) ≡ 2 + length bytes = ap length e ∙ omega arith in
      let two : ltb (length (view laws d)) 2 ≡ false = ground arith in
      let six : ltb (length (view laws d)) 6 ≡ true = ground arith in
      rw (len-view laws d v, two, index_at laws d 1 v (ap (drop 1) e))
        (elim (Bool-cases (s == sync_char_2)) [
          | inl synced ↦ rw (synced, six) (inl (Stops-still d v))
          | inr other ↦ rw other (inr (GoesOn-drain d 1 v (omega arith) (omega arith)))
        ])

  RoundRan-few :
      (d : DualBuffer T)
      → IsValid laws d
      → length (view laws d) < 2
      → RoundRan laws packets d (read_header ops packets d)
  unfolding read_header
  RoundRan-few d v few =
      let two : ltb (length (view laws d)) 2 ≡ true = ground arith in
      rw (len-view laws d v, two) (inl (Stops-still d v))

  pub RoundRan-read_header :
      (d : DualBuffer T) (bytes : List ℕ)
      → IsValid laws d
      → view laws d ≡ bytes
      → RoundRan laws packets d (read_header ops packets d)
  RoundRan-read_header d [] v e = RoundRan-few d v (omega (arith, ap length e))
  RoundRan-read_header d (w ∷ []) v e = RoundRan-few d v (omega (arith, ap length e))
  RoundRan-read_header d (w ∷ s ∷ class ∷ msg_id ∷ lo ∷ hi ∷ body) v e =
      RoundRan-long d w s class msg_id lo hi body v e
  RoundRan-read_header d (w ∷ s ∷ []) v e = RoundRan-short d w s [] v e (omega arith)
  RoundRan-read_header d (w ∷ s ∷ a ∷ []) v e = RoundRan-short d w s (a ∷ []) v e (omega arith)
  RoundRan-read_header d (w ∷ s ∷ a ∷ b ∷ []) v e =
      RoundRan-short d w s (a ∷ b ∷ []) v e (omega arith)
  RoundRan-read_header d (w ∷ s ∷ a ∷ b ∷ c ∷ []) v e =
      RoundRan-short d w s (a ∷ b ∷ c ∷ []) v e (omega arith)
