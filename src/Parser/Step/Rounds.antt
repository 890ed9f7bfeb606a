-- ===== src/Parser/Step/Rounds.antt =====
-- A round of `ParserIter::next` (ublox/src/parser.rs), against the reference.
use ublox.Prelude.{
  ℕ, ◌+◌, ◌≤◌, ◌≡◌, refl, sym, ◌∙◌, ap, Option, none, some, [], ◌∷◌, length, drop, arith,
  length-drop, Bool-cases, inl, inr, true, false, ◌==◌, position, position-some, find_index_all,
  drop-of_le, nil_of_length, drop-of_get_elem?, Option-cases,
}
use ublox.Error.{ParserError, Result}
use ublox.Buffer.{UnderlyingBuffer, Laws}
use ublox.Dual
use ublox.Dual.{DualBuffer}
use ublox.Dual.View.{
  view, IsValid, len-view, drained, drain-drained, drained-IsValid, view-drained, index-view,
  clear-view,
}
use ublox.Packets.{Packets}
use ublox.Parser.{Round, find_sync, next_round, sync_char_1}
use ublox.Parser.Scan.{Scanned, scan}
use ublox.Parser.Skip.{scan-drop-position, scan-no_position}
use ublox.Parser.Step.{Returns, Follows}
use ublox.Parser.Step.Header.{read_header_lem}

module _ {T P : Type 0} {ops : UnderlyingBuffer T} (laws : Laws ops) (packets : Packets P) where
  pub find_sync-position :
      (d : DualBuffer T)
      → IsValid laws d
      → find_sync ops packets d ≡ some (position sync_char_1 (view laws d))
  unfolding find_sync
  find_sync-position d v = rw (len-view laws d v) (
      find_index_all (Dual.index ops d) sync_char_1 (length (view laws d)) (view laws d) refl
        (λ k lt. index-view laws d k v lt))

  -- What follows after the bytes before the sync char are dropped follows at once.
  Follows-drained :
      (d : DualBuffer T) (n : ℕ) {out : Option (Round T (Option (Result P ParserError)))}
      {spec : Scanned packets}
      → Follows laws packets (drained laws d n) out spec
      → Follows laws packets d out spec
  Follows-drained d n (inl r) = inl (record {
    rest = r.rest;
    runs = r.runs;
    valid = r.valid;
    left = r.left;
    capacity = r.capacity;
  })
  Follows-drained d n (inr r) = inr (record {
    rest = r.rest;
    runs = r.runs;
    valid = r.valid;
    same = r.same;
    shorter =
        omega (arith, r.shorter, ap length (view-drained laws d n), length-drop n (view laws d));
    capacity = r.capacity;
  })

  -- Nothing is left.
  round_empty :
      (d : DualBuffer T)
      → IsValid laws d
      → view laws d ≡ []
      → Returns laws packets d (next_round ops packets d) (none, [])
  unfolding next_round
  round_empty d v e =
      let z : (length (view laws d) == 0) ≡ true = ground (arith, ap length e) in
      rw (len-view laws d v, z)
        (record { rest = d; runs = refl; valid = v; left = e; capacity = refl })

  -- No sync char is left: the round clears the buffer.
  round_cleared :
      (d : DualBuffer T)
      → IsValid laws d
      → (length (view laws d) == 0) ≡ false
      → position sync_char_1 (view laws d) ≡ none
      → Returns laws packets d (next_round ops packets d) (none, [])
  unfolding next_round
  round_cleared d v more p =
      let n = length (view laws d) in
      rw (len-view laws d v, more, find_sync-position d v, p, clear-view laws d v)
        (record {
          rest = drained laws d n;
          runs = refl;
          valid = drained-IsValid laws d n v (omega arith);
          left = view-drained laws d n ∙ drop-of_le n (view laws d) (omega arith);
          capacity = refl;
        })

  round_synced :
      (d : DualBuffer T) (i : ℕ)
      → IsValid laws d
      → packets.max_payload_len + 7 ≤ ops.max_capacity d.buf
      → (length (view laws d) == 0) ≡ false
      → position sync_char_1 (view laws d) ≡ some i
      → Follows laws packets d (next_round ops packets d) (scan packets (view laws d))
  unfolding next_round
  round_synced d i v cap more p =
      let (within, here) = position-some sync_char_1 (view laws d) i p in
      let e : view laws (drained laws d i) ≡ sync_char_1 ∷ drop (i + 1) (view laws d) =
        view-drained laws d i ∙ drop-of_get_elem? (view laws d) i here in
      let v' = drained-IsValid laws d i v (omega arith) in
      let spec : scan packets (sync_char_1 ∷ drop (i + 1) (view laws d))
          ≡ scan packets (view laws d) =
        ap (scan packets) (sym e ∙ view-drained laws d i)
        ∙ scan-drop-position packets (view laws d) i p in
      rw (len-view laws d v, more, find_sync-position d v, p, drain-drained laws d i v, ← spec)
        (Follows-drained d i
          (read_header_lem laws packets (drained laws d i) (drop (i + 1) (view laws d)) v' cap e))

  -- A round returns what the reference finds in the view, or goes on with fewer bytes.
  pub next_round_lem :
      (d : DualBuffer T)
      → IsValid laws d
      → packets.max_payload_len + 7 ≤ ops.max_capacity d.buf
      → Follows laws packets d (next_round ops packets d) (scan packets (view laws d))
  next_round_lem d v cap = elim (Bool-cases (length (view laws d) == 0)) [
    | inl z ↦
        let e : view laws d ≡ [] = nil_of_length (view laws d) (ground arith) in
        rw e (inl (unfold scan in round_empty d v e))
    | inr more ↦ elim (Option-cases (position sync_char_1 (view laws d))) [
      | inl p ↦ rw (scan-no_position packets (view laws d) p) (inl (round_cleared d v more p))
      | inr (i, p) ↦ round_synced d i v cap more p
    ]
  ]
