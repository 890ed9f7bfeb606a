-- ===== src/Parser/Extract.antt =====
-- `extract_packet` (ublox/src/parser.rs), against the reference.
use ublox.Prelude.{
  ℕ, suc, ◌+◌, ◌-◌, ◌≤◌, ◌<◌, ◌≡◌, refl, sym, ◌∙◌, ap, none, some, List, ◌∷◌, ◌++◌, length, take,
  drop, slice, arith, sub, length-drop, length-take, drop-drop, Bool-cases, inl, inr, true, false,
  ltb, ◌==◌, ◌&&◌, sub-of_le, take-take,
}
use ublox.Error.{err, out_of_memory}
use native.Mathlib.Nat.{sub-zero}
use ublox.Buffer.{UnderlyingBuffer, Laws}
use ublox.Buffer.Vector.{slice_index, slice_index_lem}
use ublox.Checksum
use ublox.Checksum.Laws.{result-update-update}
use ublox.Dual.{DualBuffer}
use ublox.Dual.View.{
  view, IsValid, drained, drain-drained, drained-IsValid, view-drained, potential_lost_bytes-view,
}
use ublox.Dual.Room.{can_take, can_drain_and_take-view}
use ublox.Dual.Take.{Taken-take}
use ublox.Dual.Peek.{peek_raw-view}
use ublox.Packets.{Packets}
use ublox.Parser.{check_packet, extract_packet, u16_of_le}
use ublox.Parser.Refine.{Refines, Refines-drain, index_at}
use ublox.Parser.Scan.{covered, close}

module _ {T P : Type 0} {ops : UnderlyingBuffer T} (laws : Laws ops) (packets : Packets P) where
  -- `d` begins with two bytes and the four bytes of a header.
  module _ (d : DualBuffer T) (v : IsValid laws d) (w s class msg_id lo hi : ℕ) (body : List ℕ)
      (e : view laws d ≡ w ∷ s ∷ covered class msg_id lo hi body) where
    checksum_at :
        (a b : List ℕ)
        → a ++ b ≡ slice 2 (4 + u16_of_le lo hi + 2) (view laws d)
        → Checksum.result (Checksum.update (Checksum.update Checksum.new a) b)
          ≡ Checksum.ubx_checksum (covered class msg_id lo hi (take (u16_of_le lo hi) body))
    checksum_at a b p =
        let n = u16_of_le lo hi in
        let k : 4 + n + 2 - 2 ≡ suc (suc (suc (suc n))) = omega arith in
        result-update-update a b ∙ ap Checksum.ubx_checksum (p ∙ rw (e, k))

    -- The bytes that `take` returns are the payload and the checksum.
    payload_of_taken :
        (n : ℕ) {a b : ℕ} {rest : List ℕ}
        → drop n body ≡ a ∷ b ∷ rest
        → (sub (length (take (n + 2) body)) 2 ≡ some n)
          × (slice_index (take (n + 2) body) 0 n ≡ some (take n body))
    payload_of_taken n t =
        let size : length (take (n + 2) body) ≡ n + 2 =
          omega (arith, length-take (n + 2) body, length-drop n body, ap length t) in
        let k : n + 2 - 2 ≡ n = omega arith in
        (
          rw size (sub-of_le (n + 2) 2 (omega arith) ∙ ap some k),
          slice_index_lem (take (n + 2) body) 0 n (omega arith) (omega arith)
              ∙ ap some (rw sub-zero (take-take n (n + 2) body (omega arith))),
        )

    pub Refines-check_packet :
        (a b : ℕ) (rest : List ℕ)
        → drop (u16_of_le lo hi) body ≡ a ∷ b ∷ rest
        → can_take laws (drained laws d 6) (u16_of_le lo hi + 2) ≡ true
        → Refines laws d
            (check_packet ops packets d (u16_of_le lo hi))
            (close packets class msg_id lo hi body (a ∷ b ∷ rest))
    unfolding check_packet close
    Refines-check_packet a b rest t can =
        let n = u16_of_le lo hi in
        let body_drop : drop 6 (view laws d) ≡ body = ap (drop 6) e in
        let tail : drop (6 + n) (view laws d) ≡ a ∷ b ∷ rest =
          sym (drop-drop n 6 (view laws d)) ∙ ap (drop n) body_drop ∙ t in
        let tail' : drop (6 + n + 1) (view laws d) ≡ b ∷ rest =
          sym (drop-drop 1 (6 + n) (view laws d)) ∙ ap (drop 1) tail in
        let size : length (view laws d) ≡ 6 + length body = ap length e ∙ omega arith in
        let enough : n + 2 ≤ length body = omega (arith, length-drop n body, ap length t) in
        let (p, q, run, eq) = peek_raw-view laws d 2 (4 + n + 2) v (omega arith) (omega arith) in
        let v' = drained-IsValid laws d 6 v (omega arith) in
        let taken = Taken-take laws (drained laws d 6) (n + 2) v' can in
        let view' : view laws (drained laws d 6) ≡ body = view-drained laws d 6 ∙ body_drop in
        let ck = Checksum.ubx_checksum (covered class msg_id lo hi (take n body)) in
        rw
          (
            run,
            checksum_at p q eq,
            index_at laws d (6 + n) v tail,
            index_at laws d (6 + n + 1) v tail',
          )
          (elim (Bool-cases (ck.0 == a && ck.1 == b)) [
            | inl good ↦
                let parts = payload_of_taken n t in
                rw
                  (
                    good,
                    index_at laws d 2 v (ap (drop 2) e),
                    index_at laws d 3 v (ap (drop 3) e),
                    drain-drained laws d 6 v,
                    taken.runs,
                    view',
                    parts.0,
                    parts.1,
                  )
                  (record {
                    rest = taken.rest;
                    runs = refl;
                    valid = taken.valid;
                    left =
                        taken.left
                        ∙ ap (drop (n + 2)) view'
                        ∙ sym (drop-drop 2 n body)
                        ∙ ap (drop 2) t;
                    capacity = taken.capacity;
                  })
            | inr bad ↦ rw bad (Refines-drain laws d 2 _ v (omega arith) (ap (drop 2) e))
          ])

    -- On a valid `DualBuffer` that begins with two bytes and a header, where the payload and
    -- checksum cannot be taken behind the header and the bytes ahead are more than the buffer can
    -- hold, `extract_packet` returns `OutOfMemory` with the size of payload and checksum, and drops
    -- two bytes.
    pub Refines-extract_out_of_memory :
        can_take laws (drained laws d 6) (u16_of_le lo hi + 2) ≡ false
        → ops.max_capacity d.buf < length (view laws d)
        → Refines laws d
            (extract_packet ops packets d (u16_of_le lo hi))
            (some (err (out_of_memory (u16_of_le lo hi + 2))), covered class msg_id lo hi body)
    unfolding extract_packet
    Refines-extract_out_of_memory cannot full =
        let n = u16_of_le lo hi in
        let size : length (view laws d) ≡ 6 + length body = ap length e ∙ omega arith in
        let lost : ltb 0 (length (view laws d) - ops.max_capacity d.buf) ≡ true = ground arith in
        rw
          (
            can_drain_and_take-view laws d 6 (n + 2) v (omega arith),
            cannot,
            potential_lost_bytes-view laws d v,
            lost,
          )
          (Refines-drain laws d 2 _ v (omega arith) (ap (drop 2) e))

    -- The packet cannot be taken yet, and nothing is lost by waiting.
    pub Refines-extract_waits :
        can_take laws (drained laws d 6) (u16_of_le lo hi + 2) ≡ false
        → length (view laws d) ≤ ops.max_capacity d.buf
        → Refines laws d (extract_packet ops packets d (u16_of_le lo hi)) (none, view laws d)
    unfolding extract_packet
    Refines-extract_waits cannot room =
        let size : length (view laws d) ≡ 6 + length body = ap length e ∙ omega arith in
        let none_lost : length (view laws d) - ops.max_capacity d.buf ≡ 0 = omega arith in
        rw
          (
            can_drain_and_take-view laws d 6 (u16_of_le lo hi + 2) v (omega arith),
            cannot,
            potential_lost_bytes-view laws d v,
            none_lost,
          )
          (record { rest = d; runs = refl; valid = v; left = refl; capacity = refl })

    -- The packet is not there as a whole, and nothing is lost by waiting.
    pub Refines-extract_incomplete :
        length body < u16_of_le lo hi + 2
        → length (view laws d) ≤ ops.max_capacity d.buf
        → Refines laws d (extract_packet ops packets d (u16_of_le lo hi)) (none, view laws d)
    Refines-extract_incomplete short room =
        let size : length (view laws (drained laws d 6)) ≡ length body =
          ap length (view-drained laws d 6 ∙ ap (drop 6) e) in
        Refines-extract_waits (ground arith) room

    -- The packet can be taken: it is checked.
    pub extract_packet-possible :
        can_take laws (drained laws d 6) (u16_of_le lo hi + 2) ≡ true
        → extract_packet ops packets d (u16_of_le lo hi)
          ≡ check_packet ops packets d (u16_of_le lo hi)
    unfolding extract_packet
    extract_packet-possible can =
        let size : length (view laws d) ≡ 6 + length body = ap length e ∙ omega arith in
        rw (can_drain_and_take-view laws d 6 (u16_of_le lo hi + 2) v (omega arith), can)
