-- ===== src/Parser/Step/Header.antt =====
-- A round of `ParserIter::next` (ublox/src/parser.rs) from the first sync char on.
use ublox.Prelude.{
  ℕ, ◌+◌, ◌≤◌, ◌<◌, ◌≡◌, refl, ◌∙◌, ap, List, [], ◌∷◌, length, drop, arith, length-drop, Bool-cases,
  inl, inr, true, false, ltb, ◌==◌,
}
use ublox.Buffer.{UnderlyingBuffer, Laws}
use ublox.Dual.{DualBuffer}
use ublox.Dual.View.{view, IsValid, len-view, drained, view-drained}
use ublox.Dual.Room.{can_take}
use ublox.Packets.{Packets}
use ublox.Parser.{extract_packet, read_header, u16_of_le, sync_char_1, sync_char_2}
use ublox.Parser.Scan.{Scanned, covered, close, header, after_sync, scan}
use ublox.Parser.Refine.{Refines, index_at}
use ublox.Parser.Extract.{Refines-check_packet, Refines-extract_incomplete, extract_packet-possible}
use ublox.Parser.Skip.{header-short, close-incomplete, scan-synced, scan-other}
use ublox.Parser.Step.{Returns, Continues, Follows, Continues-drain, Returns-Refines}

module _ {T P : Type 0} {ops : UnderlyingBuffer T} (laws : Laws ops) (packets : Packets P) where
  incomplete_lem :
      (d : DualBuffer T) (class msg_id lo hi : ℕ) (body back : List ℕ)
      → IsValid laws d
      → packets.max_payload_len + 7 ≤ ops.max_capacity d.buf
      → view laws d ≡ sync_char_1 ∷ sync_char_2 ∷ covered class msg_id lo hi body
      → u16_of_le lo hi ≤ packets.max_payload_len
      → drop (u16_of_le lo hi) body ≡ back
      → length back < 2
      → Refines laws d
          (extract_packet ops packets d (u16_of_le lo hi))
          (close packets class msg_id lo hi body back)
  incomplete_lem d class msg_id lo hi body back v cap e le t short =
      let n = u16_of_le lo hi in
      let size : length (view laws d) ≡ 6 + length body = ap length e ∙ omega arith in
      let few : length body < n + 2 = omega (arith, length-drop n body, ap length t) in
      rw (close-incomplete packets class msg_id lo hi body back short, ← e)
        (Refines-extract_incomplete laws packets d v _ _ class msg_id lo hi body e few
          (omega arith))

  -- The header and the body are there.
  header_lem :
      (d : DualBuffer T) (class msg_id lo hi : ℕ) (body : List ℕ) (back : List ℕ)
      → IsValid laws d
      → packets.max_payload_len + 7 ≤ ops.max_capacity d.buf
      → view laws d ≡ sync_char_1 ∷ sync_char_2 ∷ covered class msg_id lo hi body
      → u16_of_le lo hi ≤ packets.max_payload_len
      → drop (u16_of_le lo hi) body ≡ back
      → Refines laws d
          (extract_packet ops packets d (u16_of_le lo hi))
          (close packets class msg_id lo hi body back)
  header_lem d class msg_id lo hi body [] v cap e le t =
      incomplete_lem d class msg_id lo hi body [] v cap e le t (omega arith)
  header_lem d class msg_id lo hi body (a ∷ []) v cap e le t =
      incomplete_lem d class msg_id lo hi body (a ∷ []) v cap e le t (omega arith)
  header_lem d class msg_id lo hi body (a ∷ b ∷ back) v cap e le t =
      let n = u16_of_le lo hi in
      let size : length (view laws d) ≡ 6 + length body = ap length e ∙ omega arith in
      let enough : n + 2 ≤ length body = omega (arith, length-drop n body, ap length t) in
      let left : length (view laws (drained laws d 6)) ≡ length body =
        ap length (view-drained laws d 6 ∙ ap (drop 6) e) in
      let can : can_take laws (drained laws d 6) (n + 2) ≡ true = ground arith in
      rw (extract_packet-possible laws packets d v _ _ class msg_id lo hi body e can)
        (Refines-check_packet laws packets d v _ _ class msg_id lo hi body e a b back t can)

module _ {T P : Type 0} {ops : UnderlyingBuffer T} (laws : Laws ops) (packets : Packets P) where
  -- Fewer than six bytes: no header yet.
  short_lem :
      (d : DualBuffer T) (bytes : List ℕ) (next : Scanned packets)
      → IsValid laws d
      → view laws d ≡ sync_char_1 ∷ sync_char_2 ∷ bytes
      → length bytes < 4
      → Returns laws packets d (read_header ops packets d) (header packets bytes next)
  unfolding read_header
  short_lem d bytes next v e short =
      let size : length (view laws d) ≡ 2 + length bytes = ap length e ∙ omega arith in
      let two : ltb (length (view laws d)) 2 ≡ false = ground arith in
      let six : ltb (length (view laws d)) 6 ≡ true = ground arith in
      rw
        (
          header-short packets bytes next short,
          ← e,
          len-view laws d v,
          two,
          index_at laws d 1 v (ap (drop 1) e),
          six,
        )
        (record { rest = d; runs = refl; valid = v; left = refl; capacity = refl })

  long_lem :
      (d : DualBuffer T) (class msg_id lo hi : ℕ) (body : List ℕ)
      → IsValid laws d
      → packets.max_payload_len + 7 ≤ ops.max_capacity d.buf
      → view laws d ≡ sync_char_1 ∷ sync_char_2 ∷ covered class msg_id lo hi body
      → Follows laws packets d (read_header ops packets d) (
          header packets
            (covered class msg_id lo hi body)
            (scan packets (sync_char_2 ∷ covered class msg_id lo hi body)))
  unfolding read_header header
  long_lem d class msg_id lo hi body v cap e =
      let n = u16_of_le lo hi in
      let size : length (view laws d) ≡ 6 + length body = ap length e ∙ omega arith in
      let two : ltb (length (view laws d)) 2 ≡ false = ground arith in
      let six : ltb (length (view laws d)) 6 ≡ false = ground arith in
      rw
        (
          len-view laws d v,
          two,
          index_at laws d 1 v (ap (drop 1) e),
          six,
          index_at laws d 4 v (ap (drop 4) e),
          index_at laws d 5 v (ap (drop 5) e),
        )
        (elim (Bool-cases (ltb packets.max_payload_len n)) [
          | inl long ↦ rw long (
              inr (
                Continues-drain laws packets d 2 v (omega arith) (omega arith) (ap (drop 2) e)
                  (unfold scan in refl)))
          | inr fits ↦ rw fits (
              inl (
                Returns-Refines laws packets (
                  header_lem laws packets d class msg_id lo hi body _ v cap e (ground arith) refl)))
        ])

  synced_lem :
      (d : DualBuffer T) (bytes : List ℕ)
      → IsValid laws d
      → packets.max_payload_len + 7 ≤ ops.max_capacity d.buf
      → view laws d ≡ sync_char_1 ∷ sync_char_2 ∷ bytes
      → Follows laws packets d
          (read_header ops packets d)
          (header packets bytes (scan packets (sync_char_2 ∷ bytes)))
  synced_lem d (class ∷ msg_id ∷ lo ∷ hi ∷ body) v cap e =
      long_lem d class msg_id lo hi body v cap e
  synced_lem d [] v cap e = inl (short_lem d [] _ v e (omega arith))
  synced_lem d (a ∷ []) v cap e = inl (short_lem d (a ∷ []) _ v e (omega arith))
  synced_lem d (a ∷ b ∷ []) v cap e = inl (short_lem d (a ∷ b ∷ []) _ v e (omega arith))
  synced_lem d (a ∷ b ∷ c ∷ []) v cap e = inl (short_lem d (a ∷ b ∷ c ∷ []) _ v e (omega arith))

  other_lem :
      (d : DualBuffer T) (second : ℕ) (bytes : List ℕ)
      → IsValid laws d
      → view laws d ≡ sync_char_1 ∷ second ∷ bytes
      → (second == sync_char_2) ≡ false
      → Continues laws packets d (read_header ops packets d) (scan packets (second ∷ bytes))
  unfolding read_header
  other_lem d second bytes v e h =
      let size : length (view laws d) ≡ 2 + length bytes = ap length e ∙ omega arith in
      let two : ltb (length (view laws d)) 2 ≡ false = ground arith in
      rw (len-view laws d v, two, index_at laws d 1 v (ap (drop 1) e), h)
        (Continues-drain laws packets d 1 v (omega arith) (omega arith) (ap (drop 1) e) refl)

  -- The round from the first sync char on.
  pub read_header_lem :
      (d : DualBuffer T) (bytes : List ℕ)
      → IsValid laws d
      → packets.max_payload_len + 7 ≤ ops.max_capacity d.buf
      → view laws d ≡ sync_char_1 ∷ bytes
      → Follows laws packets d (read_header ops packets d) (scan packets (sync_char_1 ∷ bytes))
  unfolding read_header
  read_header_lem d [] v cap e =
      let two : ltb (length (view laws d)) 2 ≡ true = ground (arith, ap length e) in
      inl (
        rw (len-view laws d v, two)
          (record {
            rest = d;
            runs = unfold scan after_sync in refl;
            valid = v;
            left = e ∙ unfold scan after_sync in refl;
            capacity = refl;
          }))
  read_header_lem d (second ∷ bytes) v cap e = elim (Bool-cases (second == sync_char_2)) [
    | inl synced ↦
        let same : second ≡ sync_char_2 = ground arith in
        rw (same, scan-synced packets bytes)
          (synced_lem d bytes v cap (e ∙ ap (λ s. sync_char_1 ∷ s ∷ bytes) same))
    | inr other ↦
        rw (scan-other packets second bytes other) (inr (other_lem d second bytes v e other))
  ]
