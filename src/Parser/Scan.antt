-- ===== src/Parser/Scan.antt =====
-- The reference for `ParserIter::next` (ublox/src/parser.rs): what a stream of bytes holds, with no
-- buffers. Structural recursion on the stream.
use ublox.Prelude.{ℕ, Option, none, some, List, [], ◌∷◌, ltb, ◌==◌, ◌&&◌, if◌then◌else◌, take, drop}
use ublox.Error.{ParserError, invalid_checksum, Result, err}
use ublox.Checksum.{ubx_checksum}
use ublox.Packets.{Packets}
use ublox.Parser.{sync_char_1, sync_char_2, u16_of_le}

-- The bytes under the checksum of a packet.
abbrev pub covered : (class msg_id lo hi : ℕ) → List ℕ → List ℕ
covered class msg_id lo hi payload = class ∷ msg_id ∷ lo ∷ hi ∷ payload

module _ {P : Type 0} (packets : Packets P) where
  -- An item, and the bytes behind it.
  abbrev pub Scanned : Type 0
  Scanned = Option (Result P ParserError) × List ℕ

  -- Behind the payload stands the checksum, if the packet is there as a whole.
  unfoldable pub close : (class msg_id lo hi : ℕ) → List ℕ → List ℕ → Scanned
  close class msg_id lo hi body [] =
      (none, sync_char_1 ∷ sync_char_2 ∷ covered class msg_id lo hi body)
  close class msg_id lo hi body (a ∷ []) =
      (none, sync_char_1 ∷ sync_char_2 ∷ covered class msg_id lo hi body)
  close class msg_id lo hi body (a ∷ b ∷ rest) =
      let payload = take (u16_of_le lo hi) body in
      let (ck_a, ck_b) = ubx_checksum (covered class msg_id lo hi payload) in
      if ck_a == a && ck_b == b then (some (packets.match_packet class msg_id payload), rest) else (
        some (err (invalid_checksum (u16_of_le a b) (u16_of_le ck_a ck_b))),
        covered class msg_id lo hi body,
      )

  -- Behind the two sync chars. `next` is what the stream holds behind the first of them.
  unfoldable pub header : List ℕ → Scanned → Scanned
  header (class ∷ msg_id ∷ lo ∷ hi ∷ body) next =
      if ltb packets.max_payload_len (u16_of_le lo hi)
      then next
      else close class msg_id lo hi body (drop (u16_of_le lo hi) body)
  header [] next = (none, sync_char_1 ∷ sync_char_2 ∷ [])
  header (a ∷ []) next = (none, sync_char_1 ∷ sync_char_2 ∷ a ∷ [])
  header (a ∷ b ∷ []) next = (none, sync_char_1 ∷ sync_char_2 ∷ a ∷ b ∷ [])
  header (a ∷ b ∷ c ∷ []) next = (none, sync_char_1 ∷ sync_char_2 ∷ a ∷ b ∷ c ∷ [])

  unfoldable pub after_sync : List ℕ → Scanned → Scanned
  unfolding header close
  after_sync [] next = (none, sync_char_1 ∷ [])
  after_sync (second ∷ bytes) next = if second == sync_char_2 then header bytes next else next

  unfoldable pub scan : List ℕ → Scanned
  scan [] = (none, [])
  scan (byte ∷ bytes) =
      let next = scan bytes in if byte == sync_char_1 then after_sync bytes next else next
