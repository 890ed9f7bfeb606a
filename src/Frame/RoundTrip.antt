-- ===== src/Frame/RoundTrip.antt =====
-- The parser finds the packets that are framed, and an item is only found in a framed packet.
use ublox.Prelude.{
  ℕ, ◌^◌, ◌≤◌, ◌<◌, ◌≡◌, refl, ◌∙◌, none, some, List, [], ◌∷◌, ◌++◌, length, arith, append_assoc,
  take-append_exact, drop-append_exact, ltb, ==_self, position, position-cons_none, false,
}
use ublox.Checksum.{ubx_checksum}
use ublox.Packets.{Packets}
use ublox.Parser.{sync_char_1, u16_of_le}
use ublox.Parser.Scan.{close, header, scan}
use ublox.Parser.Skip.{scan-synced, scan-skip}
use ublox.Frame.{low_byte, high_byte, body, frame, UbxPacketRequest, into_packet_bytes}

u16_of_bytes : (n : ℕ) → n < 2 ^ 16 → u16_of_le (low_byte n) (high_byte n) ≡ n
u16_of_bytes n h = omega arith

-- The bytes of a request are a framed packet with an empty payload.
into_packet_bytes-frame :
    (r : UbxPacketRequest) → into_packet_bytes r ≡ frame r.req_class r.req_id []
unfolding into_packet_bytes frame
into_packet_bytes-frame r = refl

module _ {P : Type 0} (packets : Packets P) where
  -- A framed packet whose payload is no longer than the largest is found, whatever follows it, and
  -- handed to `match_packet` with its class, message and payload.
  pub scan-frame :
      (class msg_id : ℕ) (payload rest : List ℕ)
      → length payload ≤ packets.max_payload_len
      → length payload < 2 ^ 16
      → scan packets (frame class msg_id payload ++ rest)
        ≡ (some (packets.match_packet class msg_id payload), rest)
  unfolding frame
  scan-frame class msg_id payload rest fits small =
      let n = length payload in
      let ck = ubx_checksum (body class msg_id payload) in
      let back = ck.0 ∷ ck.1 ∷ rest in
      let e : (payload ++ (ck.0 ∷ ck.1 ∷ [])) ++ rest ≡ payload ++ back =
        append_assoc payload _ rest in
      let k : u16_of_le (low_byte n) (high_byte n) ≡ n = u16_of_bytes n small in
      let short : ltb packets.max_payload_len n ≡ false = ground arith in
      rw scan-synced (
        unfold header in
        rw (e, k, short, drop-append_exact n payload back refl)
          (unfold close in
            rw (k, take-append_exact n payload back refl, ==_self ck.0, ==_self ck.1)))

  -- So it is behind bytes that are no sync char.
  pub scan-skipped_frame :
      (skipped : List ℕ) (class msg_id : ℕ) (payload rest : List ℕ)
      → position sync_char_1 skipped ≡ none
      → length payload ≤ packets.max_payload_len
      → length payload < 2 ^ 16
      → scan packets (skipped ++ (frame class msg_id payload ++ rest))
        ≡ (some (packets.match_packet class msg_id payload), rest)
  scan-skipped_frame [] class msg_id payload rest p fits small =
      scan-frame class msg_id payload rest fits small
  scan-skipped_frame (x ∷ skipped) class msg_id payload rest p fits small =
      let (other, q) = position-cons_none sync_char_1 x skipped p in
      scan-skip packets x _ other
      ∙ scan-skipped_frame skipped class msg_id payload rest q fits small
