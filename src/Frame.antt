-- ===== src/Frame.antt =====
-- The layout of a UBX packet, and the request packets of ublox/src/ubx_packets.rs
-- (`UbxPacketRequest`).
pub mod RoundTrip
pub mod Sound
pub mod Next
use ublox.Prelude.{ℕ, ◌+◌, ◌/◌, ◌%◌, List, [], ◌∷◌, ◌++◌, length, slice, set}
use ublox.Checksum.{ubx_checksum}
use ublox.Parser.{sync_char_1, sync_char_2}

-- `u16::to_le_bytes`
abbrev pub low_byte : ℕ → ℕ
low_byte n = n % 256

abbrev pub high_byte : ℕ → ℕ
high_byte n = n / 256 % 256

-- Class, message, length and payload, with what the checksum covers.
abbrev pub body : (class msg_id : ℕ) → List ℕ → List ℕ
body class msg_id payload =
    class ∷ msg_id ∷ low_byte (length payload) ∷ high_byte (length payload) ∷ payload

-- The specification of what a packet is on the wire.
unfoldable pub frame : (class msg_id : ℕ) → List ℕ → List ℕ
frame class msg_id payload =
    let (ck_a, ck_b) = ubx_checksum (body class msg_id payload) in
    sync_char_1 ∷ sync_char_2 ∷ (body class msg_id payload ++ (ck_a ∷ ck_b ∷ []))

pub record UbxPacketRequest : Type 0 where
  pub req_class : ℕ
  pub req_id : ℕ

unfoldable request_for_unknown : ℕ → ℕ → UbxPacketRequest
request_for_unknown req_class req_id = record { req_class = req_class; req_id = req_id }

-- `into_packet_bytes`: an array of eight bytes, of which the last two are written at the end.
unfoldable pub into_packet_bytes : UbxPacketRequest → List ℕ
into_packet_bytes r =
    let ret = sync_char_1 ∷ sync_char_2 ∷ r.req_class ∷ r.req_id ∷ 0 ∷ 0 ∷ 0 ∷ 0 ∷ [] in
    let (ck_a, ck_b) = ubx_checksum (slice 2 6 ret) in set (set ret 6 ck_a) 7 ck_b
