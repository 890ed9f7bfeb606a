-- ===== src/Packet/Match.antt =====
-- `PacketRef`, `match_packet` and `MAX_PAYLOAD_LEN`, which `generate_code_for_parse` of
-- ublox_derive/src/output.rs makes from the list of packets. `none` is a panic.
pub mod Sizes
pub mod Total
pub mod Laws
pub mod Shadowed
use ublox.Prelude.{
  ℕ, ◌+◌, Option, none, some, List, [], ◌∷◌, Bool, true, false, ltb, ◌==◌, ◌&&◌, if◌then◌else◌,
  ◌>>=◌,
}
use ublox.Error.{ParserError, Result, ok, err}
use ublox.Packet.Desc.{PackDesc, PayloadLen, fixed, max, validate}
use ublox.Packet.Table.{all_packets}

-- A variant for each packet, which holds the payload, and `Unknown`.
pub data PacketRef : Type 0 where
  known : PackDesc → List ℕ → PacketRef
  unknown : (payload : List ℕ) (class msg_id : ℕ) → PacketRef

unfoldable pub class_and_msg_id : PacketRef → ℕ × ℕ
class_and_msg_id (known d payload) = (d.class, d.id)
class_and_msg_id (unknown payload class msg_id) = (class, msg_id)

unfoldable pub is_ok : Result (Unit {0}) ParserError → Bool
is_ok (ok u) = true
is_ok (err e) = false

-- The arms of the match: `(CLASS, ID) if validate(payload).is_ok()`, and `_`.
unfoldable pub match_in : List PackDesc → (class msg_id : ℕ) → List ℕ → Option PacketRef
match_in [] class msg_id payload = some (unknown payload class msg_id)
match_in (d ∷ packets) class msg_id payload =
    let rest = match_in packets class msg_id payload in
    if class == d.class && msg_id == d.id
    then (do valid ← validate d payload; if is_ok valid then some (known d payload) else rest)
    else rest

unfoldable pub match_packet : (class msg_id : ℕ) → List ℕ → Option (Result PacketRef ParserError)
match_packet class msg_id payload = do
  packet ← match_in all_packets class msg_id payload
  some (ok packet)

-- `UbxPacketMeta::MAX_PAYLOAD_LEN` of a packet
unfoldable pub desc_max_payload_len : PackDesc → ℕ
desc_max_payload_len d = elim (d.payload_len) [ fixed n ↦ n | max n ↦ n ]

-- `[a, b][(a < b) as usize]`
unfoldable pub max_u16 : ℕ → ℕ → ℕ
max_u16 a b = if ltb a b then b else a

-- The fold over the packets: the accumulated value is the second argument.
max_from : ℕ → List PackDesc → ℕ
max_from prev [] = prev
max_from prev (d ∷ packets) = max_from (max_u16 (desc_max_payload_len d) prev) packets

unfoldable pub max_payload_len : ℕ
unfolding max_from
max_payload_len = max_from 0 all_packets
