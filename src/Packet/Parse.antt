-- ===== src/Packet/Parse.antt =====
-- The parser of the crate: `Parser::default` (ublox/src/parser.rs) with the packets of
-- ublox/src/ubx_packets/packets.rs.
use ublox.Prelude.{ℕ, ◌+◌, ◌≤◌, ◌≡◌, refl, ap, ap₂, Option, none, some, List, [], ◌∷◌, arith, All}
use mathlib.Core.List.{flatten}
use ublox.Error.{ParserError, Result, ok, err}
use ublox.Buffer.Vector
use ublox.Buffer.Vector.{Vector, vector_buffer, vector_laws}
use ublox.Packets.{Packets}
use ublox.Parser
use ublox.Parser.{Parser}
use ublox.Session.{receive_all}
use ublox.Session.Chunks.{SmallReads}
use ublox.Session.Frames.{Message, frames, delivered, IsSendable, receive_all-frames}
use ublox.Packet.Match.{PacketRef, class_and_msg_id, match_packet, max_payload_len}
use ublox.Packet.Match.Sizes.{max_payload_len_lem}
use ublox.Packet.Match.Laws.{match_packet-class_and_msg_id}

unfoldable pub default : Parser Vector
default = record { buf = [] }

-- `match_packet` does not panic, so its answer is a value.
abbrev pub ublox_packets : Packets PacketRef
ublox_packets = record {
  match_packet = λ class msg_id payload. ok (match_packet-class_and_msg_id class msg_id payload).0;
  max_payload_len = max_payload_len;
}

pub match_packet-ublox_packets :
    (class msg_id : ℕ) (payload : List ℕ)
    → match_packet class msg_id payload ≡ some (ublox_packets.match_packet class msg_id payload)
match_packet-ublox_packets class msg_id payload =
    (match_packet-class_and_msg_id class msg_id payload).1

-- Class and id of an item, if it is a packet.
abbrev id_of : Result PacketRef ParserError → Option (ℕ × ℕ)
id_of (ok packet) = some (class_and_msg_id packet)
id_of (err e) = none

abbrev pub ids : List (Result PacketRef ParserError) → List (Option (ℕ × ℕ))
ids [] = []
ids (item ∷ items) = id_of item ∷ ids items

abbrev message_ids : List Message → List (Option (ℕ × ℕ))
message_ids [] = []
message_ids ((class, msg_id, payload) ∷ messages) = some (class, msg_id) ∷ message_ids messages

ids-delivered :
    (messages : List Message) → ids (delivered ublox_packets messages) ≡ message_ids messages
ids-delivered [] = refl
ids-delivered ((class, msg_id, payload) ∷ messages) =
    ap₂ ◌∷◌ (ap some ((match_packet-class_and_msg_id class msg_id payload).2))
      (ids-delivered messages)

pub roomy : (v : Vector) → max_payload_len + 7 ≤ Vector.max_capacity v
unfolding Vector.max_capacity
roomy v = omega (arith, max_payload_len_lem)

-- A default parser, fed the packets of some messages whose payloads are no longer than the largest,
-- in reads that are small enough, however they are cut, delivers one packet for each message, in
-- order, with the class and id of the message, and keeps no byte at the end.
pub receive_all-default :
    (chunks : List (List ℕ)) (messages : List Message)
    → All (IsSendable ublox_packets) messages
    → SmallReads vector_laws ublox_packets chunks
    → flatten chunks ≡ frames messages
    → (items : List (Result PacketRef ParserError)) × (after : Parser Vector) × (receive_all
          vector_buffer ublox_packets default chunks
        ≡ some (items, after))
      × (ids items ≡ message_ids messages)
      × (after.buf ≡ [])
unfolding default Parser.new
receive_all-default chunks messages sendable small e =
    let (after, run, empty) =
      receive_all-frames vector_laws ublox_packets [] chunks messages (omega arith) refl (roomy [])
        sendable small e in
    (delivered ublox_packets messages, after, run, ids-delivered messages, empty)
