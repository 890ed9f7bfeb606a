-- ===== src/Packets.antt =====
-- What the parser (ublox/src/parser.rs) uses of the code that `define_recv_packets!` builds:
-- `match_packet` and `MAX_PAYLOAD_LEN`.
use ublox.Prelude.{ℕ, List}
use ublox.Error.{ParserError, Result}

pub record Packets (P : Type 0) : Type 0 where
  pub match_packet : (class msg_id : ℕ) → List ℕ → Result P ParserError
  pub max_payload_len : ℕ
