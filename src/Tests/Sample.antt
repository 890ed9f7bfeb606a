-- ===== src/Tests/Sample.antt =====
-- Packets and buffers for the tests: packets are kept as class, message and payload.
use ublox.Prelude.{ℕ, List, [], ◌∷◌}
use ublox.Error.{ok}
use ublox.Buffer.Fixed.{FixedLinearBuffer}
use ublox.Buffer.Vector.{Vector}
use ublox.Dual.{DualBuffer}
use ublox.Packets.{Packets}
use ublox.Parser.{Parser, ParserIter}

abbrev pub Raw : Type 0
Raw = ℕ × ℕ × List ℕ

abbrev pub raw_packets : Packets Raw
raw_packets = record {
  match_packet = λ class msg_id payload. ok (class, msg_id, payload);
  max_payload_len = 1240;
}

-- The UBX-ACK-ACK packet of the tests of parser.rs.
abbrev pub ack_ack : List ℕ
ack_ack = 0xb5 ∷ 0x62 ∷ 0x5 ∷ 0x1 ∷ 0x2 ∷ 0x0 ∷ 0x4 ∷ 0x5 ∷ 0x11 ∷ 0x38 ∷ []

-- The same with a wrong checksum.
abbrev pub bad_ack : List ℕ
bad_ack = 0xb5 ∷ 0x62 ∷ 0x5 ∷ 0x1 ∷ 0x2 ∷ 0x0 ∷ 0x4 ∷ 0x5 ∷ 0x11 ∷ 0x39 ∷ []

-- `dl_move_then_copy`: seven bytes in a full buffer, five new ones.
abbrev pub full_seven : FixedLinearBuffer
full_seven = record { buffer = 1 ∷ 2 ∷ 3 ∷ 4 ∷ 5 ∷ 6 ∷ 7 ∷ []; len = 7 }

abbrev pub full_dual : DualBuffer FixedLinearBuffer
full_dual = record {
  buf = full_seven;
  off = 3;
  new_buf = 8 ∷ 9 ∷ 10 ∷ 11 ∷ 12 ∷ [];
  new_buf_offset = 0;
}

-- Three bytes in use of a slice of four.
abbrev pub three_of_four : FixedLinearBuffer
three_of_four = record { buffer = 1 ∷ 2 ∷ 3 ∷ 0 ∷ []; len = 3 }

abbrev pub partial_dual : DualBuffer FixedLinearBuffer
partial_dual = record {
  buf = three_of_four;
  off = 0;
  new_buf = 4 ∷ 5 ∷ 6 ∷ 7 ∷ 8 ∷ 9 ∷ [];
  new_buf_offset = 0;
}

abbrev pub empty_parser : Parser Vector
empty_parser = record { buf = [] }

-- An iterator over a packet of which the first four bytes were kept.
abbrev pub split_iter : ParserIter Vector
split_iter = record {
  buf = record {
    buf = 0xb5 ∷ 0x62 ∷ 0x5 ∷ 0x1 ∷ [];
    off = 0;
    new_buf = 0x2 ∷ 0x0 ∷ 0x4 ∷ 0x5 ∷ 0x11 ∷ 0x38 ∷ [];
    new_buf_offset = 0;
  };
}

-- Two bytes of the header of a packet too large for the buffer of twelve bytes, as in
-- `parser_oom_clears_buffer`.
abbrev pub too_large : DualBuffer FixedLinearBuffer
too_large = record {
  buf = record { buffer = 0xb5 ∷ 0x62 ∷ 6 ∷ 0x24 ∷ 36 ∷ 0 ∷ 1 ∷ 2 ∷ 0 ∷ 0 ∷ 0 ∷ 0 ∷ []; len = 8 };
  off = 0;
  new_buf = 3 ∷ 4 ∷ 5 ∷ 6 ∷ 7 ∷ 8 ∷ [];
  new_buf_offset = 0;
}
