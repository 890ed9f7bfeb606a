-- ===== src/Tests/Received.antt =====
-- Runs and instances for the packets that are received and sent (ublox/src/ubx_packets/packets.rs).
use ublox.Prelude.{
  ℕ, ◌≡◌, ◌≢◌, refl, some, List, [], ◌∷◌, true, false, arith, position, take, drop, ◌++◌,
}
use mathlib.Core.List.{flatten}
use ublox.Error.{ParserError, Result, ok, err, invalid_field}
use ublox.Buffer.Vector.{Vector, vector_buffer, slice_index}
use ublox.Parser.{Parser}
use ublox.Session.{receive_all}
use ublox.Frame.{frame}
use ublox.Checksum
use ublox.Packet.Build
use ublox.Packet.Build.{Builder, create_packet, vec_writer, into_packet_vec, extend_to}
use ublox.Packet.Build.Frames.{create_packet-frame, into_packet_vec-frame, extend_to-behind}
use ublox.Packet.Build.Indexed.{into_packet_bytes-joined}
use ublox.Packet.Check.{is_cstr_valid, is_valid, utf8_from, utf8_lead}
use ublox.Packet.Desc.{
  packet_payload_size, validate, validate_by, validate_fields, fields_size, check_value, next_off,
  raw_field,
}
use ublox.Packet.Table.{all_packets}
use ublox.Packet.Table.Settings.{cfg_prt_i2c}
use ublox.Packet.Table.Assistance.{mga_gps_eph_2}
use ublox.Packet.Match.{PacketRef, known, match_packet}
use ublox.Packet.Match.Sizes.{max_payload_len_lem}
use ublox.Packet.Match.Laws.{Matched, Matched-match_packet}
use ublox.Packet.Match.Shadowed.{match_packet-mga_gps_eph_2}
use ublox.Packet.Parse.{default, ublox_packets, ids, receive_all-default}

-- `mon_ver::is_cstr_valid`: "a", and no end of the string, and a lone byte of a character.
cstr_runs :
    (is_cstr_valid (0x61 ∷ 0 ∷ 7 ∷ []) ≡ true)
    × (is_cstr_valid (0x61 ∷ []) ≡ false)
    × (is_cstr_valid (0xc3 ∷ 0 ∷ []) ≡ false)
    × (is_cstr_valid (0xc3 ∷ 0xa9 ∷ 0 ∷ []) ≡ true)
unfolding is_cstr_valid utf8_from utf8_lead position
cstr_runs = (refl, refl, refl, refl)

abbrev port_bytes : ℕ → List ℕ
port_bytes id = id ∷ 0 ∷ 0 ∷ 0 ∷ 0 ∷ 0 ∷ 0 ∷ 0 ∷ 0 ∷ 0 ∷ 0 ∷ 0 ∷ 0 ∷ 0 ∷ 0 ∷ 0 ∷ 0 ∷ 0 ∷ 0 ∷ 0 ∷ []

-- The three port packets differ by the byte that says which port it is.
port_runs :
    (validate cfg_prt_i2c (port_bytes 0) ≡ some (ok tt))
    × (validate cfg_prt_i2c (port_bytes 4) ≡ some (err (invalid_field "CfgPrtI2c" "portid")))
unfolding validate validate_by packet_payload_size fields_size validate_fields check_value next_off
    raw_field slice_index is_valid
port_runs = (refl, refl)

Matched-match_packet_example :
    (packet : PacketRef) × (match_packet 0x1 0x2 (1 ∷ []) ≡ some (ok packet))
    × Matched all_packets 0x1 0x2 (1 ∷ []) (some packet)
Matched-match_packet_example = Matched-match_packet 0x1 0x2 (1 ∷ [])

match_packet-mga_gps_eph_2_example :
    match_packet 0x13 0x0 (1 ∷ []) ≢ some (ok (known mga_gps_eph_2 (1 ∷ [])))
match_packet-mga_gps_eph_2_example = match_packet-mga_gps_eph_2 (1 ∷ [])

abbrev pieces_of_ack : List (List ℕ)
pieces_of_ack = (0xb5 ∷ 0x62 ∷ 0x5 ∷ []) ∷ (0x1 ∷ 0x2 ∷ 0x0 ∷ 0x4 ∷ 0x5 ∷ 0x11 ∷ 0x38 ∷ []) ∷ []

receive_all-default_example :
    (items : List (Result PacketRef ParserError)) × (after : Parser Vector) × (receive_all
        vector_buffer ublox_packets default pieces_of_ack
      ≡ some (items, after))
    × (ids items ≡ some (0x5, 0x1) ∷ [])
    × (after.buf ≡ [])
unfolding frame Checksum.ubx_checksum flatten
receive_all-default_example =
    receive_all-default pieces_of_ack ((0x5, 0x1, 0x4 ∷ 0x5 ∷ []) ∷ [])
      ((omega (arith, max_payload_len_lem), omega arith), tt)
      (omega (arith, max_payload_len_lem), (omega (arith, max_payload_len_lem), tt)) refl

-- `CfgItfm` has two fields of four bytes.
abbrev itfm : Builder
itfm = record { class = 0x6; id = 0x39; fields = (1 ∷ 2 ∷ 3 ∷ 4 ∷ []) ∷ (5 ∷ 6 ∷ 7 ∷ 8 ∷ []) ∷ [] }

-- `CfgValSet` without values: version, layers and a reserved field.
abbrev val_set : Builder
val_set = record { class = 0x6; id = 0x8a; fields = (0 ∷ []) ∷ (7 ∷ []) ∷ (0 ∷ 0 ∷ []) ∷ [] }

into_packet_bytes-joined_example :
    Build.into_packet_bytes itfm ≡ frame 0x6 0x39 (1 ∷ 2 ∷ 3 ∷ 4 ∷ 5 ∷ 6 ∷ 7 ∷ 8 ∷ [])
into_packet_bytes-joined_example = into_packet_bytes-joined itfm

create_packet-frame_example :
    create_packet (vec_writer ℕ) itfm (9 ∷ [])
    ≡ (ok tt, (9 ∷ []) ++ frame 0x6 0x39 (1 ∷ 2 ∷ 3 ∷ 4 ∷ 5 ∷ 6 ∷ 7 ∷ 8 ∷ []))
create_packet-frame_example = create_packet-frame itfm (9 ∷ [])

into_packet_vec-frame_example : into_packet_vec val_set [] ≡ frame 0x6 0x8a (0 ∷ 7 ∷ 0 ∷ 0 ∷ [])
into_packet_vec-frame_example = into_packet_vec-frame val_set [] tt

extend_to-behind_example :
    take 6 (drop 6 (extend_to val_set [] (1 ∷ 2 ∷ 3 ∷ 4 ∷ 5 ∷ 6 ∷ [])))
    ≡ 0xb5 ∷ 0x62 ∷ 0x6 ∷ 0x8a ∷ 0 ∷ 0 ∷ []
extend_to-behind_example = extend_to-behind val_set [] (1 ∷ 2 ∷ 3 ∷ 4 ∷ 5 ∷ 6 ∷ []) tt (omega arith)
