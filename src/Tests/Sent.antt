-- ===== src/Tests/Sent.antt =====
-- Instances for the packets that are sent, and for acknowledgements.
use ublox.Prelude.{ℕ, ◌≡◌, ◌≤◌, ◌+◌, refl, some, List, [], ◌∷◌, length, take, arith}
use mathlib.Core.List.Memᴰ.{head, tail}
use ublox.Error.{ok}
use ublox.Buffer.Vector.{slice_index}
use ublox.Frame.{low_byte, high_byte}
use ublox.Packet.Check.{is_valid}
use ublox.Packet.Desc.{
  packet_payload_size, validate, validate_by, validate_fields, fields_size, check_value, next_off,
  raw_field,
}
use ublox.Packet.Table.Settings.{cfg_itfm}
use ublox.Packet.Table.Other.{ack_ack}
use ublox.Packet.Match.{desc_max_payload_len}
use ublox.Packet.Build
use ublox.Packet.Build.{into_packet_vec}
use ublox.Packet.Access.Built.{builder}
use ublox.Tests.Config.{stop, stop-IsCfgVal}
use ublox.Packet.Sent.{cfg_val_set, is_ack_for}
use ublox.Packet.Sent.Sizes.{into_packet_bytes-sized, into_packet_vec-le}
use ublox.Packet.Sent.Acks.{Decides, Decides-is_ack_for}

abbrev itfm_values : List (List ℕ)
itfm_values = (1 ∷ 2 ∷ 3 ∷ 4 ∷ []) ∷ (5 ∷ 6 ∷ 7 ∷ 8 ∷ []) ∷ []

into_packet_bytes-sized_example :
    (length (Build.into_packet_bytes (builder cfg_itfm itfm_values)) ≡ 8 + 8)
    × (take 6 (Build.into_packet_bytes (builder cfg_itfm itfm_values))
        ≡ 0xb5 ∷ 0x62 ∷ 0x6 ∷ 0x39 ∷ low_byte 8 ∷ high_byte 8 ∷ [])
into_packet_bytes-sized_example =
    into_packet_bytes-sized cfg_itfm 8 itfm_values (tail (tail (head refl))) refl (refl, (refl, tt))

abbrev set_values : List (List ℕ)
set_values = (0 ∷ []) ∷ (7 ∷ []) ∷ (0 ∷ 0 ∷ []) ∷ []

into_packet_vec-le_example :
    length (into_packet_vec (builder cfg_val_set set_values) (stop ∷ []))
    ≤ desc_max_payload_len cfg_val_set + 8
into_packet_vec-le_example =
    into_packet_vec-le set_values (stop ∷ []) (refl, (refl, (refl, tt))) (stop-IsCfgVal, tt)
      (omega arith)

ack_valid : validate ack_ack (0x6 ∷ 0x39 ∷ []) ≡ some (ok tt)
unfolding validate validate_by packet_payload_size fields_size validate_fields check_value next_off
    raw_field slice_index is_valid
ack_valid = refl

Decides-is_ack_for_example :
    Decides cfg_itfm (0x6 ∷ 0x39 ∷ []) (is_ack_for cfg_itfm (0x6 ∷ 0x39 ∷ []))
Decides-is_ack_for_example = Decides-is_ack_for cfg_itfm (0x6 ∷ 0x39 ∷ []) ack_valid
