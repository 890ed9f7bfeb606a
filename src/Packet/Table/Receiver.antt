-- ===== src/Packet/Table/Receiver.antt =====
-- Packets that are received (ublox/src/ubx_packets/packets.rs): name, class, id, length and fields.
use ublox.Prelude.{[], ◌∷◌}
use ublox.Packet.Desc.{PackDesc, field, fixed, max, open_field}
use ublox.Packet.Check.{multiple_of}

abbrev pub rxm_rawx : PackDesc
rxm_rawx = record {
  name = "RxmRawx";
  class = 0x2;
  id = 0x15;
  payload_len = max 8176;
  fields =
      field "rcv_tow" 8
      ∷ field "week" 2
      ∷ field "leap_s" 1
      ∷ field "num_meas" 1
      ∷ field "rec_stat" 1
      ∷ field "version" 1
      ∷ field "reserved1" 2
      ∷ open_field "measurements" (multiple_of 32)
      ∷ [];
}

abbrev pub rxm_rtcm : PackDesc
rxm_rtcm = record {
  name = "RxmRtcm";
  class = 0x2;
  id = 0x32;
  payload_len = fixed 8;
  fields =
      field "version" 1
      ∷ field "flags" 1
      ∷ field "sub_type" 2
      ∷ field "ref_station" 2
      ∷ field "msg_type" 2
      ∷ [];
}

abbrev pub rxm_sfrbx : PackDesc
rxm_sfrbx = record {
  name = "RxmSfrbx";
  class = 0x2;
  id = 0x13;
  payload_len = max 72;
  fields =
      field "gnss_id" 1
      ∷ field "sv_id" 1
      ∷ field "reserved1" 1
      ∷ field "freq_id" 1
      ∷ field "num_words" 1
      ∷ field "reserved2" 1
      ∷ field "version" 1
      ∷ field "reserved3" 1
      ∷ open_field "dwrd" (multiple_of 4)
      ∷ [];
}
