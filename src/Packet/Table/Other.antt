-- ===== src/Packet/Table/Other.antt =====
-- Packets that are received (ublox/src/ubx_packets/packets.rs): name, class, id, length and fields.
use ublox.Prelude.{[], ◌∷◌}
use ublox.Packet.Desc.{PackDesc, checked, field, fixed, max, open_field}
use ublox.Packet.Check.{cstr, cstr_chunks}

abbrev pub alp_srv : PackDesc
alp_srv = record {
  name = "AlpSrv";
  class = 0xb;
  id = 0x32;
  payload_len = fixed 16;
  fields =
      field "id_size" 1
      ∷ field "data_type" 1
      ∷ field "offset" 2
      ∷ field "size" 2
      ∷ field "file_id" 2
      ∷ field "data_size" 2
      ∷ field "id1" 1
      ∷ field "id2" 1
      ∷ field "id3" 4
      ∷ [];
}

abbrev pub ack_ack : PackDesc
ack_ack = record {
  name = "AckAck";
  class = 0x5;
  id = 0x1;
  payload_len = fixed 2;
  fields = field "class" 1 ∷ field "msg_id" 1 ∷ [];
}

abbrev pub ack_nak : PackDesc
ack_nak = record {
  name = "AckNak";
  class = 0x5;
  id = 0x0;
  payload_len = fixed 2;
  fields = field "class" 1 ∷ field "msg_id" 1 ∷ [];
}

abbrev pub mon_hw : PackDesc
mon_hw = record {
  name = "MonHw";
  class = 0xa;
  id = 0x9;
  payload_len = fixed 60;
  fields =
      field "pin_sel" 4
      ∷ field "pin_bank" 4
      ∷ field "pin_dir" 4
      ∷ field "pin_val" 4
      ∷ field "noise_per_ms" 2
      ∷ field "agc_cnt" 2
      ∷ field "a_status" 1
      ∷ field "a_power" 1
      ∷ field "flags" 1
      ∷ field "reserved1" 1
      ∷ field "used_mask" 4
      ∷ field "vp" 17
      ∷ field "jam_ind" 1
      ∷ field "reserved2" 2
      ∷ field "pin_irq" 4
      ∷ field "pull_h" 4
      ∷ field "pull_l" 4
      ∷ [];
}

abbrev pub mon_gnss : PackDesc
mon_gnss = record {
  name = "MonGnss";
  class = 0xa;
  id = 0x28;
  payload_len = fixed 8;
  fields =
      field "version" 1
      ∷ field "supported" 1
      ∷ field "default" 1
      ∷ field "enabled" 1
      ∷ field "simultaneous" 1
      ∷ field "reserved1" 3
      ∷ [];
}

abbrev pub mon_ver : PackDesc
mon_ver = record {
  name = "MonVer";
  class = 0xa;
  id = 0x4;
  payload_len = max 1240;
  fields =
      checked "software_version" 30 cstr
      ∷ checked "hardware_version" 10 cstr
      ∷ open_field "extension" (cstr_chunks 30)
      ∷ [];
}

abbrev pub hnr_pvt : PackDesc
hnr_pvt = record {
  name = "HnrPvt";
  class = 0x28;
  id = 0x0;
  payload_len = fixed 72;
  fields =
      field "i_tow" 4
      ∷ field "year" 2
      ∷ field "month" 1
      ∷ field "day" 1
      ∷ field "hour" 1
      ∷ field "min" 1
      ∷ field "sec" 1
      ∷ field "valid" 1
      ∷ field "nano" 4
      ∷ field "gps_fix" 1
      ∷ field "flags" 1
      ∷ field "reserved1" 2
      ∷ field "longitude" 4
      ∷ field "latitude" 4
      ∷ field "height" 4
      ∷ field "height_msl" 4
      ∷ field "g_speed" 4
      ∷ field "speed" 4
      ∷ field "heading_motion" 4
      ∷ field "heading_vehicle" 4
      ∷ field "h_acc" 4
      ∷ field "v_acc" 4
      ∷ field "s_acc" 4
      ∷ field "heading_accurracy" 4
      ∷ field "reserved2" 4
      ∷ [];
}
