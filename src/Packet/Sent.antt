-- ===== src/Packet/Sent.antt =====
-- The packets that are only sent, or that the parser does not know
-- (ublox/src/ubx_packets/packets.rs), and the builders that name another packet.
pub mod Sizes
pub mod Acks
use ublox.Prelude.{
  ℕ, zero, suc, ◌+◌, ◌*◌, ◌/◌, ◌%◌, ◌^◌, Option, none, some, List, [], ◌∷◌, Bool, true, false, ◌==◌,
  ◌&&◌, if◌then◌else◌, ◌>>=◌,
}
use ublox.Cfg.Value.{from_le_bytes}
use ublox.Packet.Desc.{PackField, PackDesc, fixed, max, field}
use ublox.Packet.Access.{raw_accessor}
use ublox.Packet.Build.{Builder}
use ublox.Packet.Table.Settings.{
  cfg_odo, cfg_itfm, cfg_ant, cfg_tp5, cfg_tmode2, cfg_tmode3, cfg_prt_i2c, cfg_prt_uart,
  cfg_prt_spi, cfg_nav5,
}
use ublox.Packet.Table.Other.{ack_ack, ack_nak}

abbrev nav_reset_odo : PackDesc
nav_reset_odo = record {
  name = "NavResetOdo";
  class = 0x1;
  id = 0x10;
  payload_len = fixed 0;
  fields = [];
}

abbrev cfg_inf : PackDesc
cfg_inf = record {
  name = "CfgInf";
  class = 0x6;
  id = 0x2;
  payload_len = fixed 10;
  fields =
      field "protocol_id" 1
      ∷ field "reserved" 3
      ∷ field "inf_msg_mask_0" 1
      ∷ field "inf_msg_mask_1" 1
      ∷ field "inf_msg_mask_2" 1
      ∷ field "inf_msg_mask_3" 1
      ∷ field "inf_msg_mask_4" 1
      ∷ field "inf_msg_mask_5" 1
      ∷ [];
}

abbrev aid_ini : PackDesc
aid_ini = record {
  name = "AidIni";
  class = 0xb;
  id = 0x1;
  payload_len = fixed 48;
  fields =
      field "ecef_x_or_lat" 4
      ∷ field "ecef_y_or_lon" 4
      ∷ field "ecef_z_or_alt" 4
      ∷ field "pos_accuracy" 4
      ∷ field "time_cfg" 2
      ∷ field "week_or_ym" 2
      ∷ field "tow_or_hms" 4
      ∷ field "tow_ns" 4
      ∷ field "tm_accuracy_ms" 4
      ∷ field "tm_accuracy_ns" 4
      ∷ field "clk_drift_or_freq" 4
      ∷ field "clk_drift_or_freq_accuracy" 4
      ∷ field "flags" 4
      ∷ [];
}

abbrev cfg_rst : PackDesc
cfg_rst = record {
  name = "CfgRst";
  class = 0x6;
  id = 0x4;
  payload_len = fixed 4;
  fields = field "nav_bbr_mask" 2 ∷ field "reset_mode" 1 ∷ field "reserved1" 1 ∷ [];
}

-- The fields before `cfg_data`, which is a list of configuration values.
abbrev pub cfg_val_set : PackDesc
cfg_val_set = record {
  name = "CfgValSet";
  class = 0x6;
  id = 0x8a;
  payload_len = max 772;
  fields = field "version" 1 ∷ field "layers" 1 ∷ field "reserved1" 2 ∷ [];
}

abbrev cfg_rate : PackDesc
cfg_rate = record {
  name = "CfgRate";
  class = 0x6;
  id = 0x8;
  payload_len = fixed 6;
  fields = field "measure_rate_ms" 2 ∷ field "nav_rate" 2 ∷ field "time_ref" 2 ∷ [];
}

abbrev cfg_msg_single_port : PackDesc
cfg_msg_single_port = record {
  name = "CfgMsgSinglePort";
  class = 0x6;
  id = 0x1;
  payload_len = fixed 3;
  fields = field "msg_class" 1 ∷ field "msg_id" 1 ∷ field "rate" 1 ∷ [];
}

abbrev cfg_msg_all_ports : PackDesc
cfg_msg_all_ports = record {
  name = "CfgMsgAllPorts";
  class = 0x6;
  id = 0x1;
  payload_len = fixed 8;
  fields = field "msg_class" 1 ∷ field "msg_id" 1 ∷ field "rates" 6 ∷ [];
}

abbrev cfg_nav_x5 : PackDesc
cfg_nav_x5 = record {
  name = "CfgNavX5";
  class = 0x6;
  id = 0x23;
  payload_len = fixed 40;
  fields =
      field "version" 2
      ∷ field "mask1" 2
      ∷ field "mask2" 4
      ∷ field "reserved1" 2
      ∷ field "min_svs" 1
      ∷ field "max_svs" 1
      ∷ field "min_cno_dbhz" 1
      ∷ field "reserved2" 1
      ∷ field "ini_fix_3d" 1
      ∷ field "reserved3" 2
      ∷ field "ack_aiding" 1
      ∷ field "wkn_rollover" 2
      ∷ field "sig_atten_comp_mode" 1
      ∷ field "reserved4" 1
      ∷ field "reserved5" 2
      ∷ field "reserved6" 2
      ∷ field "use_ppp" 1
      ∷ field "aop_cfg" 1
      ∷ field "reserved7" 2
      ∷ field "aop_orb_max_err" 2
      ∷ field "reserved8" 4
      ∷ field "reserved9" 3
      ∷ field "use_adr" 1
      ∷ [];
}

-- The packets with a builder of a fixed size.
abbrev pub fixed_packets : List PackDesc
fixed_packets =
    nav_reset_odo ∷ cfg_odo ∷ cfg_itfm ∷ cfg_inf ∷ aid_ini ∷ cfg_rst ∷ cfg_ant ∷ cfg_tp5
    ∷ cfg_tmode2 ∷ cfg_tmode3 ∷ cfg_prt_i2c ∷ cfg_prt_uart ∷ cfg_prt_spi ∷ cfg_rate
    ∷ cfg_msg_single_port ∷ cfg_msg_all_ports ∷ cfg_nav5 ∷ cfg_nav_x5 ∷ []

-- `CfgMsgSinglePortBuilder::set_rate_for`
unfoldable set_rate_for : PackDesc → ℕ → Builder
set_rate_for t rate = record {
  class = cfg_msg_single_port.class;
  id = cfg_msg_single_port.id;
  fields = (t.class ∷ []) ∷ (t.id ∷ []) ∷ (rate ∷ []) ∷ [];
}

-- `CfgMsgAllPortsBuilder::set_rate_for`
unfoldable set_rates_for : PackDesc → List ℕ → Builder
set_rates_for t rates = record {
  class = cfg_msg_all_ports.class;
  id = cfg_msg_all_ports.id;
  fields = (t.class ∷ []) ∷ (t.id ∷ []) ∷ rates ∷ [];
}

-- An accessor of a byte of `AckAckRef` or `AckNakRef`.
abbrev byte_of : PackDesc → ℕ → List ℕ → Option ℕ
byte_of d i payload = do bytes ← raw_accessor d i payload; from_le_bytes 1 bytes

-- `AckAckRef::is_ack_for`
unfoldable pub is_ack_for : PackDesc → List ℕ → Option Bool
is_ack_for t payload = do
  class ← byte_of ack_ack 0 payload
  msg_id ← byte_of ack_ack 1 payload
  some (class == t.class && msg_id == t.id)

-- `AckNakRef::is_nak_for`
unfoldable pub is_nak_for : PackDesc → List ℕ → Option Bool
is_nak_for t payload = do
  class ← byte_of ack_nak 0 payload
  msg_id ← byte_of ack_nak 1 payload
  some (class == t.class && msg_id == t.id)
