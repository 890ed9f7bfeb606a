-- ===== src/Packet/Table/Settings.antt =====
-- Packets that are received (ublox/src/ubx_packets/packets.rs): name, class, id, length and fields.
use ublox.Prelude.{[], ◌∷◌}
use ublox.Packet.Desc.{PackDesc, checked, field, fixed}
use ublox.Packet.Check.{one_of}

abbrev pub cfg_odo : PackDesc
cfg_odo = record {
  name = "CfgOdo";
  class = 0x6;
  id = 0x1e;
  payload_len = fixed 20;
  fields =
      field "version" 1
      ∷ field "reserved" 3
      ∷ field "flags" 1
      ∷ checked "odo_cfg" 1 (one_of (0 ∷ 1 ∷ 2 ∷ 3 ∷ 4 ∷ []))
      ∷ field "reserved2" 6
      ∷ field "cog_max_speed" 1
      ∷ field "cog_max_pos_acc" 1
      ∷ field "reserved3" 2
      ∷ field "vel_lp_gain" 1
      ∷ field "cog_lp_gain" 1
      ∷ field "reserved4" 2
      ∷ [];
}

abbrev pub cfg_itfm : PackDesc
cfg_itfm = record {
  name = "CfgItfm";
  class = 0x6;
  id = 0x39;
  payload_len = fixed 8;
  fields = field "config" 4 ∷ field "config2" 4 ∷ [];
}

abbrev pub cfg_ant : PackDesc
cfg_ant = record {
  name = "CfgAnt";
  class = 0x6;
  id = 0x13;
  payload_len = fixed 4;
  fields = field "flags" 2 ∷ field "pins" 2 ∷ [];
}

abbrev pub cfg_tp5 : PackDesc
cfg_tp5 = record {
  name = "CfgTp5";
  class = 0x6;
  id = 0x31;
  payload_len = fixed 32;
  fields =
      checked "tp_idx" 1 (one_of (0 ∷ 1 ∷ []))
      ∷ field "version" 1
      ∷ field "reserved1" 2
      ∷ field "ant_cable_delay" 2
      ∷ field "rf_group_delay" 2
      ∷ field "freq_period" 4
      ∷ field "freq_period_lock" 4
      ∷ field "pulse_len_ratio" 4
      ∷ field "pulse_len_ratio_lock" 4
      ∷ field "user_delay" 4
      ∷ field "flags" 4
      ∷ [];
}

abbrev pub cfg_tmode2 : PackDesc
cfg_tmode2 = record {
  name = "CfgTmode2";
  class = 0x6;
  id = 0x3d;
  payload_len = fixed 28;
  fields =
      checked "time_transfer_mode" 1 (one_of (0 ∷ 1 ∷ 2 ∷ []))
      ∷ field "reserved1" 1
      ∷ field "flags" 2
      ∷ field "ecef_x_or_lat" 4
      ∷ field "ecef_y_or_lon" 4
      ∷ field "ecef_z_or_alt" 4
      ∷ field "fixed_pos_acc" 4
      ∷ field "survey_in_min_duration" 4
      ∷ field "survery_in_accur_limit" 4
      ∷ [];
}

abbrev pub cfg_tmode3 : PackDesc
cfg_tmode3 = record {
  name = "CfgTmode3";
  class = 0x6;
  id = 0x71;
  payload_len = fixed 40;
  fields =
      field "version" 1
      ∷ field "reserved1" 1
      ∷ field "rcvr_mode" 1
      ∷ field "flags" 1
      ∷ field "ecef_x_or_lat" 4
      ∷ field "ecef_y_or_lon" 4
      ∷ field "ecef_z_or_alt" 4
      ∷ field "ecef_x_or_lat_hp" 1
      ∷ field "ecef_y_or_lon_hp" 1
      ∷ field "ecef_z_or_alt_hp" 1
      ∷ field "reserved2" 1
      ∷ field "fixed_pos_acc" 4
      ∷ field "sv_in_min_duration" 4
      ∷ field "sv_in_accur_limit" 4
      ∷ field "reserved3" 8
      ∷ [];
}

abbrev pub cfg_prt_i2c : PackDesc
cfg_prt_i2c = record {
  name = "CfgPrtI2c";
  class = 0x6;
  id = 0x0;
  payload_len = fixed 20;
  fields =
      checked "portid" 1 (one_of (0 ∷ []))
      ∷ field "reserved1" 1
      ∷ field "tx_ready" 2
      ∷ field "mode" 4
      ∷ field "reserved2" 4
      ∷ field "in_proto_mask" 2
      ∷ field "out_proto_mask" 2
      ∷ field "flags" 2
      ∷ field "reserved3" 2
      ∷ [];
}

abbrev pub cfg_prt_uart : PackDesc
cfg_prt_uart = record {
  name = "CfgPrtUart";
  class = 0x6;
  id = 0x0;
  payload_len = fixed 20;
  fields =
      checked "portid" 1 (one_of (1 ∷ 2 ∷ 3 ∷ []))
      ∷ field "reserved0" 1
      ∷ field "tx_ready" 2
      ∷ field "mode" 4
      ∷ field "baud_rate" 4
      ∷ field "in_proto_mask" 2
      ∷ field "out_proto_mask" 2
      ∷ field "flags" 2
      ∷ field "reserved5" 2
      ∷ [];
}

abbrev pub cfg_prt_spi : PackDesc
cfg_prt_spi = record {
  name = "CfgPrtSpi";
  class = 0x6;
  id = 0x0;
  payload_len = fixed 20;
  fields =
      checked "portid" 1 (one_of (4 ∷ []))
      ∷ field "reserved0" 1
      ∷ field "tx_ready" 2
      ∷ field "mode" 4
      ∷ field "reserved3" 4
      ∷ field "in_proto_mask" 2
      ∷ field "out_proto_mask" 2
      ∷ field "flags" 2
      ∷ field "reserved5" 2
      ∷ [];
}

abbrev pub cfg_nav5 : PackDesc
cfg_nav5 = record {
  name = "CfgNav5";
  class = 0x6;
  id = 0x24;
  payload_len = fixed 36;
  fields =
      field "mask" 2
      ∷ checked "dyn_model" 1 (one_of (0 ∷ 2 ∷ 3 ∷ 4 ∷ 5 ∷ 6 ∷ 7 ∷ 8 ∷ 9 ∷ 10 ∷ []))
      ∷ checked "fix_mode" 1 (one_of (1 ∷ 2 ∷ 3 ∷ []))
      ∷ field "fixed_alt" 4
      ∷ field "fixed_alt_var" 4
      ∷ field "min_elev_degrees" 1
      ∷ field "dr_limit" 1
      ∷ field "pdop" 2
      ∷ field "tdop" 2
      ∷ field "pacc" 2
      ∷ field "tacc" 2
      ∷ field "static_hold_thresh" 1
      ∷ field "dgps_time_out" 1
      ∷ field "cno_thresh_num_svs" 1
      ∷ field "cno_thresh" 1
      ∷ field "reserved1" 2
      ∷ field "static_hold_max_dist" 2
      ∷ checked "utc_standard" 1 (one_of (0 ∷ 3 ∷ 6 ∷ 7 ∷ []))
      ∷ field "reserved2" 5
      ∷ [];
}
