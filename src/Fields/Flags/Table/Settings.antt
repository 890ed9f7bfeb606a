-- ===== src/Fields/Flags/Table/Settings.antt =====
-- The flags of settings with `#[ubx_extend_bitflags]` (ublox/src/ubx_packets/packets.rs).
use ublox.Prelude.{none, some, [], ◌∷◌}
use ublox.Fields.Enums.{from, rest_reserved}
use ublox.Fields.Flags.{BitFlagsMacro, item}

abbrev pub odo_cog_filter_flags : BitFlagsMacro
odo_cog_filter_flags = record {
  nbits = 8;
  name = "OdoCogFilterFlags";
  consts =
      item "USE_ODO" 0x01
      ∷ item "USE_COG" 0x02
      ∷ item "OUT_LP_VEL" 0x04
      ∷ item "OUT_LP_COG" 0x08
      ∷ [];
  from_fn = some from;
  rest_handling = some rest_reserved;
}

abbrev pub cfg_inf_mask : BitFlagsMacro
cfg_inf_mask = record {
  nbits = 8;
  name = "CfgInfMask";
  consts =
      item "ERROR" 0x1
      ∷ item "WARNING" 0x2
      ∷ item "NOTICE" 0x4
      ∷ item "TEST" 0x08
      ∷ item "DEBUG" 0x10
      ∷ [];
  from_fn = some from;
  rest_handling = some rest_reserved;
}

abbrev pub ant_flags : BitFlagsMacro
ant_flags = record {
  nbits = 16;
  name = "AntFlags";
  consts =
      item "SVCS" 0x01
      ∷ item "SCD" 0x02
      ∷ item "OCD" 0x04
      ∷ item "PDWN_ON_SCD" 0x08
      ∷ item "RECOVERY" 0x10
      ∷ [];
  from_fn = some from;
  rest_handling = some rest_reserved;
}

abbrev pub cfg_tmode2_flags : BitFlagsMacro
cfg_tmode2_flags = record {
  nbits = 16;
  name = "CfgTmode2Flags";
  consts = item "LLA" 0x01 ∷ item "ALT_INVALID" 0x02 ∷ [];
  from_fn = some from;
  rest_handling = some rest_reserved;
}

abbrev pub cfg_tmode3_rcvr_mode : BitFlagsMacro
cfg_tmode3_rcvr_mode = record {
  nbits = 8;
  name = "CfgTmode3RcvrMode";
  consts = item "DISABLED" 0x01 ∷ item "SURVEY_IN" 0x02 ∷ item "FIXED_MODE" 0x04 ∷ [];
  from_fn = some from;
  rest_handling = some rest_reserved;
}

abbrev pub cfg_tp5_flags : BitFlagsMacro
cfg_tp5_flags = record {
  nbits = 32;
  name = "CfgTp5Flags";
  consts =
      item "ACTIVE" 0x01
      ∷ item "LOCK_GNSS_FREQ" 0x02
      ∷ item "LOCKED_OTHER_SET" 0x04
      ∷ item "IS_FREQ" 0x08
      ∷ item "IS_LENGTH" 0x10
      ∷ item "ALIGN_TO_TOW" 0x20
      ∷ item "POLARITY" 0x40
      ∷ item "UTC_TIME_GRID" 0x80
      ∷ item "GPS_TIME_GRID" 0x100
      ∷ item "GLO_TIME_GRID" 0x200
      ∷ item "BDS_TIME_GRID" 0x400
      ∷ item "GAL_TIME_GRID" 0x800
      ∷ item "SYNC_MODE_0" 0x1000
      ∷ item "SYNC_MODE_1" 0x2000
      ∷ [];
  from_fn = some from;
  rest_handling = some rest_reserved;
}

abbrev pub cfg_tmode3_flags : BitFlagsMacro
cfg_tmode3_flags = record {
  nbits = 8;
  name = "CfgTmode3Flags";
  consts = item "LLA" 0x01 ∷ [];
  from_fn = some from;
  rest_handling = some rest_reserved;
}

abbrev pub nav_bbr_mask : BitFlagsMacro
nav_bbr_mask = record {
  nbits = 16;
  name = "NavBbrMask";
  consts =
      item "EPHEMERIS" 1
      ∷ item "ALMANACH" 2
      ∷ item "HEALTH" 4
      ∷ item "KLOBUCHARD" 8
      ∷ item "POSITION" 16
      ∷ item "CLOCK_DRIFT" 32
      ∷ item "OSCILATOR_PARAMETER" 64
      ∷ item "UTC_CORRECTION_PARAMETERS" 0x80
      ∷ item "RTC" 0x100
      ∷ item "SFDR_PARAMETERS" 0x800
      ∷ item "SFDR_VEHICLE_MONITORING_PARAMETERS" 0x1000
      ∷ item "TCT_PARAMETERS" 0x2000
      ∷ item "AUTONOMOUS_ORBIT_PARAMETERS" 0x8000
      ∷ [];
  from_fn = none;
  rest_handling = some rest_reserved;
}

abbrev pub cfg_layer : BitFlagsMacro
cfg_layer = record {
  nbits = 8;
  name = "CfgLayer";
  consts = item "RAM" 0b001 ∷ item "BBR" 0b010 ∷ item "FLASH" 0b100 ∷ [];
  from_fn = some from;
  rest_handling = some rest_reserved;
}

abbrev pub in_proto_mask : BitFlagsMacro
in_proto_mask = record {
  nbits = 16;
  name = "InProtoMask";
  consts = item "UBLOX" 1 ∷ item "NMEA" 2 ∷ item "RTCM" 4 ∷ item "RTCM3" 0x20 ∷ [];
  from_fn = some from;
  rest_handling = some rest_reserved;
}

abbrev pub out_proto_mask : BitFlagsMacro
out_proto_mask = record {
  nbits = 16;
  name = "OutProtoMask";
  consts = item "UBLOX" 1 ∷ item "NMEA" 2 ∷ item "RTCM3" 0x20 ∷ [];
  from_fn = some from;
  rest_handling = some rest_reserved;
}

abbrev pub cfg_nav5_params : BitFlagsMacro
cfg_nav5_params = record {
  nbits = 16;
  name = "CfgNav5Params";
  consts =
      item "DYN" 1
      ∷ item "MIN_EL" 2
      ∷ item "POS_FIX_MODE" 4
      ∷ item "DR_LIM" 8
      ∷ item "POS_MASK_APPLY" 0x10
      ∷ item "TIME_MASK" 0x20
      ∷ item "STATIC_HOLD_MASK" 0x40
      ∷ item "DGPS_MASK" 0x80
      ∷ item "CNO_THRESHOLD" 0x100
      ∷ item "UTC" 0x400
      ∷ [];
  from_fn = some from;
  rest_handling = some rest_reserved;
}

abbrev pub cfg_nav_x5_params1 : BitFlagsMacro
cfg_nav_x5_params1 = record {
  nbits = 16;
  name = "CfgNavX5Params1";
  consts =
      item "MIN_MAX" 0x4
      ∷ item "MIN_CNO" 0x8
      ∷ item "INITIAL_3D_FIX" 0x40
      ∷ item "WKN_ROLL" 0x200
      ∷ item "AID_ACK" 0x400
      ∷ item "USE_PPP" 0x2000
      ∷ item "AOP_CFG" 0x4000
      ∷ [];
  from_fn = some from;
  rest_handling = some rest_reserved;
}

abbrev pub cfg_nav_x5_params2 : BitFlagsMacro
cfg_nav_x5_params2 = record {
  nbits = 32;
  name = "CfgNavX5Params2";
  consts = item "USE_ADR" 0x40 ∷ item "USE_SIG_ATTEN_COMP" 0x80 ∷ [];
  from_fn = some from;
  rest_handling = some rest_reserved;
}
