-- ===== src/Fields/Flags/Table/Reports.antt =====
-- The flags of what the receiver reports, with `#[ubx_extend_bitflags]` (ublox/src/ubx_packets/packets.rs).
use ublox.Prelude.{some, [], ◌∷◌}
use ublox.Fields.Enums.{from, rest_reserved}
use ublox.Fields.Flags.{BitFlagsMacro, item}

abbrev pub nav_pos_vel_time_flags : BitFlagsMacro
nav_pos_vel_time_flags = record {
  nbits = 8;
  name = "NavPosVelTimeFlags";
  consts =
      item "GPS_FIX_OK" 1
      ∷ item "DIFF_SOLN" 2
      ∷ item "PSM_STATE" 4
      ∷ item "HEAD_VEH_VALID" 0x20
      ∷ item "CARR_SOLN_FLOAT" 0x40
      ∷ item "CARR_SOLN_FIXED" 0x80
      ∷ [];
  from_fn = some from;
  rest_handling = some rest_reserved;
}

abbrev pub nav_pos_vel_time_flags2 : BitFlagsMacro
nav_pos_vel_time_flags2 = record {
  nbits = 8;
  name = "NavPosVelTimeFlags2";
  consts =
      item "CONFIRMED_AVAI" 0x20 ∷ item "CONFIRMED_DATE" 0x40 ∷ item "CONFIRMED_TIME" 0x80 ∷ [];
  from_fn = some from;
  rest_handling = some rest_reserved;
}

abbrev pub nav_status_flags : BitFlagsMacro
nav_status_flags = record {
  nbits = 8;
  name = "NavStatusFlags";
  consts = item "GPS_FIX_OK" 1 ∷ item "DIFF_SOLN" 2 ∷ item "WKN_SET" 4 ∷ item "TOW_SET" 8 ∷ [];
  from_fn = some from;
  rest_handling = some rest_reserved;
}

abbrev pub nav_time_ls_flags : BitFlagsMacro
nav_time_ls_flags = record {
  nbits = 8;
  name = "NavTimeLsFlags";
  consts = item "VALID_CURR_LS" 1 ∷ item "VALID_TIME_TO_LS_EVENT" 2 ∷ [];
  from_fn = some from;
  rest_handling = some rest_reserved;
}

abbrev pub nav_time_utc_flags : BitFlagsMacro
nav_time_utc_flags = record {
  nbits = 8;
  name = "NavTimeUtcFlags";
  consts = item "VALID_TOW" 1 ∷ item "VALID_WKN" 2 ∷ item "VALID_UTC" 4 ∷ [];
  from_fn = some from;
  rest_handling = some rest_reserved;
}

abbrev pub rec_stat_flags : BitFlagsMacro
rec_stat_flags = record {
  nbits = 8;
  name = "RecStatFlags";
  consts = item "LEAP_SEC" 0x1 ∷ item "CLK_RESET" 0x2 ∷ [];
  from_fn = some from;
  rest_handling = some rest_reserved;
}

abbrev pub mon_gnss_constell_mask : BitFlagsMacro
mon_gnss_constell_mask = record {
  nbits = 8;
  name = "MonGnssConstellMask";
  consts = item "GPS" 0x01 ∷ item "GLO" 0x02 ∷ item "BDC" 0x04 ∷ item "GAL" 0x08 ∷ [];
  from_fn = some from;
  rest_handling = some rest_reserved;
}

abbrev pub esf_ins_bit_flags : BitFlagsMacro
esf_ins_bit_flags = record {
  nbits = 32;
  name = "EsfInsBitFlags";
  consts =
      item "VERSION" 1
      ∷ item "X_ANG_RATE_VALID" 0x100
      ∷ item "Y_ANG_RATE_VALID" 0x200
      ∷ item "Z_ANG_RATE_VALID" 0x400
      ∷ item "X_ACCEL_VALID" 0x800
      ∷ item "Y_ACCEL_VALID" 0x1000
      ∷ item "Z_ACCEL_VALID" 0x2000
      ∷ [];
  from_fn = some from;
  rest_handling = some rest_reserved;
}

abbrev pub hnr_pvt_flags : BitFlagsMacro
hnr_pvt_flags = record {
  nbits = 8;
  name = "HnrPvtFlags";
  consts =
      item "GPS_FIX_OK" 0x01
      ∷ item "DIFF_SOLN" 0x02
      ∷ item "WKN_SET" 0x04
      ∷ item "TOW_SET" 0x08
      ∷ item "HEAD_VEH_VALID" 0x10
      ∷ [];
  from_fn = some from;
  rest_handling = some rest_reserved;
}

abbrev pub hnr_pvt_valid_flags : BitFlagsMacro
hnr_pvt_valid_flags = record {
  nbits = 8;
  name = "HnrPvtValidFlags";
  consts = item "VALID_DATE" 0x01 ∷ item "VALID_TIME" 0x02 ∷ item "FULLY_RESOLVED" 0x04 ∷ [];
  from_fn = some from;
  rest_handling = some rest_reserved;
}

abbrev pub stdev_flags : BitFlagsMacro
stdev_flags = record {
  nbits = 8;
  name = "StdevFlags";
  consts = item "STD_1" 0x01 ∷ item "STD_2" 0x02 ∷ item "STD_3" 0x04 ∷ item "STD_4" 0x08 ∷ [];
  from_fn = some from;
  rest_handling = some rest_reserved;
}

abbrev pub trk_stat_flags : BitFlagsMacro
trk_stat_flags = record {
  nbits = 8;
  name = "TrkStatFlags";
  consts =
      item "PR_VALID" 0x01
      ∷ item "CP_VALID" 0x02
      ∷ item "HALF_CYCLE" 0x04
      ∷ item "SUB_HALF_CYCLE" 0x08
      ∷ [];
  from_fn = some from;
  rest_handling = some rest_reserved;
}
