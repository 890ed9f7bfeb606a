-- ===== src/Packet/Table/Navigation2.antt =====
-- Packets that are received (ublox/src/ubx_packets/packets.rs): name, class, id, length and fields.
use ublox.Prelude.{[], ◌∷◌}
use ublox.Packet.Desc.{PackDesc, field, fixed, max, open_field}
use ublox.Packet.Check.{multiple_of}

abbrev pub nav_sat : PackDesc
nav_sat = record {
  name = "NavSat";
  class = 0x1;
  id = 0x35;
  payload_len = max 1240;
  fields =
      field "itow" 4
      ∷ field "version" 1
      ∷ field "num_svs" 1
      ∷ field "reserved" 2
      ∷ open_field "svs" (multiple_of 12)
      ∷ [];
}

abbrev pub nav_odo : PackDesc
nav_odo = record {
  name = "NavOdo";
  class = 0x1;
  id = 0x9;
  payload_len = fixed 20;
  fields =
      field "version" 1
      ∷ field "reserved" 3
      ∷ field "i_tow" 4
      ∷ field "distance" 4
      ∷ field "total_distance" 4
      ∷ field "distance_std" 4
      ∷ [];
}

abbrev pub nav_time_ls : PackDesc
nav_time_ls = record {
  name = "NavTimeLs";
  class = 0x1;
  id = 0x26;
  payload_len = fixed 24;
  fields =
      field "i_tow" 4
      ∷ field "version" 1
      ∷ field "reserved_1" 3
      ∷ field "src_of_curr_ls" 1
      ∷ field "current_ls" 1
      ∷ field "src_of_ls_change" 1
      ∷ field "ls_change" 1
      ∷ field "time_to_ls_event" 4
      ∷ field "date_of_ls_gps_wn" 2
      ∷ field "date_of_ls_gps_dn" 2
      ∷ field "reserved_2" 3
      ∷ field "valid" 1
      ∷ [];
}

abbrev pub nav_time_utc : PackDesc
nav_time_utc = record {
  name = "NavTimeUTC";
  class = 0x1;
  id = 0x21;
  payload_len = fixed 20;
  fields =
      field "itow" 4
      ∷ field "time_accuracy_estimate_ns" 4
      ∷ field "nanos" 4
      ∷ field "year" 2
      ∷ field "month" 1
      ∷ field "day" 1
      ∷ field "hour" 1
      ∷ field "min" 1
      ∷ field "sec" 1
      ∷ field "valid" 1
      ∷ [];
}

abbrev pub nav_att : PackDesc
nav_att = record {
  name = "NavAtt";
  class = 0x1;
  id = 0x5;
  payload_len = fixed 32;
  fields =
      field "itow" 4
      ∷ field "version" 1
      ∷ field "reserved1" 3
      ∷ field "vehicle_roll" 4
      ∷ field "vehicle_pitch" 4
      ∷ field "vehicle_heading" 4
      ∷ field "vehicle_roll_accuracy" 4
      ∷ field "vehicle_pitch_accuracy" 4
      ∷ field "vehicle_heading_accuracy" 4
      ∷ [];
}

abbrev pub nav_clock : PackDesc
nav_clock = record {
  name = "NavClock";
  class = 0x1;
  id = 0x22;
  payload_len = fixed 20;
  fields =
      field "itow" 4 ∷ field "clk_b" 4 ∷ field "clk_d" 4 ∷ field "t_acc" 4 ∷ field "f_acc" 4 ∷ [];
}

abbrev pub nav_vel_ecef : PackDesc
nav_vel_ecef = record {
  name = "NavVelECEF";
  class = 0x1;
  id = 0x11;
  payload_len = fixed 20;
  fields =
      field "itow" 4
      ∷ field "ecef_vx" 4
      ∷ field "ecef_vy" 4
      ∷ field "ecef_vz" 4
      ∷ field "s_acc" 4
      ∷ [];
}
