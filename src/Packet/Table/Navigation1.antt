-- ===== src/Packet/Table/Navigation1.antt =====
-- Packets that are received (ublox/src/ubx_packets/packets.rs): name, class, id, length and fields.
use ublox.Prelude.{[], ◌∷◌}
use ublox.Packet.Desc.{PackDesc, field, fixed}

abbrev pub nav_pos_llh : PackDesc
nav_pos_llh = record {
  name = "NavPosLlh";
  class = 0x1;
  id = 0x2;
  payload_len = fixed 28;
  fields =
      field "itow" 4
      ∷ field "lon_degrees" 4
      ∷ field "lat_degrees" 4
      ∷ field "height_meters" 4
      ∷ field "height_msl" 4
      ∷ field "h_ack" 4
      ∷ field "v_acc" 4
      ∷ [];
}

abbrev pub nav_vel_ned : PackDesc
nav_vel_ned = record {
  name = "NavVelNed";
  class = 0x1;
  id = 0x12;
  payload_len = fixed 36;
  fields =
      field "itow" 4
      ∷ field "vel_north" 4
      ∷ field "vel_east" 4
      ∷ field "vel_down" 4
      ∷ field "speed_3d" 4
      ∷ field "ground_speed" 4
      ∷ field "heading_degrees" 4
      ∷ field "speed_accuracy_estimate" 4
      ∷ field "course_heading_accuracy_estimate" 4
      ∷ [];
}

abbrev pub nav_hp_pos_llh : PackDesc
nav_hp_pos_llh = record {
  name = "NavHpPosLlh";
  class = 0x1;
  id = 0x14;
  payload_len = fixed 36;
  fields =
      field "version" 1
      ∷ field "reserved1" 3
      ∷ field "itow" 4
      ∷ field "lon_degrees" 4
      ∷ field "lat_degrees" 4
      ∷ field "height_meters" 4
      ∷ field "height_msl" 4
      ∷ field "lon_hp_degrees" 1
      ∷ field "lat_hp_degrees" 1
      ∷ field "height_hp_meters" 1
      ∷ field "height_hp_msl" 1
      ∷ field "horizontal_accuracy" 4
      ∷ field "vertical_accuracy" 4
      ∷ [];
}

abbrev pub nav_pos_vel_time : PackDesc
nav_pos_vel_time = record {
  name = "NavPosVelTime";
  class = 0x1;
  id = 0x7;
  payload_len = fixed 92;
  fields =
      field "itow" 4
      ∷ field "year" 2
      ∷ field "month" 1
      ∷ field "day" 1
      ∷ field "hour" 1
      ∷ field "min" 1
      ∷ field "sec" 1
      ∷ field "valid" 1
      ∷ field "time_accuracy" 4
      ∷ field "nanosecond" 4
      ∷ field "fix_type" 1
      ∷ field "flags" 1
      ∷ field "flags2" 1
      ∷ field "num_satellites" 1
      ∷ field "lon_degrees" 4
      ∷ field "lat_degrees" 4
      ∷ field "height_meters" 4
      ∷ field "height_msl" 4
      ∷ field "horiz_accuracy" 4
      ∷ field "vert_accuracy" 4
      ∷ field "vel_north" 4
      ∷ field "vel_east" 4
      ∷ field "vel_down" 4
      ∷ field "ground_speed" 4
      ∷ field "heading_degrees" 4
      ∷ field "speed_accuracy_estimate" 4
      ∷ field "heading_accuracy_estimate" 4
      ∷ field "pdop" 2
      ∷ field "reserved1" 6
      ∷ field "heading_of_vehicle_degrees" 4
      ∷ field "magnetic_declination_degrees" 2
      ∷ field "magnetic_declination_accuracy_degrees" 2
      ∷ [];
}

abbrev pub nav_status : PackDesc
nav_status = record {
  name = "NavStatus";
  class = 0x1;
  id = 0x3;
  payload_len = fixed 16;
  fields =
      field "itow" 4
      ∷ field "fix_type" 1
      ∷ field "flags" 1
      ∷ field "fix_stat" 1
      ∷ field "flags2" 1
      ∷ field "time_to_first_fix" 4
      ∷ field "uptime_ms" 4
      ∷ [];
}

abbrev pub nav_dop : PackDesc
nav_dop = record {
  name = "NavDop";
  class = 0x1;
  id = 0x4;
  payload_len = fixed 18;
  fields =
      field "itow" 4
      ∷ field "geometric_dop" 2
      ∷ field "position_dop" 2
      ∷ field "time_dop" 2
      ∷ field "vertical_dop" 2
      ∷ field "horizontal_dop" 2
      ∷ field "northing_dop" 2
      ∷ field "easting_dop" 2
      ∷ [];
}

abbrev pub nav_eoe : PackDesc
nav_eoe = record {
  name = "NavEoe";
  class = 0x1;
  id = 0x61;
  payload_len = fixed 4;
  fields = field "itow" 4 ∷ [];
}

abbrev pub nav_solution : PackDesc
nav_solution = record {
  name = "NavSolution";
  class = 0x1;
  id = 0x6;
  payload_len = fixed 52;
  fields =
      field "itow" 4
      ∷ field "ftow_ns" 4
      ∷ field "week" 2
      ∷ field "fix_type" 1
      ∷ field "flags" 1
      ∷ field "ecef_x" 4
      ∷ field "ecef_y" 4
      ∷ field "ecef_z" 4
      ∷ field "position_accuracy_estimate" 4
      ∷ field "ecef_vx" 4
      ∷ field "ecef_vy" 4
      ∷ field "ecef_vz" 4
      ∷ field "speed_accuracy_estimate" 4
      ∷ field "pdop" 2
      ∷ field "reserved1" 1
      ∷ field "num_sv" 1
      ∷ field "reserved2" 4
      ∷ [];
}
