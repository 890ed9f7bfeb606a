-- ===== src/Packet/Table/Assistance.antt =====
-- Packets that are received (ublox/src/ubx_packets/packets.rs): name, class, id, length and fields.
use ublox.Prelude.{[], ◌∷◌}
use ublox.Packet.Desc.{PackDesc, field, fixed}

abbrev pub mga_ack : PackDesc
mga_ack = record {
  name = "MgaAck";
  class = 0x13;
  id = 0x60;
  payload_len = fixed 8;
  fields =
      field "ack_type" 1
      ∷ field "version" 1
      ∷ field "info_code" 1
      ∷ field "msg_id" 1
      ∷ field "msg_payload_start" 4
      ∷ [];
}

abbrev pub mga_glo_eph : PackDesc
mga_glo_eph = record {
  name = "MgaGloEph";
  class = 0x13;
  id = 0x6;
  payload_len = fixed 48;
  fields =
      field "msg_type" 1
      ∷ field "version" 1
      ∷ field "sv_id" 1
      ∷ field "reserved1" 1
      ∷ field "ft" 1
      ∷ field "b" 1
      ∷ field "m" 1
      ∷ field "h" 1
      ∷ field "x" 4
      ∷ field "y" 4
      ∷ field "z" 4
      ∷ field "dx" 4
      ∷ field "dy" 4
      ∷ field "dz" 4
      ∷ field "ddx" 1
      ∷ field "ddy" 1
      ∷ field "ddz" 1
      ∷ field "tb" 1
      ∷ field "gamma" 2
      ∷ field "e" 1
      ∷ field "delta_tau" 1
      ∷ field "tau" 4
      ∷ field "reserved2" 4
      ∷ [];
}

abbrev pub mga_gps_iono : PackDesc
mga_gps_iono = record {
  name = "MgaGpsIono";
  class = 0x13;
  id = 0x0;
  payload_len = fixed 16;
  fields =
      field "msg_type" 1
      ∷ field "version" 1
      ∷ field "reserved1" 2
      ∷ field "alpha0" 1
      ∷ field "alpha1" 1
      ∷ field "alpha2" 1
      ∷ field "alpha3" 1
      ∷ field "beta0" 1
      ∷ field "beta1" 1
      ∷ field "beta2" 1
      ∷ field "beta3" 1
      ∷ field "reserved2" 4
      ∷ [];
}

abbrev pub mga_gps_eph : PackDesc
mga_gps_eph = record {
  name = "MgaGpsEph";
  class = 0x13;
  id = 0x0;
  payload_len = fixed 68;
  fields =
      field "msg_type" 1
      ∷ field "version" 1
      ∷ field "sv_id" 1
      ∷ field "reserved1" 1
      ∷ field "fit_interval" 1
      ∷ field "ura_index" 1
      ∷ field "sv_health" 1
      ∷ field "tgd" 1
      ∷ field "iodc" 2
      ∷ field "toc" 2
      ∷ field "reserved2" 1
      ∷ field "af2" 1
      ∷ field "af1" 2
      ∷ field "af0" 4
      ∷ field "crs" 2
      ∷ field "delta_n" 2
      ∷ field "m0" 4
      ∷ field "cuc" 2
      ∷ field "cus" 2
      ∷ field "e" 4
      ∷ field "sqrt_a" 4
      ∷ field "toe" 2
      ∷ field "cic" 2
      ∷ field "omega0" 4
      ∷ field "cis" 2
      ∷ field "crc" 2
      ∷ field "i0" 4
      ∷ field "omega" 4
      ∷ field "omega_dot" 4
      ∷ field "idot" 2
      ∷ field "reserved3" 2
      ∷ [];
}

abbrev pub mga_gps_eph_2 : PackDesc
mga_gps_eph_2 = record {
  name = "MgaGpsEPH";
  class = 0x13;
  id = 0x0;
  payload_len = fixed 68;
  fields =
      field "msg_type" 1
      ∷ field "version" 1
      ∷ field "sv_id" 1
      ∷ field "reserved1" 1
      ∷ field "fit_interval" 1
      ∷ field "ura_index" 1
      ∷ field "sv_health" 1
      ∷ field "tgd" 1
      ∷ field "iodc" 2
      ∷ field "toc" 2
      ∷ field "reserved2" 1
      ∷ field "af2" 1
      ∷ field "afl" 2
      ∷ field "af0" 4
      ∷ field "crs" 2
      ∷ field "delta_n" 2
      ∷ field "m0" 4
      ∷ field "cuc" 2
      ∷ field "cus" 2
      ∷ field "e" 4
      ∷ field "sqrt_a" 4
      ∷ field "toe" 2
      ∷ field "cic" 2
      ∷ field "omega0" 4
      ∷ field "cis" 2
      ∷ field "crc" 2
      ∷ field "i0" 4
      ∷ field "omega" 4
      ∷ field "omega_dot" 4
      ∷ field "idot" 2
      ∷ field "reserved3" 2
      ∷ [];
}
