-- ===== src/Packet/Table/Fusion.antt =====
-- Packets that are received (ublox/src/ubx_packets/packets.rs): name, class, id, length and fields.
use ublox.Prelude.{[], ◌∷◌}
use ublox.Packet.Desc.{
  PackDesc, calib_tag_len, data_len, field, fixed, max, open_field, sized_field,
}
use ublox.Packet.Check.{multiple_of, no_check}

abbrev pub esf_meas : PackDesc
esf_meas = record {
  name = "EsfMeas";
  class = 0x10;
  id = 0x2;
  payload_len = max 1240;
  fields =
      field "time_tag" 4
      ∷ field "flags" 2
      ∷ field "id" 2
      ∷ sized_field "data" (multiple_of 4) data_len
      ∷ sized_field "calib_tag" no_check calib_tag_len
      ∷ [];
}

abbrev pub esf_raw : PackDesc
esf_raw = record {
  name = "EsfRaw";
  class = 0x10;
  id = 0x3;
  payload_len = max 1240;
  fields = field "msss" 4 ∷ open_field "data" (multiple_of 8) ∷ [];
}

abbrev pub esf_ins : PackDesc
esf_ins = record {
  name = "EsfIns";
  class = 0x10;
  id = 0x15;
  payload_len = fixed 36;
  fields =
      field "bit_field" 4
      ∷ field "reserved" 4
      ∷ field "i_tow" 4
      ∷ field "x_angular_rate" 4
      ∷ field "y_angular_rate" 4
      ∷ field "z_angular_rate" 4
      ∷ field "x_acceleration" 4
      ∷ field "y_acceleration" 4
      ∷ field "z_acceleration" 4
      ∷ [];
}
