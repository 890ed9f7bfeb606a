-- ===== src/Packet/Table/Information.antt =====
-- Packets that are received (ublox/src/ubx_packets/packets.rs): name, class, id, length and fields.
use ublox.Prelude.{[], ◌∷◌}
use ublox.Packet.Desc.{PackDesc, max, open_field}
use ublox.Packet.Check.{any_bytes}

abbrev pub inf_error : PackDesc
inf_error = record {
  name = "InfError";
  class = 0x4;
  id = 0x0;
  payload_len = max 1240;
  fields = open_field "message" any_bytes ∷ [];
}

abbrev pub inf_notice : PackDesc
inf_notice = record {
  name = "InfNotice";
  class = 0x4;
  id = 0x2;
  payload_len = max 1240;
  fields = open_field "message" any_bytes ∷ [];
}

abbrev pub inf_test : PackDesc
inf_test = record {
  name = "InfTest";
  class = 0x4;
  id = 0x3;
  payload_len = max 1240;
  fields = open_field "message" any_bytes ∷ [];
}

abbrev pub inf_warning : PackDesc
inf_warning = record {
  name = "InfWarning";
  class = 0x4;
  id = 0x1;
  payload_len = max 1240;
  fields = open_field "message" any_bytes ∷ [];
}

abbrev pub inf_debug : PackDesc
inf_debug = record {
  name = "InfDebug";
  class = 0x4;
  id = 0x4;
  payload_len = max 1240;
  fields = open_field "message" any_bytes ∷ [];
}
