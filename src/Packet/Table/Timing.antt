-- ===== src/Packet/Table/Timing.antt =====
-- Packets that are received (ublox/src/ubx_packets/packets.rs): name, class, id, length and fields.
use ublox.Prelude.{[], ◌∷◌}
use ublox.Packet.Desc.{PackDesc, field, fixed}

abbrev pub tim_svin : PackDesc
tim_svin = record {
  name = "TimSvin";
  class = 0xd;
  id = 0x4;
  payload_len = fixed 28;
  fields =
      field "dur" 4
      ∷ field "mean_x" 4
      ∷ field "mean_y" 4
      ∷ field "mean_z" 4
      ∷ field "mean_v" 4
      ∷ field "obs" 4
      ∷ field "valid" 1
      ∷ field "active" 1
      ∷ field "reserved" 2
      ∷ [];
}

abbrev pub tim_tp : PackDesc
tim_tp = record {
  name = "TimTp";
  class = 0xd;
  id = 0x1;
  payload_len = fixed 16;
  fields =
      field "tow_ms" 4
      ∷ field "tow_sub_ms" 4
      ∷ field "q_err" 4
      ∷ field "week" 2
      ∷ field "flags" 1
      ∷ field "ref_info" 1
      ∷ [];
}

abbrev pub tim_tm2 : PackDesc
tim_tm2 = record {
  name = "TimTm2";
  class = 0xd;
  id = 0x3;
  payload_len = fixed 28;
  fields =
      field "ch" 1
      ∷ field "flags" 1
      ∷ field "count" 2
      ∷ field "wn_r" 2
      ∷ field "wn_f" 2
      ∷ field "tow_ms_r" 4
      ∷ field "tow_sub_ms_r" 4
      ∷ field "tow_ms_f" 4
      ∷ field "tow_sub_ms_f" 4
      ∷ field "acc_est" 4
      ∷ [];
}
