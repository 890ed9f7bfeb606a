-- ===== src/Fields/Flags/Table.antt =====
-- The flags with `#[ubx_extend_bitflags]` (ublox/src/ubx_packets/packets.rs).
pub mod Settings
pub mod Reports
use ublox.Prelude.{List, [], ◌∷◌}
use ublox.Fields.Flags.{BitFlagsMacro}
use ublox.Fields.Flags.Table.Settings.{
  odo_cog_filter_flags, cfg_inf_mask, ant_flags, cfg_tmode2_flags, cfg_tmode3_rcvr_mode,
  cfg_tp5_flags, cfg_tmode3_flags, nav_bbr_mask, cfg_layer, in_proto_mask, out_proto_mask,
  cfg_nav5_params, cfg_nav_x5_params1, cfg_nav_x5_params2,
}
use ublox.Fields.Flags.Table.Reports.{
  nav_pos_vel_time_flags, nav_pos_vel_time_flags2, nav_status_flags, nav_time_ls_flags,
  nav_time_utc_flags, rec_stat_flags, mon_gnss_constell_mask, esf_ins_bit_flags, hnr_pvt_flags,
  hnr_pvt_valid_flags, stdev_flags, trk_stat_flags,
}

abbrev pub all_flags : List BitFlagsMacro
all_flags =
    nav_pos_vel_time_flags ∷ nav_pos_vel_time_flags2 ∷ nav_status_flags ∷ odo_cog_filter_flags
    ∷ cfg_inf_mask ∷ ant_flags ∷ cfg_tmode2_flags ∷ nav_time_ls_flags ∷ cfg_tmode3_rcvr_mode
    ∷ cfg_tp5_flags ∷ cfg_tmode3_flags ∷ nav_bbr_mask ∷ cfg_layer ∷ in_proto_mask ∷ out_proto_mask
    ∷ nav_time_utc_flags ∷ cfg_nav5_params ∷ cfg_nav_x5_params1 ∷ cfg_nav_x5_params2
    ∷ rec_stat_flags ∷ mon_gnss_constell_mask ∷ esf_ins_bit_flags ∷ hnr_pvt_flags
    ∷ hnr_pvt_valid_flags ∷ stdev_flags ∷ trk_stat_flags ∷ []
