-- ===== src/Packet/Table.antt =====
-- The list of `define_recv_packets!` (ublox/src/ubx_packets/packets.rs), in the order of the source.
pub mod Settings
pub mod Information
pub mod Other
pub mod Timing
pub mod Assistance
pub mod Receiver
pub mod Fusion
pub mod Navigation1
pub mod Navigation2
use ublox.Prelude.{List, [], ◌∷◌}
use ublox.Packet.Desc.{PackDesc}
use ublox.Packet.Table.Settings.{
  cfg_odo, cfg_itfm, cfg_ant, cfg_tp5, cfg_tmode2, cfg_tmode3, cfg_prt_i2c, cfg_prt_uart,
  cfg_prt_spi, cfg_nav5,
}
use ublox.Packet.Table.Information.{inf_error, inf_notice, inf_test, inf_warning, inf_debug}
use ublox.Packet.Table.Other.{alp_srv, ack_ack, ack_nak, mon_hw, mon_gnss, mon_ver, hnr_pvt}
use ublox.Packet.Table.Timing.{tim_svin, tim_tp, tim_tm2}
use ublox.Packet.Table.Assistance.{mga_ack, mga_glo_eph, mga_gps_iono, mga_gps_eph, mga_gps_eph_2}
use ublox.Packet.Table.Receiver.{rxm_rawx, rxm_rtcm, rxm_sfrbx}
use ublox.Packet.Table.Fusion.{esf_meas, esf_raw, esf_ins}
use ublox.Packet.Table.Navigation1.{
  nav_pos_llh, nav_vel_ned, nav_hp_pos_llh, nav_pos_vel_time, nav_status, nav_dop, nav_eoe,
  nav_solution,
}
use ublox.Packet.Table.Navigation2.{
  nav_sat, nav_odo, nav_time_ls, nav_time_utc, nav_att, nav_clock, nav_vel_ecef,
}

abbrev pub all_packets : List PackDesc
all_packets =
    nav_pos_llh ∷ nav_status ∷ nav_dop ∷ nav_pos_vel_time ∷ nav_solution ∷ nav_vel_ned
    ∷ nav_hp_pos_llh ∷ nav_time_utc ∷ nav_time_ls ∷ nav_sat ∷ nav_eoe ∷ nav_odo ∷ cfg_odo ∷ mga_ack
    ∷ mga_gps_iono ∷ mga_gps_eph ∷ mga_glo_eph ∷ alp_srv ∷ ack_ack ∷ ack_nak ∷ cfg_itfm
    ∷ cfg_prt_i2c ∷ cfg_prt_spi ∷ cfg_prt_uart ∷ cfg_nav5 ∷ cfg_ant ∷ cfg_tmode2 ∷ cfg_tmode3
    ∷ cfg_tp5 ∷ inf_error ∷ inf_warning ∷ inf_notice ∷ inf_test ∷ inf_debug ∷ rxm_rawx ∷ tim_tp
    ∷ tim_tm2 ∷ mon_ver ∷ mon_gnss ∷ mon_hw ∷ rxm_rtcm ∷ esf_meas ∷ esf_ins ∷ hnr_pvt ∷ nav_att
    ∷ nav_clock ∷ nav_vel_ecef ∷ mga_gps_eph_2 ∷ rxm_sfrbx ∷ esf_raw ∷ tim_svin ∷ []
