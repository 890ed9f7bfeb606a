-- ===== src/Cfg.antt =====
-- Configuration values (ublox/src/ubx_packets/cfg_val.rs).
pub mod Value
pub mod Item
pub mod Table
pub mod Codec
