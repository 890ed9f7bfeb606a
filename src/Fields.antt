-- ===== src/Fields.antt =====
-- The values that fields of packets are converted to (ublox/src/ubx_packets/packets.rs), and the code
-- that ublox_derive/src/output.rs makes for enums and flags.
pub mod Bits
pub mod Enums
pub mod Flags
pub mod Uart
pub mod Interference
pub mod Pulses
pub mod Satellite
pub mod Times
