-- ===== src/Packet.antt =====
-- The packets that the parser knows (ublox/src/ubx_packets/packets.rs).
pub mod Check
pub mod Desc
pub mod Table
pub mod Match
pub mod Parse
pub mod Build
pub mod Access
pub mod Groups
pub mod Sent
