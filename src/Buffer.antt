-- ===== src/Buffer.antt =====
-- The trait `UnderlyingBuffer` of ublox/src/parser.rs and its two implementations: what the parser
-- calls, and the laws that it relies on.
pub mod Interface
pub mod Vector
pub mod Fixed
pub use Interface.{UnderlyingBuffer, Laws, usize_max, isize_max, Fits, is_empty, default_find}
