-- ===== src/Lib.antt =====
-- The ublox crate (ublox/src): a parser for the binary protocol of u-blox GNSS receivers.
--
-- The program. A client gives the data of a read to `Parser::consume`, which returns an iterator
-- over the packets in what the parser kept of earlier reads and the new data. The iterator works on a
-- `DualBuffer`, which shows the parser's buffer and the new data as one sequence, and copies new
-- data into the buffer only where a packet spans both. When the iterator is dropped, the bytes it
-- has not read go back into the parser's buffer. The buffer is a `Vec<u8>` or a
-- `FixedLinearBuffer`, behind the trait `UnderlyingBuffer`.
--
-- Which file models what:
--   Error             ublox/src/error.rs: the error types.
--   Buffer/Interface  ublox/src/parser.rs, trait `UnderlyingBuffer`: a record of its operations, and
--                     the laws that they keep over the list of bytes that a buffer holds.
--   Buffer/Vector     ublox/src/parser.rs, `impl UnderlyingBuffer for Vec<u8>`.
--   Buffer/Fixed      ublox/src/parser.rs, `FixedLinearBuffer`.
--   Dual              ublox/src/parser.rs, `DualBuffer`: one function for each method. Dual/View has
--                     the bytes that it shows and its invariant; Dual/Room, Dual/Moves, Dual/Take
--                     and Dual/Peek say what the methods do to them.
--   Checksum          `ubx_checksum` and both `UbxChecksumCalc` (ublox/src/ubx_packets.rs and
--                     ublox/src/parser.rs).
--   Packets           what the parser uses of the packets: `match_packet` and `MAX_PAYLOAD_LEN`, as
--                     parameters, which Packet/Parse fills.
--   Parser            ublox/src/parser.rs, `Parser` and `ParserIter`. Parser/Scan is the reference:
--                     what a stream of bytes holds, by recursion on the stream. Parser/Refine,
--                     Parser/Extract, Parser/Skip, Parser/Step and Parser/Next go from the
--                     methods to the reference; Parser/Stream is about a stream that grows,
--                     Parser/Total about buffers that are too small.
--   Session           the use of the parser that ublox/src/lib.rs documents, over several reads.
--   Frame             the layout of a packet, and `UbxPacketRequest` of ublox/src/ubx_packets.rs.
--   Cfg               ublox/src/ubx_packets/cfg_val.rs: Cfg/Item has keys, Cfg/Value the values and
--                     their bytes, Cfg/Table the rows of `cfg_val!`, Cfg/Codec `CfgVal` and
--                     `CfgValIter` (the latter of ublox/src/ubx_packets/packets.rs).
--   Packet            ublox/src/ubx_packets/packets.rs by way of ublox_derive: Packet/Table has a
--                     description for each packet that is received, as the macro attributes give
--                     it; Packet/Desc has `PackDesc` (ublox_derive/src/types.rs) and the
--                     `validate` made from it, Packet/Check the tests of single fields,
--                     Packet/Match `match_packet` (ublox_derive/src/output.rs), Packet/Parse the
--                     parser of the crate with these packets, Packet/Build the builders and
--                     `MemWriter` (ublox/src/ubx_packets.rs), Packet/Access the accessors of a
--                     packet that is received, Packet/Groups the iterators over the groups that
--                     some packets repeat at their end, Packet/Sent the packets that are only sent.
--   Fields            what single fields hold. Fields/Enums is the code that `#[ubx_extend]` makes
--                     for an enum (ublox_derive/src/output.rs), with the enums in
--                     Fields/Enums/Table; Fields/Flags is that of `#[ubx_extend_bitflags]`, with
--                     the flags in Fields/Flags/Table; Fields/Uart, Fields/Interference,
--                     Fields/Pulses and Fields/Satellite are flags and settings of
--                     ublox/src/ubx_packets/packets.rs that are written by hand; Fields/Times is
--                     the time of a navigation solution (ublox/src/ubx_packets/types.rs), over the
--                     calendar of the chrono crate. Fields/Bits has lemmas on the bits of words.
--   Prelude           lists, Boolean tests, searches and options that the parts share.
--   Tests             runs, and the theorems at concrete inputs.
--
-- State. `&mut self` is a state that is passed and returned. A panic (an index or range out of
-- bounds, a subtraction below zero, `panic!`) is `none` of an option; `Option` and `Result` of the
-- code are values inside. Bytes and sizes are natural numbers: a `u8` sum keeps its `% 256`, and a
-- `usize` subtraction is `sub`, which is `none` below zero. Sums of sizes cannot pass `usize::MAX`
-- where both buffers together hold at most `isize::MAX` bytes, which the invariant of `DualBuffer`
-- states.
--
-- Fuel. The loop in `ParserIter::next` runs on fuel, one more than the bytes ahead: each round that
-- goes on takes a byte away. The loop that takes the items of a read has as many steps as bytes
-- ahead, and one more. So has the loop that takes the items of an iterator over groups, which takes
-- the bytes of a group away in each step.
--
-- The text functions of the standard library that the validation uses are written out (UTF-8 in
-- Packet/Check). A `usize` has 64 bits. The calendar of chrono, a writer that a client brings, and
-- `from_bits_truncate` of bitflags are parameters; so are the conversions of the accessors and the
-- builders, where a theorem holds for any of them.
--
-- Not modelled: what scales a number of a packet by a float, and `Position` and `Velocity`, which are
-- floats; the setters of `AidIniBuilder`; the command line client (ublox_cli) and the benches, which
-- only call the library; serde, Debug and Display, which are output; the reading of the macro
-- attributes by ublox_derive/src/input.rs.
pub mod Prelude
pub mod Error
pub mod Buffer
pub mod Dual
pub mod Checksum
pub mod Packets
pub mod Parser
pub mod Session
pub mod Frame
pub mod Cfg
pub mod Packet
pub mod Fields
pub mod Tests
