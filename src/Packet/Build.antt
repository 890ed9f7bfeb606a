-- ===== src/Packet/Build.antt =====
-- The builders of packets that are sent, as ublox_derive/src/output.rs makes them
-- (`generate_send_code_for_packet`), and `MemWriter` for a `Vec<u8>` (ublox/src/ubx_packets.rs). The
-- fields are given by their bytes, `let bytes = ..` in the code.
pub mod Frames
pub mod Indexed
pub mod Writers
use ublox.Prelude.{
  ℕ, zero, suc, ◌+◌, ◌/◌, ◌%◌, List, [], ◌∷◌, ◌++◌, length, drop, slice, set, ◌==◌, if◌then◌else◌,
}
use ublox.Error.{Result, ok, err, MemWriterError, not_enough_mem}
use ublox.Checksum
use ublox.Checksum.{UbxChecksumCalc, ubx_checksum}
use ublox.Parser.{sync_char_1, sync_char_2}
use ublox.Frame.{low_byte, high_byte}
use ublox.Cfg.Codec
use ublox.Cfg.Codec.{CfgVal}

pub record Builder : Type 0 where
  pub class : ℕ
  pub id : ℕ
  pub fields : List (List ℕ)

-- `let bytes = #into_fn(self.#name).to_le_bytes()` for each field, where `into_fn` stands for both.
unfoldable pub field_bytes : {V : Type 0} → List (V → List ℕ) → List V → List (List ℕ)
field_bytes [] vals = []
field_bytes (into_fn ∷ into_fns) [] = []
field_bytes (into_fn ∷ into_fns) (val ∷ vals) = into_fn val ∷ field_bytes into_fns vals

-- `packet_payload_size`: the fields of an instance have the sizes of the description.
unfoldable pub payload_size : List (List ℕ) → ℕ
payload_size [] = 0
payload_size (bytes ∷ fields) = length bytes + payload_size fields

-- `[0u8; n]`
unfoldable pub zeros : ℕ → List ℕ
zeros zero = []
zeros (suc n) = 0 ∷ zeros n

-- `ret[off + i] = bytes[i]` for each `i`
unfoldable pub set_bytes : List ℕ → ℕ → List ℕ → List ℕ
set_bytes ret off [] = ret
set_bytes ret off (b ∷ bytes) = set_bytes (set ret off b) (off + 1) bytes

unfoldable pub pack_fields : List ℕ → ℕ → List (List ℕ) → List ℕ
pack_fields ret off [] = ret
pack_fields ret off (bytes ∷ fields) =
    pack_fields (set_bytes ret off bytes) (off + length bytes) fields

-- For packets of fixed size. `n` is the size of the payload, and `n + 8` is `PACKET_LEN`.
unfoldable pub into_packet_bytes : Builder → List ℕ
into_packet_bytes p =
    let n = payload_size p.fields in
    let ret = zeros (n + 8) in
    let ret = set (set (set (set ret 0 sync_char_1) 1 sync_char_2) 2 p.class) 3 p.id in
    let ret = set (set ret 4 (low_byte n)) 5 (high_byte n) in
    let ret = pack_fields ret 6 p.fields in
    let (ck_a, ck_b) = ubx_checksum (slice 2 (n + 6) ret) in set (set ret (n + 6) ck_a) (n + 7) ck_b

-- `MemWriter`: each operation returns what it answers, and the writer.
pub record MemWriter (W E : Type 0) : Type 0 where
  pub reserve_allocate : W → ℕ → Result (Unit {0}) (MemWriterError E) × W
  pub write : W → List ℕ → Result (Unit {0}) (MemWriterError E) × W

-- `std::io::Write` for a `Vec` appends all bytes and returns how many they are.
abbrev io_write : List ℕ → List ℕ → ℕ × List ℕ
io_write out buf = (length buf, out ++ buf)

-- `impl MemWriter for Vec<u8>`
unfoldable pub vec_writer : (E : Type 0) → MemWriter (List ℕ) E
vec_writer E = record {
  reserve_allocate = λ out len. (ok tt, out);
  write = λ out buf.
      let (ret, written) = io_write out buf in
      (if ret == length buf then ok tt else err not_enough_mem, written);
}

module _ {W E : Type 0} (writer : MemWriter W E) where
  -- The fields, each written and added to the checksum; `?` returns the first error.
  unfoldable pub write_fields :
      UbxChecksumCalc → List (List ℕ) → W → Result UbxChecksumCalc (MemWriterError E) × W
  write_fields calc [] out = (ok calc, out)
  write_fields calc (bytes ∷ fields) out =
      let (answer, written) = writer.write out bytes in
      let rest = write_fields (Checksum.update_fields calc bytes) fields written in
      elim answer [ err e ↦ (err e, written) | ok u ↦ rest ]

  unfoldable pub write_checksum :
      Result UbxChecksumCalc (MemWriterError E) × W → Result (Unit {0}) (MemWriterError E) × W
  write_checksum (err e, out) = (err e, out)
  write_checksum (ok calc, out) =
      let (ck_a, ck_b) = Checksum.result calc in writer.write out (ck_a ∷ ck_b ∷ [])

  unfoldable pub create_packet : Builder → W → Result (Unit {0}) (MemWriterError E) × W
  create_packet p out =
      let n = payload_size p.fields in
      let (reserved, out0) = writer.reserve_allocate out (n + 8) in
      let behind = p.class ∷ p.id ∷ low_byte n ∷ high_byte n ∷ [] in
      let (answer, out1) = writer.write out0 (sync_char_1 ∷ sync_char_2 ∷ behind) in
      let calc = Checksum.update_fields Checksum.new behind in
      elim reserved [
        | err e ↦ (err e, out0)
        | ok u ↦ elim answer [
          | err e ↦ (err e, out1)
          | ok u ↦ write_checksum (write_fields calc p.fields out1)
        ]
      ]

-- For the packet whose last field is an iterator of configuration values. The bytes that are
-- appended one by one are appended here at once.
unfoldable pub extend_fields : List (List ℕ) → ℕ → List ℕ → ℕ × List ℕ
extend_fields [] len_bytes out = (len_bytes, out)
extend_fields (bytes ∷ fields) len_bytes out =
    extend_fields fields (len_bytes + length bytes) (out ++ bytes)

unfoldable pub extend_values : List CfgVal → ℕ → List ℕ → ℕ × List ℕ
extend_values [] len_bytes out = (len_bytes, out)
extend_values (value ∷ values) len_bytes out =
    let (n, out1) = Codec.extend_to value out in extend_values values (len_bytes + n) out1

unfoldable pub extend_to : Builder → List CfgVal → List ℕ → List ℕ
extend_to p values out =
    let header = sync_char_1 ∷ sync_char_2 ∷ p.class ∷ p.id ∷ 0 ∷ 0 ∷ [] in
    let (len_fields, out1) = extend_fields p.fields 0 (out ++ header) in
    let (len_bytes, out2) = extend_values values len_fields out1 in
    let out3 = set (set out2 4 (low_byte len_bytes)) 5 (high_byte len_bytes) in
    let (ck_a, ck_b) = ubx_checksum (drop 2 out3) in out3 ++ (ck_a ∷ ck_b ∷ [])

unfoldable pub into_packet_vec : Builder → List CfgVal → List ℕ
into_packet_vec p values = extend_to p values []
