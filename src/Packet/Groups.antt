-- ===== src/Packet/Groups.antt =====
-- Iterators over the repeated groups at the end of a packet (ublox/src/ubx_packets/packets.rs), and
-- the descriptions of the groups that are packets themselves. `none` is a panic.
pub mod Collect
pub mod Good
pub mod Valid
pub mod Measures
pub mod Strings
use ublox.Prelude.{
  ℕ, zero, suc, ◌+◌, ◌/◌, ◌%◌, ◌^◌, Option, none, some, List, [], ◌∷◌, length, take, drop, leb, ltb,
  ◌==◌, if◌then◌else◌, ◌>>=◌, position,
}
use ublox.Buffer.Vector.{slice_index}
use ublox.Cfg.Value.{from_le_bytes}
use ublox.Packet.Check.{utf8_from}
use ublox.Packet.Desc.{PackDesc, field, fixed}

-- What `next` returns: an item, or none at the end, and the iterator behind it.
abbrev pub Step : Type 0 → Type 0 → Type 0
Step S A = Option (Option A × S)

-- The items until the iterator ends; `none` also where the fuel does.
unfoldable pub collect : {S A : Type 0} → (S → Step S A) → ℕ → S → Option (List A)
collect next zero it = none
collect next (suc fuel) it = do
  (item, rest) ← next it
  elim item [
    | none ↦ some []
    | some value ↦ (do values ← collect next fuel rest; some (value ∷ values))
  ]

-- `NavSatIter` and `MonVerExtensionIter`
pub record OffsetIter : Type 0 where
  pub bytes : List ℕ
  pub offset : ℕ

unfoldable pub new : List ℕ → OffsetIter
new bytes = record { bytes = bytes; offset = 0 }

-- The two `next` differ by the size of the chunk, and by what they make of it.
unfoldable pub next_chunk : {A : Type 0} → ℕ → (List ℕ → Option A) → OffsetIter → Step OffsetIter A
next_chunk size convert it =
    if ltb it.offset (length it.bytes)
    then (do
      chunk ← slice_index it.bytes it.offset (it.offset + size)
      value ← convert chunk
      some (some value, record it { offset = it.offset + size }))
    else some (none, it)

-- `NavSatSvInfoRef` and `RxmRawxInfoRef` hold the bytes of one group.
abbrev nav_sat_sv_info : PackDesc
nav_sat_sv_info = record {
  name = "NavSatSvInfo";
  class = 0x1;
  id = 0x35;
  payload_len = fixed 12;
  fields =
      field "gnss_id" 1
      ∷ field "sv_id" 1
      ∷ field "cno" 1
      ∷ field "elev" 1
      ∷ field "azim" 2
      ∷ field "pr_res" 2
      ∷ field "flags" 4
      ∷ [];
}

abbrev rxm_rawx_info : PackDesc
rxm_rawx_info = record {
  name = "RxmRawxInfo";
  class = 0x2;
  id = 0x15;
  payload_len = fixed 32;
  fields =
      field "pr_mes" 8
      ∷ field "cp_mes" 8
      ∷ field "do_mes" 4
      ∷ field "gnss_id" 1
      ∷ field "sv_id" 1
      ∷ field "reserved2" 1
      ∷ field "freq_id" 1
      ∷ field "lock_time" 2
      ∷ field "cno" 1
      ∷ field "pr_stdev" 1
      ∷ field "cp_stdev" 1
      ∷ field "do_stdev" 1
      ∷ field "trk_stat" 1
      ∷ field "reserved3" 1
      ∷ [];
}

unfoldable pub next_sv_info : OffsetIter → Step OffsetIter (List ℕ)
next_sv_info it = next_chunk 12 some it

-- `mon_ver::convert_to_str_unchecked`: the bytes of the text before the first zero.
unfoldable pub convert_to_str_unchecked : List ℕ → Option (List ℕ)
convert_to_str_unchecked bytes = do
  null_pos ← position 0 bytes
  if utf8_from 0 0 0 (take null_pos bytes) then some (take null_pos bytes) else none

unfoldable pub next_extension : OffsetIter → Step OffsetIter (List ℕ)
next_extension it = next_chunk 30 convert_to_str_unchecked it

-- `core::slice::ChunksExact`: the state is what is ahead of it.
unfoldable pub next_exact : {A : Type 0} → ℕ → (List ℕ → Option A) → List ℕ → Step (List ℕ) A
next_exact size convert ahead =
    if leb size (length ahead)
    then (do value ← convert (take size ahead); some (some value, drop size ahead))
    else some (none, ahead)

pub record EsfMeasData : Type 0 where
  pub data_type : ℕ
  pub data_field : ℕ

-- `(data & 0x3F000000) >> 24` and `data & 0xFFFFFF`
unfoldable pub esf_meas_data : List ℕ → Option EsfMeasData
esf_meas_data chunk = do
  word ← from_le_bytes 4 chunk
  some (record { data_type = word / 2 ^ 24 % 2 ^ 6; data_field = word % 2 ^ 24 })

unfoldable pub next_esf_meas : List ℕ → Step (List ℕ) EsfMeasData
next_esf_meas ahead = next_exact 4 esf_meas_data ahead

pub record EsfRawData : Type 0 where
  pub data_type : ℕ
  pub data_field : ℕ
  pub sensor_time_tag : ℕ

unfoldable pub esf_raw_data : List ℕ → Option EsfRawData
esf_raw_data chunk = do
  first ← slice_index chunk 0 4
  word ← from_le_bytes 4 first
  second ← slice_index chunk 4 8
  tag ← from_le_bytes 4 second
  some (record {
    data_type = word / 2 ^ 24 % 2 ^ 8;
    data_field = word % 2 ^ 24;
    sensor_time_tag = tag;
  })

unfoldable pub next_esf_raw : List ℕ → Step (List ℕ) EsfRawData
next_esf_raw ahead = next_exact 8 esf_raw_data ahead

unfoldable pub next_dwrd : List ℕ → Step (List ℕ) ℕ
next_dwrd ahead = next_exact 4 (from_le_bytes 4) ahead

unfoldable pub next_rawx_info : List ℕ → Step (List ℕ) (List ℕ)
next_rawx_info ahead = next_exact 32 some ahead

-- `EsfMeas::calib_tag`: `try_into` for an array of four bytes
unfoldable pub calib_tag : List ℕ → Option ℕ
calib_tag bytes = if length bytes == 4 then from_le_bytes 4 bytes else none
