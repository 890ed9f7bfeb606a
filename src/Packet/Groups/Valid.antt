-- ===== src/Packet/Groups/Valid.antt =====
-- The repeated groups of packets that `validate` accepts (ublox/src/ubx_packets/packets.rs).
use ublox.Prelude.{
  ℕ, suc, ◌/◌, ◌%◌, ◌^◌, ◌≤◌, ◌<◌, ◌≡◌, refl, subst, Option, none, some, List, [], ◌∷◌, length,
  drop, arith, slice, All, length-append, length-take, length-drop,
}
use ublox.Error.{ok}
use ublox.Buffer.Vector.{slice_index_lem}
use ublox.Cfg.Value.{from_le_bytes}
use ublox.Packet.Desc.{PackDesc, raw_field, next_off, validate}
use ublox.Packet.Table.Navigation2.{nav_sat}
use ublox.Packet.Table.Fusion.{esf_raw}
use ublox.Packet.Access.{
  raw_getter, raw_accessors, raw_accessor, raw_getters, off_behind, fns_behind,
}
use ublox.Packet.Build.Frames.{joined}
use ublox.Packet.Table.Receiver.{rxm_rawx, rxm_sfrbx}
use ublox.Packet.Groups.Good.{Good, Good-validate, check_value-multiple}
use ublox.Packet.Groups.{
  collect, new, next_sv_info, next_chunk, next_exact, next_dwrd, next_rawx_info, next_esf_raw,
  esf_raw_data, EsfRawData, EsfMeasData, esf_meas_data,
}
use ublox.Packet.Groups.Collect.{
  Splits, Splits-of_multiple, Converts, Converts-of_total, collect-next_exact, collect-next_chunk,
}

-- An accessor of an open field that is split into groups, and what its iterator collects.
abbrev pub Collects :
    {A : Type 0}
    → PackDesc
    → (i size : ℕ) → (List ℕ → Option A)
    → (List ℕ → Option (List A))
    → List ℕ
    → Type 0
Collects {A} d i size convert collected payload =
    (bytes : List ℕ) × (chunks : List (List ℕ)) × (items : List A) × (raw_accessor d i payload
      ≡ some bytes)
    × Splits size bytes chunks
    × Converts convert chunks items
    × (collected bytes ≡ some items)

pub length-chunks :
    (size : ℕ) (chunks : List (List ℕ))
    → 0 < size
    → All (λ c. length c ≡ size) chunks
    → length chunks ≤ length (joined chunks)
length-chunks size [] pos h = omega arith
length-chunks size (c ∷ chunks) pos h =
    omega (arith, length-append c (joined chunks), length-chunks size chunks pos h.1)

Converts-some : (chunks : List (List ℕ)) → Converts some chunks chunks
Converts-some [] = tt
Converts-some (c ∷ chunks) = (refl, Converts-some chunks)

-- A chunk of a known length is converted.
pub from_le_bytes-of_length : (c : List ℕ) → length c ≡ 4 → (n : ℕ) × (from_le_bytes 4 c ≡ some n)
unfolding from_le_bytes
from_le_bytes-of_length (a ∷ b ∷ c ∷ d ∷ []) e = (_, refl)
from_le_bytes-of_length (a ∷ b ∷ c ∷ d ∷ x ∷ xs) e = absurd (omega arith)
from_le_bytes-of_length (a ∷ b ∷ c ∷ []) e = absurd (omega arith)
from_le_bytes-of_length (a ∷ b ∷ []) e = absurd (omega arith)
from_le_bytes-of_length (a ∷ []) e = absurd (omega arith)
from_le_bytes-of_length [] e = absurd (omega arith)

pub esf_meas_data-total :
    (c : List ℕ) → length c ≡ 4 → (a : EsfMeasData) × (esf_meas_data c ≡ some a)
unfolding esf_meas_data
esf_meas_data-total c e =
    let (n, run) = from_le_bytes-of_length c e in
    (record { data_type = n / 2 ^ 24 % 2 ^ 6; data_field = n % 2 ^ 24 }, rw run refl)

esf_raw_data-total : (c : List ℕ) → length c ≡ 8 → (a : EsfRawData) × (esf_raw_data c ≡ some a)
unfolding esf_raw_data
esf_raw_data-total c e =
    let (n, run) = from_le_bytes-of_length (slice 0 4 c) (omega (arith, length-take 4 c)) in
    let (m, more) =
      from_le_bytes-of_length (slice 4 8 c)
        (omega (arith, length-take 4 (drop 4 c), length-drop 4 c)) in
    (
      record { data_type = n / 2 ^ 24 % 2 ^ 8; data_field = n % 2 ^ 24; sensor_time_tag = m },
      rw
          (
            slice_index_lem c 0 4 (omega arith) (omega arith),
            slice_index_lem c 4 8 (omega arith) (omega arith),
            run,
            more,
          )
          refl,
    )

-- An iterator over chunks of the bytes that an accessor reads.
Collects-exact :
    {A : Type 0} (d : PackDesc) (i size : ℕ) (convert : List ℕ → Option A) (payload bytes : List ℕ)
    → 0 < size
    → ((c : List ℕ) → length c ≡ size → (a : A) × (convert c ≡ some a))
    → raw_accessor d i payload ≡ some bytes
    → length bytes % size ≡ 0
    → Collects d i size convert
        (λ xs. collect (next_exact size convert) (suc (length xs)) xs)
        payload
Collects-exact d i size convert payload bytes pos total run multiple =
    let (chunks, splits) = Splits-of_multiple size bytes pos multiple in
    let (items, converts) = Converts-of_total size convert chunks total splits.1 in
    let collected : collect (next_exact size convert) (suc (length (joined chunks))) (joined chunks)
        ≡ some items =
      collect-next_exact size convert chunks items (suc (length (joined chunks))) pos splits.1
        converts (omega (arith, length-chunks size chunks pos splits.1)) in
    (
      bytes,
      chunks,
      items,
      run,
      splits,
      converts,
      subst (λ xs. collect (next_exact size convert) (suc (length xs)) xs ≡ some items) splits.0
          collected,
    )

-- For any payload that `NavSat` accepts: the accessor of the satellites does not panic, and the
-- iterator over its bytes ends without a panic after giving, in order, the groups of twelve bytes
-- that they are made of.
pub collect-svs :
    (payload : List ℕ)
    → validate nav_sat payload ≡ some (ok tt)
    → Collects nav_sat 4 12 some
        (λ bytes. collect next_sv_info (suc (length bytes)) (new bytes))
        payload
unfolding next_off raw_accessor raw_accessors raw_getters raw_getter off_behind fns_behind raw_field
    new next_sv_info
collect-svs payload e =
    let good : Good 0 (nav_sat.fields) payload = Good-validate nav_sat payload e in
    let (bytes, run, multiple) =
      check_value-multiple 12 (raw_field none 8 payload) good.1.1.1.1.0 in
    let (chunks, splits) = Splits-of_multiple 12 bytes (omega arith) multiple in
    let items : collect (next_chunk 12 some) (suc (length (joined chunks)))
          (record { bytes = joined chunks; offset = 0 })
        ≡ some chunks =
      collect-next_chunk 12 some chunks chunks [] _ (omega arith) splits.1 (Converts-some chunks)
        (omega (arith, length-chunks 12 chunks (omega arith) splits.1)) in
    (
      bytes,
      chunks,
      chunks,
      run,
      splits,
      Converts-some chunks,
      subst
          (λ xs.
            collect (next_chunk 12 some) (suc (length xs)) (record { bytes = xs; offset = 0 })
            ≡ some chunks)
          splits.0 items,
    )

-- For any payload that `EsfRaw` accepts: the accessor of the data does not panic, and the iterator
-- over its bytes ends without a panic after giving the data of each eight bytes, in order.
collect-esf_raw_data :
    (payload : List ℕ)
    → validate esf_raw payload ≡ some (ok tt)
    → Collects esf_raw 1 8 esf_raw_data
        (λ bytes. collect next_esf_raw (suc (length bytes)) bytes)
        payload
unfolding next_off raw_accessor raw_accessors raw_getters raw_getter off_behind fns_behind raw_field
    next_esf_raw
collect-esf_raw_data payload e =
    let good : Good 0 (esf_raw.fields) payload = Good-validate esf_raw payload e in
    let (bytes, run, multiple) = check_value-multiple 8 (raw_field none 4 payload) good.1.0 in
    Collects-exact esf_raw 1 8 esf_raw_data payload bytes (omega arith) esf_raw_data-total run
      multiple

pub collect-dwrd :
    (payload : List ℕ)
    → validate rxm_sfrbx payload ≡ some (ok tt)
    → Collects rxm_sfrbx 8 4
        (from_le_bytes 4)
        (λ bytes. collect next_dwrd (suc (length bytes)) bytes)
        payload
unfolding next_off raw_accessor raw_accessors raw_getters raw_getter off_behind fns_behind raw_field
    next_dwrd
collect-dwrd payload e =
    let good : Good 0 (rxm_sfrbx.fields) payload = Good-validate rxm_sfrbx payload e in
    let (bytes, run, multiple) =
      check_value-multiple 4 (raw_field none 8 payload) good.1.1.1.1.1.1.1.1.0 in
    Collects-exact rxm_sfrbx 8 4 (from_le_bytes 4) payload bytes (omega arith)
      from_le_bytes-of_length run multiple

pub collect-measurements :
    (payload : List ℕ)
    → validate rxm_rawx payload ≡ some (ok tt)
    → Collects rxm_rawx 7 32 some
        (λ bytes. collect next_rawx_info (suc (length bytes)) bytes)
        payload
unfolding next_off raw_accessor raw_accessors raw_getters raw_getter off_behind fns_behind raw_field
    next_rawx_info
collect-measurements payload e =
    let good : Good 0 (rxm_rawx.fields) payload = Good-validate rxm_rawx payload e in
    let (bytes, run, multiple) =
      check_value-multiple 32 (raw_field none 16 payload) good.1.1.1.1.1.1.1.0 in
    Collects-exact rxm_rawx 7 32 some payload bytes (omega arith) (λ c size. (c, refl)) run multiple
