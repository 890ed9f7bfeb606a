-- ===== src/Tests/Access.antt =====
-- Instances for the accessors of packets and the iterators over groups, and for writers.
use ublox.Prelude.{
  ℕ, ◌≡◌, ◌≢◌, ◌⊎◌, refl, sym, ap, ◌∙◌, true, false, zero, Option, none, some, get_elem?, ◌>>=◌,
  List, [], ◌∷◌, ◌++◌, arith, position, suc, length, leb, if◌then◌else◌, take, drop, ◌-◌,
  Bool-cases, inl, inr, take-append-drop,
}
use mathlib.Core.List.{Memᴰ}
use mathlib.Core.List.Memᴰ.{head, tail}
use ublox.Error.{Result, ok, err, MemWriterError, not_enough_mem}
use ublox.Buffer.Vector.{Vector, vector_buffer, slice_index}
use ublox.Cfg.Value.{from_le_bytes, to_le_bytes}
use ublox.Parser.{Parser}
use ublox.Session.{receive_all}
use ublox.Frame.{frame}
use ublox.Packet.Build
use ublox.Packet.Build.{Builder, MemWriter, create_packet, field_bytes}
use ublox.Packet.Build.Frames.{joined}
use ublox.Packet.Build.Writers.{WriterLaws, Wrote, Wrote-create_packet}
use ublox.Packet.Check.{is_valid, is_cstr_valid, chunks_valid, one_of_values, utf8_from, utf8_lead}
use ublox.Packet.Desc.{
  packet_payload_size, validate, validate_by, validate_fields, fields_size, check_value, next_off,
  raw_field, size_fns, size_of, sum_of_size_fns, min_size, except_last,
  packet_payload_size_except_last_field, unwrap_or_default, packet_payload_size_except_size_fn,
  without_size_fn,
}
use ublox.Packet.Table.{all_packets}
use ublox.Packet.Table.Settings.{cfg_itfm, cfg_prt_uart}
use ublox.Packet.Table.Navigation2.{nav_sat}
use ublox.Packet.Table.Fusion.{esf_meas}
use ublox.Packet.Table.Other.{mon_ver}
use ublox.Packet.Match.{known}
use ublox.Packet.Match.Sizes.{max_payload_len_lem}
use ublox.Packet.Parse.{default, ublox_packets}
use ublox.Packet.Access.{read_all, raw_accessors, raw_accessor, accessors}
use ublox.Packet.Access.Values.{Gives}
use ublox.Fields.Uart.{UartMode, uart_mode_from, data_bits_from}
use ublox.Fields.Interference.{
  CfgItfmConfig, CfgItfmConfig2, config_from, config2_from, config_raw, config2_raw, new_config,
  new_config2, active, bb_threshold_raw, cw_threshold_raw, algo_bits_raw, general_bits_raw,
  antenna_raw,
}
use ublox.Packet.Access.Whole.{read_all-whole}
use ublox.Packet.Access.Built.{HasSizes, same_id, builder, receive_all-built}
use ublox.Packet.Groups.{collect, new, next_sv_info, next_extension, convert_to_str_unchecked}
use ublox.Packet.Groups.Valid.{Collects, collect-svs}
use ublox.Packet.Groups.Measures.{Measured, Measured-validate}
use ublox.Packet.Groups.Strings.{collect-mon_ver}

abbrev itfm_bytes : List ℕ
itfm_bytes = 0xf3 ∷ 0xac ∷ 0x62 ∷ 0xad ∷ 0x1f ∷ 0x03 ∷ 0 ∷ 0 ∷ []

itfm_valid : validate cfg_itfm itfm_bytes ≡ some (ok tt)
unfolding validate validate_by packet_payload_size fields_size validate_fields check_value next_off
    raw_field slice_index is_valid
itfm_valid = refl

-- What the two `from` of the settings make of their words.
abbrev itfm_from : List (List ℕ → Option (CfgItfmConfig ⊎ CfgItfmConfig2))
itfm_from =
    (λ bytes. do word ← from_le_bytes 4 bytes; some (inl (config_from word)))
    ∷ (λ bytes. do word ← from_le_bytes 4 bytes; some (inr (config2_from word)))
    ∷ []

abbrev itfm_into : CfgItfmConfig ⊎ CfgItfmConfig2 → List ℕ
itfm_into (inl c) = to_le_bytes 4 (config_raw c)
itfm_into (inr c) = to_le_bytes 4 (config2_raw c)

abbrev itfm_values : List (CfgItfmConfig ⊎ CfgItfmConfig2)
itfm_values = inl (new_config true 3 15) ∷ inr (new_config2 active false) ∷ []

abbrev itfm_fields : List (List ℕ)
itfm_fields = field_bytes (itfm_into ∷ itfm_into ∷ []) itfm_values

itfm_sizes : HasSizes cfg_itfm.fields itfm_fields
unfolding field_bytes to_le_bytes
itfm_sizes = (refl, (refl, tt))

-- The bytes of the settings: the antenna stands over the lowest of the general bits.
itfm_run : joined itfm_fields ≡ itfm_bytes
unfolding field_bytes to_le_bytes config_raw new_config bb_threshold_raw cw_threshold_raw
    algo_bits_raw config2_raw new_config2 general_bits_raw antenna_raw
itfm_run = refl

itfm_only : same_id all_packets 0x6 0x39 ≡ cfg_itfm ∷ []
itfm_only = refl

receive_all-built_example :
    (after : Parser Vector) × (receive_all vector_buffer ublox_packets default
        (Build.into_packet_bytes (builder cfg_itfm itfm_fields) ∷ [])
      ≡ some (ok (known cfg_itfm (joined itfm_fields)) ∷ [], after))
    × Gives (accessors itfm_from cfg_itfm) itfm_from (joined itfm_fields) itfm_fields
    × (after.buf ≡ [])
receive_all-built_example =
    receive_all-built (itfm_into ∷ itfm_into ∷ []) itfm_from cfg_itfm itfm_values itfm_only
      itfm_sizes (ap (validate cfg_itfm) itfm_run ∙ itfm_valid)
      (omega (arith, max_payload_len_lem, ap length itfm_run))

-- `NavSat` with one satellite.
abbrev sat_bytes : List ℕ
sat_bytes = 0 ∷ 0 ∷ 0 ∷ 0 ∷ 1 ∷ 1 ∷ 0 ∷ 0 ∷ 0 ∷ 5 ∷ 40 ∷ 60 ∷ 9 ∷ 0 ∷ 0 ∷ 0 ∷ 8 ∷ 0 ∷ 0 ∷ 0 ∷ []

sat_valid : validate nav_sat sat_bytes ≡ some (ok tt)
unfolding validate validate_by packet_payload_size fields_size validate_fields check_value next_off
    raw_field slice_index is_valid min_size except_last sum_of_size_fns size_fns
    packet_payload_size_except_last_field
sat_valid = refl

-- The mode zero, of five data bits: the packet is accepted, and the accessor of the mode panics.
abbrev port_bytes : List ℕ
port_bytes = 1 ∷ 0 ∷ 0 ∷ 0 ∷ 0 ∷ 0 ∷ 0 ∷ 0 ∷ 0 ∷ 0 ∷ 0 ∷ 0 ∷ 0 ∷ 0 ∷ 0 ∷ 0 ∷ 0 ∷ 0 ∷ 0 ∷ 0 ∷ []

port_valid : validate cfg_prt_uart port_bytes ≡ some (ok tt)
unfolding validate validate_by packet_payload_size fields_size validate_fields check_value next_off
    raw_field slice_index is_valid one_of_values
port_valid = refl

abbrev mode_from : List ℕ → Option (List ℕ ⊎ UartMode)
mode_from bytes = do word ← from_le_bytes 4 bytes; mode ← uart_mode_from word; some (inr mode)

abbrev same_bytes : List ℕ → Option (List ℕ ⊎ UartMode)
same_bytes bytes = some (inl bytes)

abbrev port_from : List (List ℕ → Option (List ℕ ⊎ UartMode))
port_from =
    same_bytes ∷ same_bytes ∷ same_bytes ∷ mode_from ∷ same_bytes ∷ same_bytes ∷ same_bytes
    ∷ same_bytes ∷ same_bytes ∷ []

mode_panics : mode_from (0 ∷ 0 ∷ 0 ∷ 0 ∷ []) ≡ none
unfolding from_le_bytes uart_mode_from data_bits_from
mode_panics = refl

at_index : {A : Type 0} (xs : List A) (i : ℕ) {x : A} → get_elem? xs i ≡ some x → Memᴰ x xs
at_index [] i e = cc
at_index (y ∷ xs) zero e = head (sym cc)
at_index (y ∷ xs) (suc i) e = tail (at_index xs i e)

uart-Memᴰ : Memᴰ cfg_prt_uart all_packets
uart-Memᴰ = at_index all_packets 23 refl

read_all-whole_example :
    (vals : List (List ℕ)) × (rest : List ℕ) × (read_all (raw_accessors cfg_prt_uart) port_bytes
      ≡ some vals)
    × Gives (accessors port_from cfg_prt_uart) port_from port_bytes vals
    × (joined vals ++ rest ≡ port_bytes)
    × ((rest ≡ []) ⊎ (size_fns cfg_prt_uart.fields ≢ []))
read_all-whole_example = read_all-whole port_from cfg_prt_uart port_bytes uart-Memᴰ port_valid

collect-svs_example :
    Collects nav_sat 4 12 some
      (λ bytes. collect next_sv_info (suc (length bytes)) (new bytes))
      sat_bytes
collect-svs_example = collect-svs sat_bytes sat_valid

-- `EsfMeas` with one datum and a tag.
abbrev meas_bytes : List ℕ
meas_bytes = 0 ∷ 0 ∷ 0 ∷ 0 ∷ 8 ∷ 8 ∷ 0 ∷ 0 ∷ 1 ∷ 2 ∷ 3 ∷ 5 ∷ 9 ∷ 0 ∷ 0 ∷ 0 ∷ []

meas_valid : validate esf_meas meas_bytes ≡ some (ok tt)
unfolding validate validate_by packet_payload_size fields_size validate_fields check_value next_off
    raw_field slice_index is_valid min_size except_last sum_of_size_fns size_fns size_of
    from_le_bytes unwrap_or_default packet_payload_size_except_size_fn without_size_fn
meas_valid = refl

Measured-validate_example : Measured meas_bytes
Measured-validate_example = Measured-validate meas_bytes meas_valid

-- `MonVer` with "A", "B" and no extension.
abbrev ver_bytes : List ℕ
ver_bytes =
    0x41 ∷ 0 ∷ 0 ∷ 0 ∷ 0 ∷ 0 ∷ 0 ∷ 0 ∷ 0 ∷ 0 ∷ 0 ∷ 0 ∷ 0 ∷ 0 ∷ 0 ∷ 0 ∷ 0 ∷ 0 ∷ 0 ∷ 0 ∷ 0 ∷ 0 ∷ 0 ∷ 0
    ∷ 0 ∷ 0 ∷ 0 ∷ 0 ∷ 0 ∷ 0 ∷ 0x42 ∷ 0 ∷ 0 ∷ 0 ∷ 0 ∷ 0 ∷ 0 ∷ 0 ∷ 0 ∷ 0 ∷ []

ver_valid : validate mon_ver ver_bytes ≡ some (ok tt)
unfolding validate validate_by packet_payload_size fields_size validate_fields check_value next_off
    raw_field slice_index is_valid is_cstr_valid chunks_valid utf8_from utf8_lead position min_size
    except_last sum_of_size_fns size_fns packet_payload_size_except_last_field
ver_valid = refl

collect-mon_ver_example :
    (software : List ℕ) × (hardware : List ℕ) × (version : List ℕ) × (board : List ℕ)
    × (raw_accessor mon_ver 0 ver_bytes ≡ some software)
    × (convert_to_str_unchecked software ≡ some version)
    × (raw_accessor mon_ver 1 ver_bytes ≡ some hardware)
    × (convert_to_str_unchecked hardware ≡ some board)
    × Collects mon_ver 2 30 convert_to_str_unchecked
        (λ bytes. collect next_extension (suc (length bytes)) (new bytes))
        ver_bytes
collect-mon_ver_example = collect-mon_ver ver_bytes ver_valid

-- A writer with room for ten bytes, which writes what fits.
abbrev room : ℕ
room = 10

unfoldable write_ten : List ℕ → List ℕ → Result (Unit {0}) (MemWriterError ℕ) × List ℕ
write_ten out bytes =
    if leb (length (out ++ bytes)) room
    then (ok tt, out ++ bytes)
    else (err not_enough_mem, out ++ take (room - length out) bytes)

abbrev ten_writer : MemWriter (List ℕ) ℕ
ten_writer = record { reserve_allocate = λ out n. (ok tt, out); write = write_ten }

Wrote-write_ten : (out bytes : List ℕ) → Wrote (λ xs. xs) out bytes (write_ten out bytes)
unfolding write_ten
Wrote-write_ten out bytes = elim (Bool-cases (leb (length (out ++ bytes)) room)) [
  | inl fits ↦ rw fits refl
  | inr full ↦
      let k = room - length out in
      rw full (take k bytes, drop k bytes, take-append-drop k bytes, refl)
]

abbrev ten_laws : WriterLaws ten_writer
ten_laws = record {
  contents = λ out. out;
  contents-reserve_allocate = λ out n. refl;
  Wrote-write = Wrote-write_ten;
}

abbrev itfm_builder : Builder
itfm_builder = builder cfg_itfm ((1 ∷ 2 ∷ 3 ∷ 4 ∷ []) ∷ (5 ∷ 6 ∷ 7 ∷ 8 ∷ []) ∷ [])

-- The second field does not fit.
Wrote-create_packet_example :
    Wrote
      (λ out. out)
      []
      (frame 0x6 0x39 (1 ∷ 2 ∷ 3 ∷ 4 ∷ 5 ∷ 6 ∷ 7 ∷ 8 ∷ []))
      (create_packet ten_writer itfm_builder [])
Wrote-create_packet_example = Wrote-create_packet ten_laws itfm_builder []
