-- ===== src/Packet/Groups/Strings.antt =====
-- The texts of `MonVer` (ublox/src/ubx_packets/packets.rs): they are not read before they are found
-- valid.
use ublox.Prelude.{
  ℕ, zero, suc, ◌≡◌, subst, none, some, List, [], ◌∷◌, length, take, true, arith, All, inl, inr,
  Option-cases, position, take-append_exact, drop-append_exact, sym, ap, ap₂, ◌∙◌, ◌&&◌,
}
use ublox.Error.{ok}
use ublox.Packet.Check.{is_cstr_valid, chunks_valid}
use ublox.Packet.Desc.{validate, raw_field, next_off}
use ublox.Packet.Table.Other.{mon_ver}
use ublox.Packet.Build.Frames.{joined}
use ublox.Packet.Access.{
  raw_accessors, raw_accessor, raw_getters, raw_getter, off_behind, fns_behind,
}
use ublox.Packet.Groups.{collect, new, next_chunk, next_extension, convert_to_str_unchecked}
use ublox.Packet.Groups.Collect.{Splits-of_multiple, Converts, collect-next_chunk}
use ublox.Packet.Groups.Good.{Good, Good-validate, check_value-cstr, check_value-cstr_chunks}
use ublox.Packet.Groups.Valid.{Collects, length-chunks}

-- Text that is valid is converted.
convert_to_str_unchecked-valid :
    (bytes : List ℕ)
    → is_cstr_valid bytes ≡ true
    → (text : List ℕ) × (convert_to_str_unchecked bytes ≡ some text)
unfolding convert_to_str_unchecked is_cstr_valid
convert_to_str_unchecked-valid bytes e = elim (Option-cases (position 0 bytes)) [
  | inl p ↦ absurd (ground arith)
  | inr (i, p) ↦ (take i bytes, ground arith)
]

Converts-chunks_valid :
    (size fuel : ℕ) (chunks : List (List ℕ))
    → All (λ c. length c ≡ suc size) chunks
    → chunks_valid (suc size) fuel (joined chunks) ≡ true
    → (texts : List (List ℕ)) × Converts convert_to_str_unchecked chunks texts
unfolding chunks_valid
Converts-chunks_valid size fuel [] h e = ([], tt)
Converts-chunks_valid size fuel ([] ∷ chunks) h e = absurd (omega arith)
Converts-chunks_valid size zero ((b ∷ bytes) ∷ chunks) h e = absurd (ground arith)
Converts-chunks_valid size (suc fuel) ((b ∷ bytes) ∷ chunks) h e =
    let first = take-append_exact (suc size) (b ∷ bytes) (joined chunks) (sym h.0) in
    let behind = drop-append_exact (suc size) (b ∷ bytes) (joined chunks) (sym h.0) in
    let both : is_cstr_valid (b ∷ bytes) && chunks_valid (suc size) fuel (joined chunks) ≡ true =
      ap₂ (λ xs ys. is_cstr_valid xs && chunks_valid (suc size) fuel ys) (sym first) (sym behind)
      ∙ e in
    let (text, run) = convert_to_str_unchecked-valid (b ∷ bytes) (ground arith) in
    let (texts, more) = Converts-chunks_valid size fuel chunks h.1 (ground arith) in
    (text ∷ texts, (run, more))

-- For any payload that `MonVer` accepts, neither the accessors of the two versions nor those of the
-- extensions panic, and both versions and, by the iterator, each extension of thirty bytes are
-- converted to text without a panic.
pub collect-mon_ver :
    (payload : List ℕ)
    → validate mon_ver payload ≡ some (ok tt)
    → (software : List ℕ) × (hardware : List ℕ) × (version : List ℕ) × (board : List ℕ)
      × (raw_accessor mon_ver 0 payload ≡ some software)
      × (convert_to_str_unchecked software ≡ some version)
      × (raw_accessor mon_ver 1 payload ≡ some hardware)
      × (convert_to_str_unchecked hardware ≡ some board)
      × Collects mon_ver 2 30 convert_to_str_unchecked
          (λ bytes. collect next_extension (suc (length bytes)) (new bytes))
          payload
unfolding next_off raw_accessor raw_accessors raw_getters raw_getter off_behind fns_behind raw_field
    new next_extension
collect-mon_ver payload e =
    let good : Good 0 (mon_ver.fields) payload = Good-validate mon_ver payload e in
    let (software, run0, valid0) = check_value-cstr (raw_field (some 30) 0 payload) good.0 in
    let (hardware, run1, valid1) = check_value-cstr (raw_field (some 10) 30 payload) good.1.0 in
    let (bytes, run, multiple, valid) =
      check_value-cstr_chunks 30 (raw_field none 40 payload) good.1.1.0 in
    let (version, text0) = convert_to_str_unchecked-valid software valid0 in
    let (board, text1) = convert_to_str_unchecked-valid hardware valid1 in
    let (chunks, (whole, sizes)) = Splits-of_multiple 30 bytes (omega arith) multiple in
    let (texts, converts) =
      Converts-chunks_valid 29 (length bytes) chunks sizes
        (subst (λ xs. chunks_valid 30 (length bytes) xs ≡ true) (sym whole) valid) in
    let collected : collect (next_chunk 30 convert_to_str_unchecked) (suc (length bytes))
          (record { bytes = joined chunks; offset = 0 })
        ≡ some texts =
      collect-next_chunk 30 convert_to_str_unchecked chunks texts [] (suc (length bytes))
        (omega arith) sizes converts
        (omega (arith, length-chunks 30 chunks (omega arith) sizes, ap length whole)) in
    (
      software,
      hardware,
      version,
      board,
      run0,
      text0,
      run1,
      text1,
      (
        bytes,
        chunks,
        texts,
        run,
        (whole, sizes),
        converts,
        subst
            (λ xs.
              collect (next_chunk 30 convert_to_str_unchecked) (suc (length bytes))
                (record { bytes = xs; offset = 0 })
              ≡ some texts)
            whole collected,
      ),
    )
