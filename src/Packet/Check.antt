-- ===== src/Packet/Check.antt =====
-- The functions that say whether a field's bytes are valid (`is_valid` in
-- ublox/src/ubx_packets/packets.rs, and those that ublox_derive/src/output.rs makes for enums).
use ublox.Prelude.{
  ℕ, zero, suc, ◌%◌, Option, none, some, List, [], ◌∷◌, length, take, drop, Bool, true, false, leb,
  ltb, ◌==◌, ◌&&◌, if◌then◌else◌, position,
}

-- A byte that begins a character of UTF-8: how many bytes follow, and between which the next is.
unfoldable pub utf8_lead : ℕ → Option (ℕ × ℕ × ℕ)
utf8_lead b =
    if ltb b 0x80
    then some (0, 0, 0)
    else if ltb b 0xc2
    then none
    else if ltb b 0xe0
    then some (1, 0x80, 0xbf)
    else if b == 0xe0
    then some (2, 0xa0, 0xbf)
    else if b == 0xed
    then some (2, 0x80, 0x9f)
    else if ltb b 0xf0
    then some (2, 0x80, 0xbf)
    else if b == 0xf0
    then some (3, 0x90, 0xbf)
    else if ltb b 0xf4
    then some (3, 0x80, 0xbf)
    else if b == 0xf4
    then some (3, 0x80, 0x8f)
    else none

-- `core::str::from_utf8(..).is_ok()`, where `pending` bytes of a character are to come.
unfoldable pub utf8_from : ℕ → ℕ → ℕ → List ℕ → Bool
utf8_from zero lo hi [] = true
utf8_from (suc pending) lo hi [] = false
utf8_from zero lo hi (b ∷ bytes) = elim (utf8_lead b) [
  | none ↦ false
  | some (pending, from, to) ↦ utf8_from pending from to bytes
]
utf8_from (suc pending) lo hi (b ∷ bytes) =
    let rest = utf8_from pending 0x80 0xbf bytes in leb lo b && (leb b hi && rest)

-- `mon_ver::is_cstr_valid`
unfoldable pub is_cstr_valid : List ℕ → Bool
is_cstr_valid bytes = elim (position 0 bytes) [
  | none ↦ false
  | some null_pos ↦ utf8_from 0 0 0 (take null_pos bytes)
]

-- `payload.chunks(size).all(is_cstr_valid)`, on fuel: each chunk takes a byte at least.
unfoldable pub chunks_valid : ℕ → ℕ → List ℕ → Bool
chunks_valid size fuel [] = true
chunks_valid size zero (b ∷ bytes) = false
chunks_valid size (suc fuel) (b ∷ bytes) =
    let rest = chunks_valid size fuel (drop size (b ∷ bytes)) in
    is_cstr_valid (take size (b ∷ bytes)) && rest

-- An enum's `is_valid` for the value of a field.
unfoldable pub one_of_values : ℕ → List ℕ → Bool
one_of_values n [] = false
one_of_values n (value ∷ values) = if n == value then true else one_of_values n values

-- How a field is validated, if it is: `no_check` where it may not fail.
pub data IsValidFn : Type 0 where
  no_check : IsValidFn
  one_of : List ℕ → IsValidFn
  cstr : IsValidFn
  any_bytes : IsValidFn
  multiple_of : ℕ → IsValidFn
  cstr_chunks : ℕ → IsValidFn

-- An enum's value is the one byte of its field.
unfoldable pub is_valid : IsValidFn → List ℕ → Bool
unfolding one_of_values chunks_valid
is_valid no_check bytes = true
is_valid (one_of values) (b ∷ []) = one_of_values b values
is_valid (one_of values) [] = false
is_valid (one_of values) (b ∷ c ∷ bytes) = false
is_valid cstr bytes = is_cstr_valid bytes
is_valid any_bytes bytes = true
is_valid (multiple_of n) bytes = length bytes % n == 0
is_valid (cstr_chunks n) bytes = length bytes % n == 0 && chunks_valid n (length bytes) bytes
