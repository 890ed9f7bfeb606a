-- ===== src/Fields/Flags.antt =====
-- `#[ubx_extend_bitflags]` (`generate_code_to_extend_bitflags` in ublox_derive/src/output.rs): the
-- flags of the struct that it makes, and the conversions. `none` is a panic.
pub mod Table
pub mod Laws
pub mod Powers
use Prim.Native.Nat.{bit_or}
use Prim.Native.String.{String}
use ublox.Prelude.{
  ℕ, zero, suc, ◌+◌, ◌*◌, ◌^◌, Option, none, some, List, [], ◌∷◌, length, ◌==◌, ltb, if◌then◌else◌,
}
use ublox.Error.{Result, ok, err}
use ublox.Fields.Enums.{
  UbxTypeFromFn, from, from_unchecked, UbxEnumRestHandling, rest_reserved, rest_error,
}

pub record BitFlagsMacroItem : Type 0 where
  pub name : String
  pub value : ℕ

abbrev pub item : String → ℕ → BitFlagsMacroItem
item name value = record { name = name; value = value }

pub record BitFlagsMacro : Type 0 where
  pub nbits : ℕ
  pub name : String
  pub consts : List BitFlagsMacroItem
  pub from_fn : Option UbxTypeFromFn
  pub rest_handling : Option UbxEnumRestHandling

-- `const NAME = 1 << bit` for a flag of the source, and `const RESERVED{bit} = 1 << bit`.
pub data Flag : Type 0 where
  known : String → ℕ → Flag
  reserved : ℕ → Flag

unfoldable pub flag_bit : Flag → ℕ
flag_bit (known name bit) = bit
flag_bit (reserved bit) = bit

-- `find(|x| x.value == flag_bit)`
unfoldable pub find_const : List BitFlagsMacroItem → ℕ → Option BitFlagsMacroItem
find_const [] value = none
find_const (c ∷ consts) value = if c.value == value then some c else find_const consts value

unfoldable pub flag_for : Option BitFlagsMacroItem → ℕ → Flag
flag_for none bit = reserved bit
flag_for (some c) bit = known c.name bit

-- The loop over `bit..nbits` with that many rounds.
unfoldable pub flags_from : List BitFlagsMacroItem → ℕ → ℕ → List Flag
flags_from consts bit zero = []
flags_from consts bit (suc rounds) =
    flag_for (find_const consts (2 ^ bit)) bit ∷ flags_from consts (bit + 1) rounds

-- `known_flags.len()`: the bits of the loop that a const has.
unfoldable pub known_flags : List BitFlagsMacroItem → ℕ → ℕ → ℕ
known_flags consts bit zero = 0
known_flags consts bit (suc rounds) =
    let rest = known_flags consts (bit + 1) rounds in
    elim (find_const consts (2 ^ bit)) [ none ↦ rest | some c ↦ suc rest ]

pub data FlagsError : Type 0 where
  only_reserved strange_flags : FlagsError

unfoldable pub check_flags : BitFlagsMacro → Result (List Flag) FlagsError
check_flags b =
    if known_flags b.consts 0 b.nbits == length b.consts
    then ok (flags_from b.consts 0 b.nbits)
    else err strange_flags

-- `unimplemented!()` for `from_unchecked`
unfoldable pub with_from :
    Option UbxTypeFromFn → Result (List Flag) FlagsError → Option (Result (List Flag) FlagsError)
with_from from_fn (err e) = some (err e)
with_from none (ok flags) = some (ok flags)
with_from (some from) (ok flags) = some (ok flags)
with_from (some from_unchecked) (ok flags) = none

-- `1u64.checked_shl(bit).unwrap()` panics in the loop where there are more than 64 bits.
unfoldable pub extend : BitFlagsMacro → Option (Result (List Flag) FlagsError)
extend b = elim b.rest_handling [
  | none ↦ some (err only_reserved)
  | some rest_error ↦ some (err only_reserved)
  | some rest_reserved ↦ if ltb 64 b.nbits then none else with_from b.from_fn (check_flags b)
]

-- The bits of all flags: `all()` of bitflags.
unfoldable pub all_bits : List Flag → ℕ → ℕ
all_bits [] bits = bits
all_bits (f ∷ flags) bits = all_bits flags (bit_or (1 * 2 ^ flag_bit f) bits)

-- `from`, with `from_bits_truncate` of bitflags, which takes the bits of all flags and a word, and
-- `into_raw` of the result.
unfoldable pub from_raw : (ℕ → ℕ → ℕ) → List Flag → ℕ → ℕ
from_raw from_bits_truncate flags x = from_bits_truncate (all_bits flags 0) x
