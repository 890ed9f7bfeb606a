-- ===== src/Fields/Enums.antt =====
-- `#[ubx_extend]` on an enum (`generate_code_to_extend_enum` in ublox_derive/src/output.rs): the
-- functions that it makes. `none` is a panic.
pub mod Table
pub mod Laws
pub mod Accessors
use ublox.Prelude.{
  ℕ, zero, suc, ◌+◌, Option, none, some, List, [], ◌∷◌, ◌++◌, Bool, true, false, ◌==◌,
  if◌then◌else◌,
}
use Prim.Native.String.{String}

-- `Reserved{i}` is made by the macro.
pub data Variant : Type 0 where
  named : String → ℕ → Variant
  reserved : ℕ → Variant

pub data UbxTypeFromFn : Type 0 where
  from from_unchecked : UbxTypeFromFn

pub data UbxEnumRestHandling : Type 0 where
  rest_reserved rest_error : UbxEnumRestHandling

pub record UbxExtendEnum : Type 0 where
  pub name : String
  pub from_fn : Option UbxTypeFromFn
  pub rest_handling : Option UbxEnumRestHandling
  pub variants : List Variant

-- `self as u8`
unfoldable pub into_raw : Variant → ℕ
into_raw (named name value) = value
into_raw (reserved value) = value

unfoldable pub is_defined : List Variant → ℕ → Bool
is_defined [] i = false
is_defined (v ∷ variants) i = if into_raw v == i then true else is_defined variants i

-- The loop over `i..=255` with that many rounds.
unfoldable pub rest_from : List Variant → ℕ → ℕ → List Variant
rest_from defined i zero = []
rest_from defined i (suc rounds) =
    let rest = rest_from defined (i + 1) rounds in
    if is_defined defined i then rest else reserved i ∷ rest

unfoldable pub all_variants : UbxExtendEnum → List Variant
all_variants e = elim e.rest_handling [
  | some rest_reserved ↦ e.variants ++ rest_from e.variants 0 256
  | some rest_error ↦ e.variants
  | none ↦ e.variants
]

-- The asserts on the attributes of the enum.
unfoldable pub can_generate : Option UbxTypeFromFn → Option UbxEnumRestHandling → Bool
can_generate (some from) (some rest_error) = false
can_generate (some from) (some rest_reserved) = true
can_generate (some from) none = true
can_generate (some from_unchecked) (some rest_reserved) = false
can_generate (some from_unchecked) (some rest_error) = true
can_generate (some from_unchecked) none = true
can_generate none rest = true

-- The arms of the match, `value => Name::Variant`.
unfoldable pub match_value : List Variant → ℕ → Option Variant
match_value [] x = none
match_value (v ∷ variants) x = if x == into_raw v then some v else match_value variants x

-- `from`, and `from_unchecked`, which ends in `unreachable!()`.
unfoldable pub from_byte : UbxExtendEnum → ℕ → Option Variant
from_byte e x = match_value (all_variants e) x

unfoldable pub is_valid_byte : UbxExtendEnum → ℕ → Bool
is_valid_byte e x = is_defined (all_variants e) x
