-- ===== src/Cfg/Value/RoundTrip.antt =====
-- Bytes of values and back (ublox/src/ubx_packets/cfg_val.rs).
use ublox.Prelude.{
  ℕ, zero, suc, ◌-◌, ◌*◌, ◌/◌, ◌^◌, ◌<◌, ◌≡◌, refl, ap, some, List, ◌++◌, length, true, false, ltb,
  arith,
}
use ublox.Cfg.Value.{
  CfgType, bool, u8, u16, i16, u32, u64, cfg_inf_mask, data_bits, parity, stop_bits,
  alignment_to_reference_time, tp_pulse, tp_pulse_length, odo_profile, ℤ, pos, negsuc, Value, seven,
  eight, even, odd, none_parity, one, one_half, two, half, utc, gps, glo, bds, gal, period, freq,
  ratio, pulse_length, running, cycling, swimming, car, custom, to_le_bytes, from_le_bytes,
  bits_of_i16, i16_of_bits, bool_of_byte, data_bits_of_byte, parity_of_byte, stop_bits_of_byte,
  alignment_of_byte, tp_pulse_of_byte, tp_pulse_length_of_byte, odo_profile_of_byte,
  from_cfg_v_bytes, value_bytes,
}

-- How many numbers so many bytes can hold.
abbrev pub values_of : ℕ → ℕ
values_of zero = 1
values_of (suc size) = 256 * values_of size

-- An integer is read back from its bytes.
pub from_le_bytes-to_le_bytes :
    (size n : ℕ) (rest : List ℕ)
    → n < values_of size
    → from_le_bytes size (to_le_bytes size n ++ rest) ≡ some n
unfolding from_le_bytes to_le_bytes
from_le_bytes-to_le_bytes zero n rest h = ap some (omega arith)
from_le_bytes-to_le_bytes (suc size) n rest h =
    rw (from_le_bytes-to_le_bytes size (n / 256) rest (omega arith)) (ap some (omega arith))

pub length-to_le_bytes : (size n : ℕ) → length (to_le_bytes size n) ≡ size
unfolding to_le_bytes
length-to_le_bytes zero n = refl
length-to_le_bytes (suc size) n = ap suc (length-to_le_bytes size (n / 256))

-- A value of the Rust type.
abbrev pub IsValue : (ty : CfgType) → Value ty → Type 0
IsValue u8 v = v < 2 ^ 8
IsValue u16 v = v < 2 ^ 16
IsValue i16 (pos n) = n < 2 ^ 15
IsValue i16 (negsuc n) = n < 2 ^ 15
IsValue u32 v = v < 2 ^ 32
IsValue u64 v = v < 2 ^ 64
IsValue cfg_inf_mask v = v < 2 ^ 8
IsValue bool v = Unit
IsValue data_bits v = Unit
IsValue parity v = Unit
IsValue stop_bits v = Unit
IsValue alignment_to_reference_time v = Unit
IsValue tp_pulse v = Unit
IsValue tp_pulse_length v = Unit
IsValue odo_profile v = Unit

i16_of_bits-bits_of_i16 : (v : ℤ) → IsValue i16 v → i16_of_bits (bits_of_i16 v) ≡ v
unfolding i16_of_bits bits_of_i16
i16_of_bits-bits_of_i16 (pos n) h = ground arith
i16_of_bits-bits_of_i16 (negsuc n) h =
    let e : ltb (2 ^ 16 - 1 - n) (2 ^ 15) ≡ false = ground arith in rw e (ap negsuc (omega arith))

bits_of_i16-IsValue : (v : ℤ) → IsValue i16 v → bits_of_i16 v < 2 ^ 16
unfolding bits_of_i16
bits_of_i16-IsValue (pos n) h = omega arith
bits_of_i16-IsValue (negsuc n) h = omega arith

-- A value is read back from its bytes, whatever follows them.
pub from_cfg_v_bytes-value_bytes :
    (ty : CfgType) (v : Value ty) (rest : List ℕ)
    → IsValue ty v
    → from_cfg_v_bytes ty (value_bytes ty v ++ rest) ≡ some v
unfolding from_cfg_v_bytes value_bytes from_le_bytes bool_of_byte data_bits_of_byte parity_of_byte
    stop_bits_of_byte alignment_of_byte tp_pulse_of_byte tp_pulse_length_of_byte odo_profile_of_byte
from_cfg_v_bytes-value_bytes bool true rest h = refl
from_cfg_v_bytes-value_bytes bool false rest h = refl
from_cfg_v_bytes-value_bytes u8 v rest h = ap some (omega arith)
from_cfg_v_bytes-value_bytes u16 v rest h = from_le_bytes-to_le_bytes 2 v rest (omega arith)
from_cfg_v_bytes-value_bytes i16 v rest h =
    rw
      (
        from_le_bytes-to_le_bytes 2 (bits_of_i16 v) rest (omega (arith, bits_of_i16-IsValue v h)),
        i16_of_bits-bits_of_i16 v h,
      )
      refl
from_cfg_v_bytes-value_bytes u32 v rest h = from_le_bytes-to_le_bytes 4 v rest (omega arith)
from_cfg_v_bytes-value_bytes u64 v rest h = from_le_bytes-to_le_bytes 8 v rest (omega arith)
from_cfg_v_bytes-value_bytes cfg_inf_mask v rest h = ap some (omega arith)
from_cfg_v_bytes-value_bytes data_bits seven rest h = refl
from_cfg_v_bytes-value_bytes data_bits eight rest h = refl
from_cfg_v_bytes-value_bytes parity even rest h = refl
from_cfg_v_bytes-value_bytes parity odd rest h = refl
from_cfg_v_bytes-value_bytes parity none_parity rest h = refl
from_cfg_v_bytes-value_bytes stop_bits one rest h = refl
from_cfg_v_bytes-value_bytes stop_bits one_half rest h = refl
from_cfg_v_bytes-value_bytes stop_bits two rest h = refl
from_cfg_v_bytes-value_bytes stop_bits half rest h = refl
from_cfg_v_bytes-value_bytes alignment_to_reference_time utc rest h = refl
from_cfg_v_bytes-value_bytes alignment_to_reference_time gps rest h = refl
from_cfg_v_bytes-value_bytes alignment_to_reference_time glo rest h = refl
from_cfg_v_bytes-value_bytes alignment_to_reference_time bds rest h = refl
from_cfg_v_bytes-value_bytes alignment_to_reference_time gal rest h = refl
from_cfg_v_bytes-value_bytes tp_pulse period rest h = refl
from_cfg_v_bytes-value_bytes tp_pulse freq rest h = refl
from_cfg_v_bytes-value_bytes tp_pulse_length ratio rest h = refl
from_cfg_v_bytes-value_bytes tp_pulse_length pulse_length rest h = refl
from_cfg_v_bytes-value_bytes odo_profile running rest h = refl
from_cfg_v_bytes-value_bytes odo_profile cycling rest h = refl
from_cfg_v_bytes-value_bytes odo_profile swimming rest h = refl
from_cfg_v_bytes-value_bytes odo_profile car rest h = refl
from_cfg_v_bytes-value_bytes odo_profile custom rest h = refl

-- The size of a value's bytes.
abbrev pub type_size : CfgType → ℕ
type_size u16 = 2
type_size i16 = 2
type_size u32 = 4
type_size u64 = 8
type_size bool = 1
type_size u8 = 1
type_size cfg_inf_mask = 1
type_size data_bits = 1
type_size parity = 1
type_size stop_bits = 1
type_size alignment_to_reference_time = 1
type_size tp_pulse = 1
type_size tp_pulse_length = 1
type_size odo_profile = 1

pub length-value_bytes : (ty : CfgType) (v : Value ty) → length (value_bytes ty v) ≡ type_size ty
unfolding value_bytes
length-value_bytes u16 v = length-to_le_bytes 2 v
length-value_bytes i16 v = length-to_le_bytes 2 (bits_of_i16 v)
length-value_bytes u32 v = length-to_le_bytes 4 v
length-value_bytes u64 v = length-to_le_bytes 8 v
length-value_bytes bool v = refl
length-value_bytes u8 v = refl
length-value_bytes cfg_inf_mask v = refl
length-value_bytes data_bits v = refl
length-value_bytes parity v = refl
length-value_bytes stop_bits v = refl
length-value_bytes alignment_to_reference_time v = refl
length-value_bytes tp_pulse v = refl
length-value_bytes tp_pulse_length v = refl
length-value_bytes odo_profile v = refl
