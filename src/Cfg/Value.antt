-- ===== src/Cfg/Value.antt =====
-- The values of configuration items, and their bytes (`from_cfg_v_bytes!` and `into_cfg_kv_bytes!` in
-- ublox/src/ubx_packets/cfg_val.rs). `none` is a panic: an index out of bounds, or `unreachable!`.
pub mod RoundTrip
use ublox.Prelude.{
  ℕ, zero, suc, ◌+◌, ◌-◌, ◌*◌, ◌/◌, ◌%◌, ◌^◌, Option, none, some, List, [], ◌∷◌, Bool, true, false,
  ltb, ◌==◌, if◌then◌else◌, ◌>>=◌,
}

-- The types that the table names.
pub data CfgType : Type 0 where
  bool u8 u16 i16 u32 u64 cfg_inf_mask data_bits parity stop_bits : CfgType
  alignment_to_reference_time tp_pulse tp_pulse_length odo_profile : CfgType

pub data ℤ : Type 0 where
  pos : ℕ → ℤ
  negsuc : ℕ → ℤ

pub data DataBits : Type 0 where
  seven eight : DataBits

pub data Parity : Type 0 where
  even odd none_parity : Parity

pub data StopBits : Type 0 where
  one one_half two half : StopBits

pub data AlignmentToReferenceTime : Type 0 where
  utc gps glo bds gal : AlignmentToReferenceTime

pub data TpPulse : Type 0 where
  period freq : TpPulse

pub data TpPulseLength : Type 0 where
  ratio pulse_length : TpPulseLength

pub data OdoProfile : Type 0 where
  running cycling swimming car custom : OdoProfile

-- A `CfgInfMask` is the number of its bits.
abbrev pub Value : CfgType → Type 0
Value bool = Bool
Value i16 = ℤ
Value data_bits = DataBits
Value parity = Parity
Value stop_bits = StopBits
Value alignment_to_reference_time = AlignmentToReferenceTime
Value tp_pulse = TpPulse
Value tp_pulse_length = TpPulseLength
Value odo_profile = OdoProfile
Value u8 = ℕ
Value u16 = ℕ
Value u32 = ℕ
Value u64 = ℕ
Value cfg_inf_mask = ℕ

-- `to_le_bytes` and `from_le_bytes` for an integer of so many bytes; the latter on a slice, of which
-- it indexes each byte
unfoldable pub to_le_bytes : ℕ → ℕ → List ℕ
to_le_bytes zero n = []
to_le_bytes (suc size) n = n % 256 ∷ to_le_bytes size (n / 256)

unfoldable pub from_le_bytes : ℕ → List ℕ → Option ℕ
from_le_bytes zero buf = some 0
from_le_bytes (suc size) [] = none
from_le_bytes (suc size) (byte ∷ buf) = do rest ← from_le_bytes size buf; some (byte + 256 * rest)

-- An `i16` in two's complement.
unfoldable pub bits_of_i16 : ℤ → ℕ
bits_of_i16 (pos n) = n
bits_of_i16 (negsuc n) = 2 ^ 16 - 1 - n

unfoldable pub i16_of_bits : ℕ → ℤ
i16_of_bits n = if ltb n (2 ^ 15) then pos n else negsuc (2 ^ 16 - 1 - n)

unfoldable pub bool_of_byte : ℕ → Option Bool
bool_of_byte n = if n == 0 then some false else if n == 1 then some true else none

unfoldable pub data_bits_of_byte : ℕ → Option DataBits
data_bits_of_byte n = if n == 0 then some eight else if n == 1 then some seven else none

unfoldable pub parity_of_byte : ℕ → Option Parity
parity_of_byte n =
    if n == 0
    then some none_parity
    else if n == 1
    then some odd
    else if n == 2
    then some even
    else none

unfoldable pub stop_bits_of_byte : ℕ → Option StopBits
stop_bits_of_byte n =
    if n == 0
    then some half
    else if n == 1
    then some one
    else if n == 2
    then some one_half
    else if n == 3
    then some two
    else none

unfoldable pub alignment_of_byte : ℕ → Option AlignmentToReferenceTime
alignment_of_byte n =
    if n == 0
    then some utc
    else if n == 1
    then some gps
    else if n == 2
    then some glo
    else if n == 3
    then some bds
    else if n == 4
    then some gal
    else none

unfoldable pub tp_pulse_of_byte : ℕ → Option TpPulse
tp_pulse_of_byte n = if n == 0 then some period else if n == 1 then some freq else none

unfoldable pub tp_pulse_length_of_byte : ℕ → Option TpPulseLength
tp_pulse_length_of_byte n =
    if n == 0 then some ratio else if n == 1 then some pulse_length else none

unfoldable pub odo_profile_of_byte : ℕ → Option OdoProfile
odo_profile_of_byte n =
    if n == 0
    then some running
    else if n == 1
    then some cycling
    else if n == 2
    then some swimming
    else if n == 3
    then some car
    else if n == 4
    then some custom
    else none

-- `from_bits_truncate` keeps each bit of the byte: with `rest_reserved`, `CfgInfMask` also has a flag
-- for each bit that the source does not name.
unfoldable pub from_cfg_v_bytes : (ty : CfgType) → List ℕ → Option (Value ty)
from_cfg_v_bytes bool buf = do byte ← from_le_bytes 1 buf; bool_of_byte byte
from_cfg_v_bytes u8 buf = from_le_bytes 1 buf
from_cfg_v_bytes u16 buf = from_le_bytes 2 buf
from_cfg_v_bytes i16 buf = do bits ← from_le_bytes 2 buf; some (i16_of_bits bits)
from_cfg_v_bytes u32 buf = from_le_bytes 4 buf
from_cfg_v_bytes u64 buf = from_le_bytes 8 buf
from_cfg_v_bytes cfg_inf_mask buf = from_le_bytes 1 buf
from_cfg_v_bytes data_bits buf = do byte ← from_le_bytes 1 buf; data_bits_of_byte byte
from_cfg_v_bytes parity buf = do byte ← from_le_bytes 1 buf; parity_of_byte byte
from_cfg_v_bytes stop_bits buf = do byte ← from_le_bytes 1 buf; stop_bits_of_byte byte
from_cfg_v_bytes alignment_to_reference_time buf = do
  byte ← from_le_bytes 1 buf
  alignment_of_byte byte
from_cfg_v_bytes tp_pulse buf = do byte ← from_le_bytes 1 buf; tp_pulse_of_byte byte
from_cfg_v_bytes tp_pulse_length buf = do byte ← from_le_bytes 1 buf; tp_pulse_length_of_byte byte
from_cfg_v_bytes odo_profile buf = do byte ← from_le_bytes 1 buf; odo_profile_of_byte byte

abbrev bool_byte : Bool → ℕ
bool_byte b = if b then 1 else 0

abbrev data_bits_byte : DataBits → ℕ
data_bits_byte eight = 0
data_bits_byte seven = 1

abbrev parity_byte : Parity → ℕ
parity_byte none_parity = 0
parity_byte odd = 1
parity_byte even = 2

abbrev stop_bits_byte : StopBits → ℕ
stop_bits_byte half = 0
stop_bits_byte one = 1
stop_bits_byte one_half = 2
stop_bits_byte two = 3

abbrev alignment_byte : AlignmentToReferenceTime → ℕ
alignment_byte utc = 0
alignment_byte gps = 1
alignment_byte glo = 2
alignment_byte bds = 3
alignment_byte gal = 4

abbrev tp_pulse_byte : TpPulse → ℕ
tp_pulse_byte period = 0
tp_pulse_byte freq = 1

abbrev tp_pulse_length_byte : TpPulseLength → ℕ
tp_pulse_length_byte ratio = 0
tp_pulse_length_byte pulse_length = 1

abbrev odo_profile_byte : OdoProfile → ℕ
odo_profile_byte running = 0
odo_profile_byte cycling = 1
odo_profile_byte swimming = 2
odo_profile_byte car = 3
odo_profile_byte custom = 4

-- The bytes of a value, behind those of the key.
unfoldable pub value_bytes : (ty : CfgType) → Value ty → List ℕ
value_bytes bool v = bool_byte v ∷ []
value_bytes u8 v = v ∷ []
value_bytes u16 v = to_le_bytes 2 v
value_bytes i16 v = to_le_bytes 2 (bits_of_i16 v)
value_bytes u32 v = to_le_bytes 4 v
value_bytes u64 v = to_le_bytes 8 v
value_bytes cfg_inf_mask v = v ∷ []
value_bytes data_bits v = data_bits_byte v ∷ []
value_bytes parity v = parity_byte v ∷ []
value_bytes stop_bits v = stop_bits_byte v ∷ []
value_bytes alignment_to_reference_time v = alignment_byte v ∷ []
value_bytes tp_pulse v = tp_pulse_byte v ∷ []
value_bytes tp_pulse_length v = tp_pulse_length_byte v ∷ []
value_bytes odo_profile v = odo_profile_byte v ∷ []
