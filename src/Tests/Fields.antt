-- ===== src/Tests/Fields.antt =====
-- Instances for the values of fields (ublox/src/ubx_packets/packets.rs and types.rs).
use ublox.Prelude.{
  ℕ, ◌*◌, ◌+◌, ◌≡◌, ◌≢◌, ◌↔◌, ltb, refl, Bool, ◌&&◌, true, false, Option, some, none, if◌then◌else◌,
  List, [], ◌∷◌, arith,
}
use mathlib.Core.List.Memᴰ.{head, tail}
use ublox.Error.{ok}
use ublox.Buffer.Vector.{slice_index}
use ublox.Cfg.Value.{ℤ, pos, eight, even, one_half}
use ublox.Packet.Check.{is_valid, one_of_values}
use ublox.Packet.Desc.{
  packet_payload_size, validate, validate_by, validate_fields, fields_size, check_value, next_off,
  raw_field,
}
use ublox.Packet.Table.Settings.{cfg_odo}
use ublox.Packet.Access.{raw_accessor}
use ublox.Fields.Enums.{
  UbxExtendEnum, can_generate, Variant, named, into_raw, is_defined, all_variants, from_byte,
}
use ublox.Fields.Enums.Table.{all_enums, odo_profile}
use ublox.Fields.Enums.Laws.{from_byte-into_raw}
use ublox.Fields.Enums.Accessors.{from_byte-accessor}
use ublox.Fields.Uart.{
  UartMode, uart_mode_raw, uart_mode_from, IsUnknown, uart_mode_from-uart_mode_raw,
  uart_mode_from-none,
}
use ublox.Fields.Interference.{
  new_config, config_raw, config_from, config_raw-config_from, unknown, active, new_config2,
  config2_raw, config2_from, antenna-config2_from,
}
use ublox.Fields.Times.{Chrono, Sol, try_from, Outcome, Outcome-try_from}

abbrev odo_bytes : List ℕ
odo_bytes = 0 ∷ 0 ∷ 0 ∷ 0 ∷ 1 ∷ 3 ∷ 0 ∷ 0 ∷ 0 ∷ 0 ∷ 0 ∷ 0 ∷ 0 ∷ 0 ∷ 0 ∷ 0 ∷ 0 ∷ 0 ∷ 0 ∷ 0 ∷ []

odo_valid : validate cfg_odo odo_bytes ≡ some (ok tt)
unfolding validate validate_by packet_payload_size fields_size validate_fields check_value next_off
    raw_field slice_index is_valid one_of_values
odo_valid = refl

from_byte-accessor_example :
    (x : ℕ) × (v : Variant) × (raw_accessor cfg_odo 3 odo_bytes ≡ some (x ∷ []))
    × (from_byte odo_profile x ≡ some v)
    × (into_raw v ≡ x)
unfolding into_raw
from_byte-accessor_example =
    from_byte-accessor cfg_odo odo_bytes 3 _ odo_profile odo_valid refl refl refl refl

from_byte-into_raw_example :
    from_byte odo_profile (into_raw (named "Cycling" 1)) ≡ some (named "Cycling" 1)
unfolding is_defined into_raw all_variants
from_byte-into_raw_example =
    from_byte-into_raw odo_profile (named "Cycling" 1) (refl, (refl, (refl, (refl, (refl, tt)))))
      (tail (head refl))

abbrev mode : UartMode
mode = record { data_bits = eight; parity = even; stop_bits = one_half }

uart_mode_from-uart_mode_raw_example : uart_mode_from (uart_mode_raw mode) ≡ some mode
uart_mode_from-uart_mode_raw_example = uart_mode_from-uart_mode_raw mode

uart_mode_from-none_example : (uart_mode_from 0x40 ≡ none) ↔ IsUnknown 0x40
uart_mode_from-none_example = uart_mode_from-none 0x40

config_raw-config_from_example :
    config_raw (config_from (config_raw (new_config true 3 15))) ≢ config_raw (new_config true 3 15)
config_raw-config_from_example = config_raw-config_from true 3 15 (omega arith) (omega arith)

antenna-config2_from_example :
    (config2_from (config2_raw (new_config2 active false))).antenna ≡ unknown
antenna-config2_from_example = antenna-config2_from active false

-- A calendar that counts in months of thirty days, and has no leap seconds.
abbrev days_of : (year month day : ℕ) → Option ℕ
days_of year month day =
    if ltb month 13
    then (if ltb day 31 then some (year * 360 + month * 30 + day) else none)
    else none

abbrev seconds_of : (hour min sec : ℕ) → Option ℕ
seconds_of hour min sec =
    if ltb hour 24
    then (if ltb min 60
        then (if ltb sec 60 then some (hour * 3600 + min * 60 + sec) else none)
        else none)
    else none

abbrev calendar : Chrono ℕ ℕ (ℕ × ℕ × ℤ)
calendar = record {
  from_ymd_opt = days_of;
  from_hms_opt = seconds_of;
  add_nanoseconds = λ date time nanosecond. (date, time, nanosecond);
}

abbrev noon : Sol
noon = record {
  year = 2024;
  month = 5;
  day = 17;
  hour = 12;
  min = 0;
  sec = 0;
  nanosecond = pos 125;
}

Outcome-try_from_example : Outcome calendar noon (try_from calendar noon)
Outcome-try_from_example = Outcome-try_from calendar noon

abbrev distinct : List Variant → Bool
distinct [] = true
distinct (v ∷ variants) = if is_defined variants (into_raw v) then false else distinct variants

abbrev every_enum : List UbxExtendEnum → Bool
every_enum [] = true
every_enum (e ∷ enums) =
    can_generate e.from_fn e.rest_handling && distinct e.variants && every_enum enums

-- The macro accepts each enum of the crate, and no two variants of one have the same value.
all_generate : every_enum all_enums ≡ true
unfolding can_generate is_defined into_raw
all_generate = refl
