-- ===== src/Tests/Config.antt =====
-- Runs and instances for configuration values (ublox/src/ubx_packets/cfg_val.rs).
use ublox.Prelude.{ℕ, ◌^◌, ◌<◌, ◌≡◌, refl, none, some, List, [], ◌∷◌, ◌++◌, arith}
use mathlib.Core.List.Memᴰ.{head, tail}
use ublox.Cfg.Value.{
  u32, cfg_inf_mask, stop_bits, two, to_le_bytes, value_bytes, from_le_bytes, from_cfg_v_bytes, i16,
  negsuc,
}
use ublox.Cfg.Value.RoundTrip.{type_size, from_cfg_v_bytes-value_bytes}
use ublox.Cfg.Item.{item, to_usize, value_size}
use ublox.Cfg.Codec.{CfgVal, CfgValIter, find_item, parse, into_cfg_kv_bytes, new, collect}
use ublox.Cfg.Codec.Lookup.{value_size-Row}
use ublox.Cfg.Codec.RoundTrip.{IsCfgVal, parse-into_cfg_kv_bytes}
use ublox.Cfg.Codec.Iter.{collect-new}

abbrev baudrate : CfgVal
baudrate = record { item = item "Uart1Baudrate" 0x40520001 u32; value = 9600 }

abbrev pub stop : CfgVal
stop = record { item = item "Uart1StopBits" 0x20520002 stop_bits; value = two }

baudrate-IsCfgVal : IsCfgVal baudrate
baudrate-IsCfgVal = record { row = head refl; is_value = omega arith }

pub stop-IsCfgVal : IsCfgVal stop
stop-IsCfgVal = record { row = tail (head refl); is_value = tt }

baudrate_bytes :
    into_cfg_kv_bytes baudrate ≡ 0x01 ∷ 0x00 ∷ 0x52 ∷ 0x40 ∷ 0x80 ∷ 0x25 ∷ 0x00 ∷ 0x00 ∷ []
unfolding into_cfg_kv_bytes to_le_bytes value_bytes
baudrate_bytes = refl

-- An unknown key makes the code panic.
parse_unknown : parse (0x02 ∷ 0x00 ∷ 0x52 ∷ 0x40 ∷ 0x80 ∷ []) ≡ none
unfolding parse from_le_bytes find_item
parse_unknown = refl

from_cfg_v_bytes-value_bytes_example :
    from_cfg_v_bytes i16 (value_bytes i16 (negsuc 1) ++ (7 ∷ [])) ≡ some (negsuc 1)
from_cfg_v_bytes-value_bytes_example =
    from_cfg_v_bytes-value_bytes i16 (negsuc 1) (7 ∷ []) (omega arith)

value_size-Row_example :
    (to_usize (value_size 0x20520002) ≡ type_size stop_bits) × (0x20520002 < 2 ^ 32)
value_size-Row_example = value_size-Row {it = stop.item} (tail (head refl))

parse-into_cfg_kv_bytes_example : parse (into_cfg_kv_bytes baudrate ++ (7 ∷ [])) ≡ some baudrate
parse-into_cfg_kv_bytes_example = parse-into_cfg_kv_bytes baudrate (7 ∷ []) baudrate-IsCfgVal

abbrev room_for_six : List ℕ
room_for_six = 0 ∷ 0 ∷ 0 ∷ 0 ∷ 0 ∷ 9 ∷ []

collect-new_example :
    (it : CfgValIter) × (new (room_for_six ++ (room_for_six ++ room_for_six)) (baudrate ∷ stop ∷ [])
      ≡ some it)
    × (collect 3 it ≡ some (baudrate ∷ stop ∷ []))
unfolding into_cfg_kv_bytes to_le_bytes value_bytes
collect-new_example =
    collect-new (room_for_six ++ (room_for_six ++ room_for_six)) (baudrate ∷ stop ∷ [])
      (baudrate-IsCfgVal, (stop-IsCfgVal, tt)) (omega arith)

-- A mask keeps the bits that the source does not name.
mask_run : from_cfg_v_bytes cfg_inf_mask (0xe5 ∷ []) ≡ some 0xe5
unfolding from_cfg_v_bytes from_le_bytes
mask_run = refl
