-- ===== src/Cfg/Item.antt =====
-- Keys and rows of the table of configuration items (ublox/src/ubx_packets/cfg_val.rs).
use ublox.Prelude.{ℕ, ◌/◌, ◌%◌, ◌^◌, ◌==◌, if◌then◌else◌}
use Prim.Native.String.{String}
use ublox.Cfg.Value.{CfgType}

-- `KeyId` holds a `u32`.
abbrev pub KeyId : Type 0
KeyId = ℕ

pub data StorageSize : Type 0 where
  one_bit one_byte two_bytes four_bytes eight_bytes : StorageSize

unfoldable pub to_usize : StorageSize → ℕ
to_usize one_bit = 1
to_usize one_byte = 1
to_usize two_bytes = 2
to_usize four_bytes = 4
to_usize eight_bytes = 8

-- `KeyId::SIZE`
abbrev pub key_size : ℕ
key_size = 4

-- `(self.0 >> 28) & 0b111`
unfoldable pub value_size : KeyId → StorageSize
value_size key =
    let size = key / 2 ^ 28 % 8 in
    if size == 1
    then one_bit
    else if size == 2
    then one_byte
    else if size == 3
    then two_bytes
    else if size == 4
    then four_bytes
    else if size == 5
    then eight_bytes
    else one_bit

unfoldable group_id : KeyId → ℕ
group_id key = key / 2 ^ 16 % 256

unfoldable item_id : KeyId → ℕ
item_id key = key % 256

-- A row of `cfg_val!`: the variant's name, its key, and the type of its value.
pub record CfgItem : Type 0 where
  pub name : String
  pub key : KeyId
  pub ty : CfgType

abbrev pub item : String → KeyId → CfgType → CfgItem
item name key ty = record { name = name; key = key; ty = ty }
