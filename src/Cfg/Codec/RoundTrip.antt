-- ===== src/Cfg/Codec/RoundTrip.antt =====
-- `CfgVal` (ublox/src/ubx_packets/cfg_val.rs): bytes of values, and back.
use ublox.Prelude.{
  ℕ, ◌≤◌, ◌<◌, ◌≡◌, refl, sym, ◌∙◌, none, some, List, [], ◌∷◌, ◌++◌, length, drop, arith,
  length-append, append_assoc, drop-append_exact, append-nil,
}
use ublox.Buffer.Fixed.{copy_at}
use ublox.Cfg.Value.{to_le_bytes, value_bytes}
use ublox.Cfg.Value.RoundTrip.{
  IsValue, from_le_bytes-to_le_bytes, length-to_le_bytes, from_cfg_v_bytes-value_bytes,
  length-value_bytes,
}
use ublox.Cfg.Item.{key_size}
use ublox.Cfg.Table.{items}
use ublox.Cfg.Codec.{CfgVal, len, parse, into_cfg_kv_bytes, extend_each, extend_to, write_to}
use ublox.Cfg.Codec.Lookup.{Row, find_item-Row, value_size-Row}

-- The item is a row of the table, and the value is one of the row's Rust type.
pub record IsCfgVal (v : CfgVal) : Type 0 where
  pub row : Row v.item items
  pub is_value : IsValue v.item.ty v.value

-- For each variant of the enum, the bytes of key and value are as many as `len` says, which goes by
-- the size bits of the key.
pub length-into_cfg_kv_bytes : (v : CfgVal) → IsCfgVal v → length (into_cfg_kv_bytes v) ≡ len v
unfolding into_cfg_kv_bytes len
length-into_cfg_kv_bytes v k = omega (
  arith,
  length-append (to_le_bytes 4 v.item.key) (value_bytes v.item.ty v.value),
  length-to_le_bytes 4 v.item.key,
  length-value_bytes v.item.ty v.value,
  (value_size-Row k.row).0,
)

-- The bytes of a value of the enum, whatever follows them, are parsed as this value.
pub parse-into_cfg_kv_bytes :
    (v : CfgVal) (rest : List ℕ) → IsCfgVal v → parse (into_cfg_kv_bytes v ++ rest) ≡ some v
unfolding parse into_cfg_kv_bytes
parse-into_cfg_kv_bytes v rest k =
    let key = to_le_bytes 4 v.item.key in
    let value = value_bytes v.item.ty v.value in
    let split : (key ++ value) ++ rest ≡ key ++ (value ++ rest) = append_assoc key value rest in
    rw
      (
        split,
        from_le_bytes-to_le_bytes 4 v.item.key (value ++ rest)
            (omega (arith, (value_size-Row k.row).1)),
        find_item-Row k.row,
        drop-append_exact key_size key (value ++ rest) (sym (length-to_le_bytes 4 v.item.key)),
        from_cfg_v_bytes-value_bytes v.item.ty v.value rest k.is_value,
      )
      refl

extend_each-append : (bytes buf : List ℕ) → extend_each bytes buf ≡ buf ++ bytes
unfolding extend_each
extend_each-append [] buf = sym (append-nil buf)
extend_each-append (b ∷ bytes) buf =
    extend_each-append bytes (buf ++ (b ∷ [])) ∙ append_assoc buf (b ∷ []) bytes

-- `extend_to` of a value of the enum appends its bytes to the buffer and returns how many they are.
pub extend_to-append :
    (v : CfgVal) (buf : List ℕ) → IsCfgVal v → extend_to v buf ≡ (len v, buf ++ into_cfg_kv_bytes v)
unfolding extend_to
extend_to-append v buf k =
    rw (length-into_cfg_kv_bytes v k, extend_each-append (into_cfg_kv_bytes v) buf) refl

-- `write_to` of a value of the enum on a slice that is long enough overwrites its first bytes with
-- those of the value, and returns how many they are.
pub write_to-fits :
    (v : CfgVal) (buf : List ℕ)
    → IsCfgVal v
    → len v ≤ length buf
    → write_to v buf ≡ some (len v, into_cfg_kv_bytes v ++ drop (len v) buf)
unfolding write_to copy_at
write_to-fits v buf k h = rw (length-into_cfg_kv_bytes v k) (ground arith)

pub write_to-short :
    (v : CfgVal) (buf : List ℕ) → IsCfgVal v → length buf < len v → write_to v buf ≡ none
unfolding write_to copy_at
write_to-short v buf k h = rw (length-into_cfg_kv_bytes v k) (ground arith)
