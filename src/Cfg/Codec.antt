-- ===== src/Cfg/Codec.antt =====
-- `CfgVal` (ublox/src/ubx_packets/cfg_val.rs, `cfg_val!`) and `CfgValIter`
-- (ublox/src/ubx_packets/packets.rs). `none` is a panic.
pub mod Lookup
pub mod RoundTrip
pub mod Iter
use ublox.Prelude.{
  ℕ, zero, suc, ◌+◌, Option, none, some, List, [], ◌∷◌, ◌++◌, length, take, drop, leb, ltb, ◌==◌,
  if◌then◌else◌, ◌>>=◌,
}
use ublox.Buffer.Vector.{slice_index}
use ublox.Buffer.Fixed.{copy_at}
use ublox.Cfg.Value.{Value, to_le_bytes, from_le_bytes, from_cfg_v_bytes, value_bytes}
use ublox.Cfg.Item.{KeyId, key_size, to_usize, value_size, CfgItem}
use ublox.Cfg.Table.{items}

-- A variant of the enum is a row of the table, and holds a value of the row's type.
pub record CfgVal : Type 0 where
  pub item : CfgItem
  pub value : Value item.ty

-- `$cfg_item::SIZE`
unfoldable pub len : CfgVal → ℕ
len v = key_size + to_usize (value_size v.item.key)

-- `match key_id`: the first row of that key
unfoldable pub find_item : KeyId → List CfgItem → Option CfgItem
find_item key [] = none
find_item key (it ∷ its) = let rest = find_item key its in if key == it.key then some it else rest

unfoldable pub parse : List ℕ → Option CfgVal
parse buf = do
  key_id ← from_le_bytes 4 buf
  it ← find_item key_id items
  value ← from_cfg_v_bytes it.ty (drop key_size buf)
  some (record { item = it; value = value })

unfoldable pub into_cfg_kv_bytes : CfgVal → List ℕ
into_cfg_kv_bytes v = to_le_bytes 4 v.item.key ++ value_bytes v.item.ty v.value

-- `buf.extend(core::iter::once(*b))` for each byte
extend_each : List ℕ → List ℕ → List ℕ
extend_each [] buf = buf
extend_each (b ∷ bytes) buf = extend_each bytes (buf ++ (b ∷ []))

-- What is returned, and the buffer.
unfoldable pub extend_to : CfgVal → List ℕ → ℕ × List ℕ
unfolding extend_each
extend_to v buf = let bytes = into_cfg_kv_bytes v in (length bytes, extend_each bytes buf)

-- `buf[..kv.len()].copy_from_slice(&kv[..])`
unfoldable pub write_to : CfgVal → List ℕ → Option (ℕ × List ℕ)
write_to v buf = do
  let kv = into_cfg_kv_bytes v
  written ← copy_at buf 0 kv
  some (length kv, written)

pub record CfgValIter : Type 0 where
  pub bytes : List ℕ
  pub offset : ℕ

-- The loop of `CfgValIter::new`: each value is written to `&mut data[offset..]`.
unfoldable pub write_all : List ℕ → ℕ → List CfgVal → Option (List ℕ × ℕ)
write_all buf offset [] = some (buf, offset)
write_all buf offset (value ∷ values) = do
  tail ← slice_index buf offset (length buf)
  (n, tail1) ← write_to value tail
  write_all (take offset buf ++ tail1) (offset + n) values

unfoldable pub new : List ℕ → List CfgVal → Option CfgValIter
new buf values = do
  (written, offset) ← write_all buf 0 values
  kept ← slice_index written 0 offset
  some (record { bytes = kept; offset = 0 })

unfoldable pub next : CfgValIter → Option (Option CfgVal × CfgValIter)
next it =
    if ltb it.offset (length it.bytes)
    then (do
      tail ← slice_index it.bytes it.offset (length it.bytes)
      cfg_val ← parse tail
      some (some cfg_val, record it { offset = it.offset + len cfg_val }))
    else some (none, it)

-- `collect` on the iterator; `none` is a panic, or the end of the fuel.
unfoldable pub collect : ℕ → CfgValIter → Option (List CfgVal)
collect zero it = none
collect (suc fuel) it = do
  (item, rest) ← next it
  elim item [ none ↦ some [] | some value ↦ (do values ← collect fuel rest; some (value ∷ values)) ]
