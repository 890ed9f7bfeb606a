-- ===== src/Cfg/Codec/Lookup.antt =====
-- The table of `cfg_val!` (ublox/src/ubx_packets/cfg_val.rs): each key stands in one row, and its size
-- is that of the row's type.
use ublox.Prelude.{
  ◌^◌, ◌<◌, ◌≡◌, refl, ap, some, List, [], ◌∷◌, arith, Bool, true, false, ltb, ◌==◌, ==_self, ◌&&◌,
  if◌then◌else◌,
}
use mathlib.Core.List.{Memᴰ}
use mathlib.Core.List.Memᴰ.{head, tail}
use ublox.Cfg.Value.RoundTrip.{type_size}
use ublox.Cfg.Item.{KeyId, CfgItem, to_usize, value_size}
use ublox.Cfg.Codec.{find_item}
use ublox.Cfg.Table.{items}

-- The item is a row, by its place.
abbrev pub Row : CfgItem → List CfgItem → Type 0
Row it its = Memᴰ it its

abbrev absent : KeyId → List CfgItem → Bool
absent key [] = true
absent key (it ∷ its) = if key == it.key then false else absent key its

abbrev distinct : List CfgItem → Bool
distinct [] = true
distinct (it ∷ its) = if absent it.key its then distinct its else false

-- The key is a `u32`, and its size is that of the type.
abbrev sized : List CfgItem → Bool
sized [] = true
sized (it ∷ its) =
    if (to_usize (value_size it.key) == type_size it.ty) && ltb it.key (2 ^ 32)
    then sized its
    else false

items-distinct : distinct items ≡ true
items-distinct = refl

items-sized : sized items ≡ true
unfolding to_usize value_size
items-sized = refl

absent-Row :
    (key : KeyId) {it : CfgItem} {its : List CfgItem}
    → Row it its
    → absent key its ≡ true
    → (key == it.key) ≡ false
absent-Row key (head e) a = rw (ap (λ (t : CfgItem). t.key) e) (ground arith)
absent-Row key (tail r) a = absent-Row key r (ground arith)

find_item-distinct :
    {it : CfgItem} {its : List CfgItem}
    → Row it its
    → distinct its ≡ true
    → find_item it.key its ≡ some it
unfolding find_item
find_item-distinct {it} (head e) d = rw (← e, ==_self it.key) refl
find_item-distinct {it} {its = other ∷ its} (tail r) d =
    let apart : (other.key == it.key) ≡ false = absent-Row other.key r (ground arith) in
    let swapped : (it.key == other.key) ≡ false = ground arith in
    rw swapped (find_item-distinct r (ground arith))

sized-Row :
    {it : CfgItem} {its : List CfgItem}
    → Row it its
    → sized its ≡ true
    → (to_usize (value_size it.key) ≡ type_size it.ty) × (it.key < 2 ^ 32)
sized-Row (head e) s = rw e (ground arith, ground arith)
sized-Row (tail r) s = sized-Row r (ground arith)

-- Each row of the table is the one that its key selects: no two rows have the same key.
pub find_item-Row : {it : CfgItem} → Row it items → find_item it.key items ≡ some it
find_item-Row r = find_item-distinct r items-distinct

pub value_size-Row :
    {it : CfgItem}
    → Row it items
    → (to_usize (value_size it.key) ≡ type_size it.ty) × (it.key < 2 ^ 32)
value_size-Row r = sized-Row r items-sized
