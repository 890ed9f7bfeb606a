-- ===== src/Cfg/Codec/Iter.antt =====
-- `CfgValIter` (ublox/src/ubx_packets/packets.rs): values written one behind the other, and read
-- again.
use ublox.Prelude.{
  ℕ, zero, suc, ◌+◌, ◌-◌, ◌≤◌, ◌<◌, ◌≡◌, refl, sym, ap, ◌∙◌, none, some, List, [], ◌∷◌, ◌++◌,
  length, drop, arith, length-append, append_assoc, drop-append_exact, take-append_exact,
  append-nil, true, ltb, leb, Bool-cases, inl, inr, tests, leb→le, All, length-drop, take-of_le,
}
use ublox.Buffer.Vector.{slice_index, slice_index_lem}
use ublox.Cfg.Codec.{CfgVal, CfgValIter, len, into_cfg_kv_bytes, write_all, new, next, collect}
use ublox.Cfg.Codec.RoundTrip.{
  IsCfgVal, length-into_cfg_kv_bytes, parse-into_cfg_kv_bytes, write_to-fits, write_to-short,
}

-- The bytes of the values, one behind the other.
abbrev pub encoded : List CfgVal → List ℕ
encoded [] = []
encoded (v ∷ values) = into_cfg_kv_bytes v ++ encoded values

key_size-le_len : (v : CfgVal) → 4 ≤ len v
unfolding len
key_size-le_len v = omega arith

slice_index-behind :
    (front back : List ℕ)
    → slice_index (front ++ back) (length front) (length (front ++ back)) ≡ some back
slice_index-behind front back =
    slice_index_lem (front ++ back) (length front) (length (front ++ back))
      (omega (arith, length-append front back)) (omega arith)
    ∙ ap some (
        rw (drop-append_exact (length front) front back refl)
          (take-of_le _ back (omega (arith, length-append front back))))

-- A step of the loop, with what it leaves for the rest.
write_all-step :
    (v : CfgVal) (values : List CfgVal) (front back : List ℕ)
    → IsCfgVal v
    → len v ≤ length back
    → write_all (front ++ back) (length front) (v ∷ values)
      ≡ write_all
          ((front ++ into_cfg_kv_bytes v) ++ drop (len v) back)
          (length (front ++ into_cfg_kv_bytes v))
          values
unfolding write_all
write_all-step v values front back k h =
    let size =
      length-append front (into_cfg_kv_bytes v)
      ∙ ap (◌+◌ (length front)) (length-into_cfg_kv_bytes v k) in
    rw
      (
        slice_index-behind front back,
        write_to-fits v back k h,
        take-append_exact (length front) front back refl,
        size,
        append_assoc front (into_cfg_kv_bytes v) (drop (len v) back),
      )
      refl

write_all-fits :
    (values : List CfgVal) (front back : List ℕ)
    → All IsCfgVal values
    → length (encoded values) ≤ length back
    → (rest : List ℕ) × (write_all (front ++ back) (length front) values
        ≡ some ((front ++ encoded values) ++ rest, length (front ++ encoded values)))
write_all-fits [] front back k h = (back, rw (append-nil front) (unfold write_all in refl))
write_all-fits (v ∷ values) front back k h =
    let size = length-append (into_cfg_kv_bytes v) (encoded values) in
    let same = length-into_cfg_kv_bytes v k.0 in
    let (rest, e) =
      write_all-fits values (front ++ into_cfg_kv_bytes v) (drop (len v) back) k.1
        (omega (arith, size, same, length-drop (len v) back)) in
    (
      rest,
      write_all-step v values front back k.0 (omega (arith, size, same))
          ∙ e
          ∙ rw (append_assoc front (into_cfg_kv_bytes v) (encoded values)) refl,
    )

write_all-short :
    (values : List CfgVal) (front back : List ℕ)
    → All IsCfgVal values
    → length back < length (encoded values)
    → write_all (front ++ back) (length front) values ≡ none
write_all-short [] front back k h = absurd (omega arith)
write_all-short (v ∷ values) front back k h =
    let size = length-append (into_cfg_kv_bytes v) (encoded values) in
    let same = length-into_cfg_kv_bytes v k.0 in
    elim (Bool-cases (leb (len v) (length back))) [
      | inl fits ↦
          write_all-step v values front back k.0 (ground arith)
          ∙ write_all-short values (front ++ into_cfg_kv_bytes v) (drop (len v) back) k.1 (
              omega
                (tests, size, same, length-drop (len v) back, leb→le (len v) (length back) fits))
      | inr short ↦
          unfold write_all in
          rw (slice_index-behind front back, write_to-short v back k.0 (ground arith)) refl
    ]

pub new-encoded :
    (buf : List ℕ) (values : List CfgVal)
    → All IsCfgVal values
    → length (encoded values) ≤ length buf
    → new buf values ≡ some (record { bytes = encoded values; offset = 0 })
unfolding new
new-encoded buf values k h =
    let (rest, e) = write_all-fits values [] buf k h in
    let n = length (encoded values) in
    let whole : slice_index (encoded values ++ rest) 0 n ≡ some (encoded values) =
      slice_index_lem (encoded values ++ rest) 0 n (omega arith)
        (omega (arith, length-append (encoded values) rest))
      ∙ ap some (take-append_exact (n - 0) (encoded values) rest (omega arith)) in
    rw (e, whole) refl

-- `CfgValIter::new` on values of the enum panics where their bytes are more than the slice.
new-short :
    (buf : List ℕ) (values : List CfgVal)
    → All IsCfgVal values
    → length buf < length (encoded values)
    → new buf values ≡ none
unfolding new
new-short buf values k h = rw (write_all-short values [] buf k h) refl

collect_from :
    (fuel : ℕ) (values : List CfgVal) (front : List ℕ)
    → All IsCfgVal values
    → length values < fuel
    → collect fuel (record { bytes = front ++ encoded values; offset = length front }) ≡ some values
unfolding collect next
collect_from zero values front k h = absurd (omega arith)
collect_from (suc fuel) [] front k h = ground (arith, ap length (append-nil front))
collect_from (suc fuel) (v ∷ values) front k h =
    let more = length-append front (into_cfg_kv_bytes v ++ encoded values) in
    let size = length-append (into_cfg_kv_bytes v) (encoded values) in
    let same = length-into_cfg_kv_bytes v k.0 in
    let some_left : ltb (length front) (length (front ++ encoded (v ∷ values))) ≡ true =
      ground (arith, key_size-le_len v) in
    let shift =
      ap (◌+◌ (length front)) (sym same) ∙ sym (length-append front (into_cfg_kv_bytes v)) in
    rw
      (
        some_left,
        slice_index-behind front (encoded (v ∷ values)),
        parse-into_cfg_kv_bytes v (encoded values) k.0,
        shift,
        ← append_assoc front (into_cfg_kv_bytes v) (encoded values),
        collect_from fuel values (front ++ into_cfg_kv_bytes v) k.1 (omega arith),
      )
      refl

-- `CfgValIter::new` on values that are variants of the enum, and on a slice that their bytes fit
-- into, does not panic, and the iterator it returns gives exactly these values, in order.
pub collect-new :
    (buf : List ℕ) (values : List CfgVal)
    → All IsCfgVal values
    → length (encoded values) ≤ length buf
    → (it : CfgValIter) × (new buf values ≡ some it)
      × (collect (suc (length values)) it ≡ some values)
collect-new buf values k h = (
  record { bytes = encoded values; offset = 0 },
  new-encoded buf values k h,
  collect_from (suc (length values)) values [] k (omega arith),
)
