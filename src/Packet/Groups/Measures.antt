-- ===== src/Packet/Groups/Measures.antt =====
-- The data and the tag of `EsfMeas` (ublox/src/ubx_packets/packets.rs), whose sizes are in its flags.
use ublox.Prelude.{
  ℕ, zero, suc, ltb, ◌+◌, ◌*◌, ◌-◌, ◌/◌, ◌%◌, ◌^◌, ◌≤◌, ◌≡◌, refl, subst, sym, ap, Option, none,
  some, List, [], ◌∷◌, length, drop, Bool, true, false, ◌==◌, if◌then◌else◌, arith, slice,
  get_elem?, All, length-append, Option-cases, inl, inr, length-take, length-drop,
}
use mathlib.Core.List.{Memᴰ}
use mathlib.Core.List.Memᴰ.{head, tail}
use ublox.Error.{ok}
use ublox.Cfg.Value.{from_le_bytes}
use ublox.Packet.Desc.{
  data_len, calib_tag_len, size_of, sum_of_size_fns, size_fns, validate, unwrap_or_default,
}
use ublox.Packet.Match.Sizes.{known_size}
use ublox.Packet.Table.{all_packets}
use ublox.Packet.Table.Fusion.{esf_meas}
use ublox.Packet.Access.{
  raw_getter, sized_getter, raw_accessors, raw_accessor, raw_getters, off_behind, fns_behind,
}
use ublox.Packet.Build.Frames.{joined}
use ublox.Packet.Access.Whole.{Room-validate}
use ublox.Packet.Access.Sized.{sized_getter-slice, sum_of_size_fns-cons}
use ublox.Packet.Groups.Valid.{from_le_bytes-of_length, esf_meas_data-total}
use ublox.Packet.Groups.{collect, next_exact, EsfMeasData, esf_meas_data, next_esf_meas, calib_tag}
use ublox.Packet.Groups.Collect.{
  Splits-of_multiple, Converts, Converts-of_total, collect-next_exact,
}

get_elem?-Memᴰ : {A : Type 0} (xs : List A) (i : ℕ) {x : A} → get_elem? xs i ≡ some x → Memᴰ x xs
get_elem?-Memᴰ [] i e = cc
get_elem?-Memᴰ (y ∷ xs) zero e = head (sym (cc))
get_elem?-Memᴰ (y ∷ xs) (suc i) e = tail (get_elem?-Memᴰ xs i e)

esf_meas-Memᴰ : Memᴰ esf_meas all_packets
esf_meas-Memᴰ = get_elem?-Memᴰ all_packets 41 refl

length-Converts :
    {A : Type 0} (convert : List ℕ → Option A) (chunks : List (List ℕ)) (items : List A)
    → Converts convert chunks items
    → length items ≡ length chunks
length-Converts convert [] [] c = refl
length-Converts convert [] (a ∷ items) c = absurd c
length-Converts convert (b ∷ chunks) [] c = absurd c
length-Converts convert (b ∷ chunks) (a ∷ items) c =
    ap suc (length-Converts convert chunks items c.1)

length-joined :
    (size : ℕ) (chunks : List (List ℕ))
    → All (λ c. length c ≡ size) chunks
    → length (joined chunks) ≡ length chunks * size
length-joined size [] h = ground arith
length-joined size (c ∷ chunks) h =
    let e = length-append c (joined chunks) in
    let f = length-joined size chunks h.1 in
    let g : suc (length chunks) * size ≡ size + length chunks * size = grind arith in omega arith

-- Both sizes come from the flags.
flags-size_of :
    (payload : List ℕ) {k l : ℕ}
    → size_of data_len payload ≡ some k
    → size_of calib_tag_len payload ≡ some l
    → (flags : ℕ) × (from_le_bytes 2 (drop 4 payload) ≡ some flags)
      × (k ≡ flags / 2 ^ 11 % 32 * 4)
      × (l ≡ (if flags / 2 ^ 3 % 2 == 0 then 0 else 4))
unfolding size_of
flags-size_of payload e f = elim (Option-cases (from_le_bytes 2 (drop 4 payload))) [
  | inl p ↦ absurd (ground arith)
  | inr (flags, p) ↦ (flags, p, ground arith, ground arith)
]

abbrev is_some : Option ℕ → Bool
is_some none = false
is_some (some n) = true

is_some-calib_tag :
    (bit l : ℕ) (tag : List ℕ)
    → l ≡ (if bit == 0 then 0 else 4)
    → length tag ≡ l
    → is_some (calib_tag tag) ≡ ltb 0 bit
unfolding calib_tag
is_some-calib_tag zero l tag e f = let g : (length tag == 4) ≡ false = ground arith in rw g refl
is_some-calib_tag (suc bit) l tag e f =
    let g : (length tag == 4) ≡ true = ground arith in
    let (n, run) = from_le_bytes-of_length tag (ground arith) in rw (g, run) (ground arith)

-- The data and the tag, as the flags say.
abbrev pub Measured : List ℕ → Type 0
Measured payload =
    (flags : ℕ) × (bytes : List ℕ) × (items : List EsfMeasData) × (tag : List ℕ) × (from_le_bytes 2
        (drop 4 payload)
      ≡ some flags)
    × (raw_accessor esf_meas 3 payload ≡ some bytes)
    × (collect next_esf_meas (suc (length bytes)) bytes ≡ some items)
    × (length items ≡ flags / 2 ^ 11 % 32)
    × (raw_accessor esf_meas 4 payload ≡ some tag)
    × (is_some (calib_tag tag) ≡ ltb 0 (flags / 2 ^ 3 % 2))

length-slice : (i k : ℕ) (xs : List ℕ) → i + k ≤ length xs → length (slice i (i + k) xs) ≡ k
length-slice i k xs h = omega (arith, length-take (i + k - i) (drop i xs), length-drop i xs)

one_size :
    (payload : List ℕ) {k : ℕ}
    → size_of data_len payload ≡ some k
    → sum_of_size_fns (data_len ∷ []) payload ≡ some k
unfolding sum_of_size_fns
one_size payload e = rw e (ap some (omega arith))

no_sizes : (payload : List ℕ) → sum_of_size_fns [] payload ≡ some 0
unfolding sum_of_size_fns
no_sizes payload = refl

Measured-sizes :
    (payload : List ℕ) (k l flags : ℕ)
    → size_of data_len payload ≡ some k
    → size_of calib_tag_len payload ≡ some l
    → from_le_bytes 2 (drop 4 payload) ≡ some flags
    → k ≡ flags / 2 ^ 11 % 32 * 4
    → l ≡ (if flags / 2 ^ 3 % 2 == 0 then 0 else 4)
    → 8 + k + l ≤ length payload
    → Measured payload
unfolding next_esf_meas raw_accessor raw_accessors raw_getters raw_getter off_behind fns_behind
Measured-sizes payload k l flags x x' f data_size tag_size room =
    let bytes = slice 8 (8 + k) payload in
    let tag = slice (8 + k) (8 + k + l) payload in
    let size : length bytes ≡ k = length-slice 8 k payload (omega arith) in
    let data_run : sized_getter 8 [] data_len payload ≡ some bytes =
      sized_getter-slice 8 [] data_len payload (no_sizes payload) x (omega arith) in
    let tag_run : sized_getter 8 (data_len ∷ []) calib_tag_len payload ≡ some tag =
      sized_getter-slice 8 (data_len ∷ []) calib_tag_len payload (one_size payload x) x' room in
    let (chunks, (whole, sizes)) = Splits-of_multiple 4 bytes (omega arith) (omega arith) in
    let (items, converts) = Converts-of_total 4 esf_meas_data chunks esf_meas_data-total sizes in
    let few = length-joined 4 chunks sizes in
    let collected : collect (next_exact 4 esf_meas_data) (suc (length bytes)) (joined chunks)
        ≡ some items =
      collect-next_exact 4 esf_meas_data chunks items (suc (length bytes)) (omega arith) sizes
        converts (omega (arith, ap length whole)) in
    (
      flags,
      bytes,
      items,
      tag,
      f,
      data_run,
      subst (λ xs. collect (next_exact 4 esf_meas_data) (suc (length bytes)) xs ≡ some items) whole
          collected,
      omega (arith, ap length whole, length-Converts esf_meas_data chunks items converts),
      tag_run,
      is_some-calib_tag (flags / 2 ^ 3 % 2) l tag tag_size (length-slice (8 + k) l payload room),
    )

known_size-esf_meas : known_size (esf_meas.fields) ≡ 8
unfolding unwrap_or_default
known_size-esf_meas = refl

-- For any payload that `EsfMeas` accepts: the accessors of the data and of the tag do not panic,
-- the iterator over the data ends after as many items as the flags say in the bits 11 to 15,
-- without a panic, and `calib_tag` is there exactly if bit 3 of the flags is set.
pub Measured-validate :
    (payload : List ℕ) → validate esf_meas payload ≡ some (ok tt) → Measured payload
unfolding size_fns sum_of_size_fns
Measured-validate payload e =
    let (m, q, le, size) = Room-validate esf_meas payload esf_meas-Memᴰ e in
    let (k, more, x, y, sum) = sum_of_size_fns-cons data_len (calib_tag_len ∷ []) payload q in
    let (l, z, x', y', sum') = sum_of_size_fns-cons calib_tag_len [] payload y in
    let (flags, f, data_size, tag_size) = flags-size_of payload x x' in
    Measured-sizes payload k l flags x x' f data_size tag_size (omega (arith, known_size-esf_meas))
