-- ===== src/Packet/Sent/Sizes.antt =====
-- The sizes of packets that are sent (ublox/src/ubx_packets/packets.rs).
use ublox.Prelude.{
  ℕ, ◌+◌, ◌*◌, ◌≤◌, ◌≡◌, refl, ◌∙◌, ap, subst, some, List, [], ◌∷◌, ◌++◌, length, take, Bool, true,
  All, arith, length-append, Option-cases, inl, inr,
}
use mathlib.Core.List.{Memᴰ}
use ublox.Parser.{sync_char_1, sync_char_2}
use ublox.Frame.{low_byte, high_byte, frame}
use ublox.Cfg.Item.{
  StorageSize, one_bit, one_byte, two_bytes, four_bytes, eight_bytes, to_usize, value_size,
}
use ublox.Cfg.Codec
use ublox.Cfg.Codec.{CfgVal}
use ublox.Cfg.Codec.RoundTrip.{IsCfgVal, length-into_cfg_kv_bytes}
use ublox.Cfg.Codec.Iter.{encoded}
use ublox.Packet.Desc.{PackField, PackDesc, fixed, fields_size, packet_payload_size}
use ublox.Packet.Match.Sizes.{every, every-Memᴰ, fixed_by, fixed_by-true}
use ublox.Packet.Match.{desc_max_payload_len}
use ublox.Packet.Build
use ublox.Packet.Build.{into_packet_vec}
use ublox.Packet.Build.Frames.{joined, into_packet_vec-frame}
use ublox.Packet.Build.Indexed.{into_packet_bytes-joined}
use ublox.Packet.Access.Built.{HasSize, HasSizes, builder, length-frame}
use ublox.Packet.Sent.{fixed_packets, cfg_val_set}

length-joined :
    (fields : List PackField) (vals : List (List ℕ)) {n : ℕ}
    → fields_size fields ≡ some n
    → HasSizes fields vals
    → length (joined vals) ≡ n
unfolding fields_size
length-joined [] [] e h = ground arith
length-joined [] (bytes ∷ vals) e h = absurd h
length-joined (f ∷ fields) [] e h = absurd h
length-joined (f ∷ fields) (bytes ∷ vals) {n = n} e h = elim (Option-cases f.size_bytes) [
  | inl p ↦ absurd (subst (λ s. HasSize s (length bytes)) p h.0)
  | inr (k, p) ↦ elim (Option-cases (fields_size fields)) [
    | inl q ↦ absurd (ground arith)
    | inr (m, q) ↦
        let same : k ≡ length bytes = subst (λ s. HasSize s (length bytes)) p h.0 in
        let rest = length-joined fields vals q h.1 in
        let size = length-append bytes (joined vals) in
        let sum : k + m ≡ n = ground arith in omega arith
  ]
]

abbrev states_size : PackDesc → Bool
states_size d = fixed_by d.payload_len (packet_payload_size d)

all_state : every states_size fixed_packets ≡ true
unfolding packet_payload_size fields_size
all_state = refl

-- For a packet with a builder of fixed size, whose payload length is stated as `n`, and values of
-- the sizes of its fields: `into_packet_bytes` makes `n + 8` bytes, and they begin with the sync
-- chars, the class and id, and `n` as the length.
pub into_packet_bytes-sized :
    (d : PackDesc) (n : ℕ) (vals : List (List ℕ))
    → Memᴰ d fixed_packets
    → d.payload_len ≡ fixed n
    → HasSizes d.fields vals
    → (length (Build.into_packet_bytes (builder d vals)) ≡ n + 8)
      × (take 6 (Build.into_packet_bytes (builder d vals))
          ≡ sync_char_1 ∷ sync_char_2 ∷ d.class ∷ d.id ∷ low_byte n ∷ high_byte n ∷ [])
unfolding packet_payload_size frame
into_packet_bytes-sized d n vals mem states sizes =
    let payload = joined vals in
    let sum : packet_payload_size d ≡ some n = fixed_by-true n (packet_payload_size d) (
      subst (λ l. fixed_by l (packet_payload_size d) ≡ true) states
        (every-Memᴰ states_size mem all_state)) in
    let size = length-joined d.fields vals sum sizes in
    let written = into_packet_bytes-joined (builder d vals) in
    (
      ap length written ∙ omega (arith, length-frame d.class d.id payload),
      ap (take 6) written
          ∙ ap (λ m. sync_char_1 ∷ sync_char_2 ∷ d.class ∷ d.id ∷ low_byte m ∷ high_byte m ∷ [])
              size,
    )

to_usize-le : (s : StorageSize) → to_usize s ≤ 8
unfolding to_usize
to_usize-le one_bit = omega arith
to_usize-le one_byte = omega arith
to_usize-le two_bytes = omega arith
to_usize-le four_bytes = omega arith
to_usize-le eight_bytes = omega arith

length-encoded :
    (values : List CfgVal) → All IsCfgVal values → length (encoded values) ≤ length values * 12
length-encoded [] h = omega arith
length-encoded (v ∷ values) h =
    let size : Codec.len v ≤ 12 =
      unfold Codec.len in omega (arith, to_usize-le (value_size v.item.key)) in
    omega (
      arith,
      size,
      length-append (Codec.into_cfg_kv_bytes v) (encoded values),
      length-into_cfg_kv_bytes v h.0,
      length-encoded values h.1,
    )

-- A builder of `CfgValSet` with fields of their sizes and with at most 64 values of the enum makes
-- a packet whose payload is no longer than the largest that the packet states: with header and
-- checksum, eight bytes more than that.
pub into_packet_vec-le :
    (vals : List (List ℕ)) (values : List CfgVal)
    → HasSizes cfg_val_set.fields vals
    → All IsCfgVal values
    → length values ≤ 64
    → length (into_packet_vec (builder cfg_val_set vals) values)
      ≤ desc_max_payload_len cfg_val_set + 8
unfolding desc_max_payload_len
into_packet_vec-le vals values sizes h few =
    let payload = joined vals ++ encoded values in
    let written = ap length (into_packet_vec-frame (builder cfg_val_set vals) values h) in
    let sum : fields_size cfg_val_set.fields ≡ some 4 = unfold fields_size in refl in
    let front = length-joined cfg_val_set.fields vals sum sizes in
    omega (
      arith,
      written,
      front,
      length-frame cfg_val_set.class cfg_val_set.id payload,
      length-append (joined vals) (encoded values),
      length-encoded values h,
    )
