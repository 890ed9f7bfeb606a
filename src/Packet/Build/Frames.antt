-- ===== src/Packet/Build/Frames.antt =====
-- The builders (ublox_derive/src/output.rs) write framed packets.
use ublox.Prelude.{
  ℕ, zero, suc, ◌+◌, ◌≤◌, ◌<◌, ◌≡◌, refl, sym, ◌∙◌, ap, List, [], ◌∷◌, ◌++◌, length, take, drop,
  set, length-set, arith, All, pair_path, ==_self, length-append, append_assoc, append-nil,
  drop-append_exact,
}
use ublox.Error.{ok}
use ublox.Checksum
use ublox.Checksum.{UbxChecksumCalc, ubx_checksum}
use ublox.Checksum.Laws.{update-eq_update_fields, result-update-update, update-append}
use ublox.Parser.{sync_char_1, sync_char_2}
use ublox.Frame.{low_byte, high_byte, frame}
use ublox.Cfg.Codec
use ublox.Cfg.Codec.{CfgVal}
use ublox.Cfg.Codec.RoundTrip.{IsCfgVal, extend_to-append, length-into_cfg_kv_bytes}
use ublox.Cfg.Codec.Iter.{encoded}
use ublox.Packet.Build.{
  Builder, payload_size, extend_fields, extend_values, extend_to, into_packet_vec, vec_writer,
  write_fields, write_checksum, create_packet,
}

-- The payload: the fields, one behind the other.
abbrev pub joined : List (List ℕ) → List ℕ
joined [] = []
joined (bytes ∷ fields) = bytes ++ joined fields

pub payload_size-joined : (fields : List (List ℕ)) → payload_size fields ≡ length (joined fields)
unfolding payload_size
payload_size-joined [] = refl
payload_size-joined (bytes ∷ fields) =
    ap (◌+◌ (length bytes)) (payload_size-joined fields) ∙ sym (length-append bytes (joined fields))

extend_fields-joined :
    (fields : List (List ℕ)) (n : ℕ) (out : List ℕ)
    → extend_fields fields n out ≡ (n + length (joined fields), out ++ joined fields)
unfolding extend_fields
extend_fields-joined [] n out = pair_path (omega arith) (sym (append-nil out))
extend_fields-joined (bytes ∷ fields) n out =
    extend_fields-joined fields (n + length bytes) (out ++ bytes)
    ∙ pair_path (omega (arith, length-append bytes (joined fields)))
        (append_assoc out bytes (joined fields))

extend_values-encoded :
    (values : List CfgVal) (n : ℕ) (out : List ℕ)
    → All IsCfgVal values
    → extend_values values n out ≡ (n + length (encoded values), out ++ encoded values)
unfolding extend_values
extend_values-encoded [] n out k = pair_path (omega arith) (sym (append-nil out))
extend_values-encoded (v ∷ values) n out k =
    let bytes = Codec.into_cfg_kv_bytes v in
    rw (extend_to-append v out k.0) (
      extend_values-encoded values (n + Codec.len v) (out ++ bytes) k.1
      ∙ pair_path
          (omega (arith, length-append bytes (encoded values), length-into_cfg_kv_bytes v k.0))
          (append_assoc out bytes (encoded values)))

write_fields-vec :
    {E : Type 0} (calc : UbxChecksumCalc) (fields : List (List ℕ)) (out : List ℕ)
    → write_fields (vec_writer E) calc fields out
      ≡ (ok (Checksum.update calc (joined fields)), out ++ joined fields)
unfolding write_fields vec_writer
write_fields-vec calc [] out = pair_path (unfold Checksum.update in refl) (sym (append-nil out))
write_fields-vec calc (bytes ∷ fields) out =
    rw (write_fields, ==_self (length bytes))
      (write_fields-vec (Checksum.update_fields calc bytes) fields (out ++ bytes)
        ∙ pair_path
            (ap ok (
              ap (λ c. Checksum.update c (joined fields)) (sym (update-eq_update_fields calc bytes))
              ∙ update-append calc bytes (joined fields)))
            (append_assoc out bytes (joined fields)))

-- `create_packet` of a builder over a `Vec` succeeds, and appends the framed packet of the
-- builder's class and id, with the fields, one behind the other, as its payload.
pub create_packet-frame :
    {E : Type 0} (p : Builder) (out : List ℕ)
    → create_packet (vec_writer E) p out ≡ (ok tt, out ++ frame p.class p.id (joined p.fields))
unfolding create_packet write_checksum vec_writer frame
create_packet-frame {E} p out =
    let payload = joined p.fields in
    let n = payload_size p.fields in
    let behind = p.class ∷ p.id ∷ low_byte n ∷ high_byte n ∷ [] in
    let header = sync_char_1 ∷ sync_char_2 ∷ behind in
    let calc = Checksum.update_fields Checksum.new behind in
    let sum : Checksum.result (Checksum.update calc payload) ≡ ubx_checksum (behind ++ payload) =
      ap (λ c. Checksum.result (Checksum.update c payload))
        (sym (update-eq_update_fields Checksum.new behind))
      ∙ result-update-update behind payload in
    let ck = ubx_checksum (behind ++ payload) in
    let back : List ℕ = ck.0 ∷ ck.1 ∷ [] in
    ap (write_checksum (vec_writer E)) (write_fields-vec {E = E} calc p.fields (out ++ header))
    ∙ pair_path refl (
        ap (λ (c : ℕ × ℕ). ((out ++ header) ++ payload) ++ (c.0 ∷ c.1 ∷ [])) sum
        ∙ append_assoc (out ++ header) payload back
        ∙ append_assoc out header (payload ++ back)
        ∙ ap
            (λ m.
              let whole = p.class ∷ p.id ∷ low_byte m ∷ high_byte m ∷ payload in
              let c = ubx_checksum whole in
              out ++ (sync_char_1 ∷ sync_char_2 ∷ (whole ++ (c.0 ∷ c.1 ∷ []))))
            (payload_size-joined p.fields))

-- `into_packet_vec` of a builder with configuration values of the enum is the framed packet of the
-- builder's class and id, with the fields and then the bytes of the values as its payload.
pub into_packet_vec-frame :
    (p : Builder) (values : List CfgVal)
    → All IsCfgVal values
    → into_packet_vec p values ≡ frame p.class p.id (joined p.fields ++ encoded values)
unfolding into_packet_vec extend_to frame
into_packet_vec-frame p values k =
    let size : 0 + length (joined p.fields) + length (encoded values)
        ≡ length (joined p.fields ++ encoded values) =
      omega (arith, length-append (joined p.fields) (encoded values)) in
    let header = sync_char_1 ∷ sync_char_2 ∷ p.class ∷ p.id ∷ 0 ∷ 0 ∷ [] in
    rw
      (
        extend_fields-joined p.fields 0 ([] ++ header),
        extend_values-encoded values (0 + length (joined p.fields))
            (([] ++ header) ++ joined p.fields) k,
      )
      (rw size refl)

set-append_left : (xs ys : List ℕ) (i v : ℕ) → i < length xs → set (xs ++ ys) i v ≡ set xs i v ++ ys
set-append_left [] ys i v h = absurd (omega arith)
set-append_left (x ∷ xs) ys zero v h = refl
set-append_left (x ∷ xs) ys (suc i) v h = ap (◌∷◌ x) (set-append_left xs ys i v (omega arith))

-- Two writes to the front leave what stands behind it.
drop-set-set :
    (out back end : List ℕ) (a b : ℕ)
    → 6 ≤ length out
    → drop (length out) (set (set (out ++ back) 4 a) 5 b ++ end) ≡ back ++ end
drop-set-set out back end a b h =
    let front = set (set out 4 a) 5 b in
    let size : length out ≡ length front =
      sym (length-set (set out 4 a) 5 b ∙ length-set out 4 a) in
    let moved : set (set (out ++ back) 4 a) 5 b ≡ front ++ back =
      ap (λ xs. set xs 5 b) (set-append_left out back 4 a (omega arith))
      ∙ set-append_left (set out 4 a) back 5 b (omega (arith, length-set out 4 a)) in
    ap (λ xs. drop (length out) (xs ++ end)) moved
    ∙ ap (drop (length out)) (append_assoc front back end)
    ∙ drop-append_exact (length out) front (back ++ end) size

-- `extend_to` of a builder with configuration values of the enum, on an output of six bytes or
-- more, appends a packet whose header states the length zero.
pub extend_to-behind :
    (p : Builder) (values : List CfgVal) (out : List ℕ)
    → All IsCfgVal values
    → 6 ≤ length out
    → take 6 (drop (length out) (extend_to p values out))
      ≡ sync_char_1 ∷ sync_char_2 ∷ p.class ∷ p.id ∷ 0 ∷ 0 ∷ []
unfolding extend_to
extend_to-behind p values out k h =
    let header = sync_char_1 ∷ sync_char_2 ∷ p.class ∷ p.id ∷ 0 ∷ 0 ∷ [] in
    rw
      (
        extend_fields-joined p.fields 0 (out ++ header),
        extend_values-encoded values (0 + length (joined p.fields))
            ((out ++ header) ++ joined p.fields) k,
      )
      (rw
        (
          append_assoc (out ++ header) (joined p.fields) (encoded values),
          append_assoc out header (joined p.fields ++ encoded values),
        )
        (ap (take 6) (drop-set-set out (header ++ (joined p.fields ++ encoded values)) _ _ _ h)))
