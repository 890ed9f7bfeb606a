-- ===== src/Packet/Build/Indexed.antt =====
-- The builders of fixed size (ublox_derive/src/output.rs) write by index.
use ublox.Prelude.{
  ℕ, suc, ◌+◌, ◌-◌, ◌≡◌, refl, sym, ◌∙◌, ap, ap₂, List, [], ◌∷◌, ◌++◌, length, slice, set, arith,
  length-append, append_assoc, append-nil, take-append_exact,
}
use ublox.Checksum.{ubx_checksum}
use ublox.Parser.{sync_char_1, sync_char_2}
use ublox.Frame.{low_byte, high_byte, frame}
use ublox.Packet.Build
use ublox.Packet.Build.{Builder, payload_size, zeros, set_bytes, pack_fields}
use ublox.Packet.Build.Frames.{joined, payload_size-joined}

set-behind :
    (front back : List ℕ) (x v : ℕ)
    → set (front ++ (x ∷ back)) (length front) v ≡ front ++ (v ∷ back)
set-behind [] back x v = refl
set-behind (y ∷ front) back x v = ap (◌∷◌ y) (set-behind front back x v)

set_bytes-zeros :
    (bytes front : List ℕ) (m : ℕ)
    → set_bytes (front ++ zeros (length bytes + m)) (length front) bytes
      ≡ (front ++ bytes) ++ zeros m
unfolding set_bytes zeros
set_bytes-zeros [] front m =
    let z : 0 + m ≡ m = omega arith in
    ap (λ k. front ++ zeros k) z ∙ ap (λ xs. xs ++ zeros m) (sym (append-nil front))
set_bytes-zeros (b ∷ bytes) front m =
    let z : suc (length bytes) + m ≡ suc (length bytes + m) = omega arith in
    let one_more : length front + 1 ≡ length (front ++ (b ∷ [])) =
      sym (length-append front (b ∷ [])) in
    ap (λ k. set_bytes (set (front ++ zeros k) (length front) b) (length front + 1) bytes) z
    ∙ ap (λ xs. set_bytes xs (length front + 1) bytes)
        (set-behind front (zeros (length bytes + m)) 0 b)
    ∙ ap₂ (λ xs i. set_bytes xs i bytes)
        (sym (append_assoc front (b ∷ []) (zeros (length bytes + m)))) one_more
    ∙ set_bytes-zeros bytes (front ++ (b ∷ [])) m
    ∙ ap (λ xs. xs ++ zeros m) (append_assoc front (b ∷ []) bytes)

pack_fields-zeros :
    (fields : List (List ℕ)) (front : List ℕ) (m : ℕ)
    → pack_fields (front ++ zeros (payload_size fields + m)) (length front) fields
      ≡ (front ++ joined fields) ++ zeros m
unfolding pack_fields payload_size
pack_fields-zeros [] front m =
    let z : 0 + m ≡ m = omega arith in
    ap (λ k. front ++ zeros k) z ∙ ap (λ xs. xs ++ zeros m) (sym (append-nil front))
pack_fields-zeros (bytes ∷ fields) front m =
    let z : (length bytes + payload_size fields) + m ≡ length bytes + (payload_size fields + m) =
      omega arith in
    ap
      (λ k.
        pack_fields (set_bytes (front ++ zeros k) (length front) bytes)
          (length front + length bytes) fields)
      z
    ∙ ap₂ (λ xs i. pack_fields xs i fields) (set_bytes-zeros bytes front (payload_size fields + m))
        (sym (length-append front bytes))
    ∙ pack_fields-zeros fields (front ++ bytes) m
    ∙ ap (λ xs. xs ++ zeros m) (append_assoc front bytes (joined fields))

-- The last two bytes are set at last.
set-set-behind :
    (whole : List ℕ) (k l a b : ℕ)
    → k ≡ length whole
    → l ≡ length whole + 1
    → set (set (whole ++ (0 ∷ 0 ∷ [])) k a) l b ≡ whole ++ (a ∷ b ∷ [])
set-set-behind whole k l a b e f =
    ap₂ (λ i j. set (set (whole ++ (0 ∷ 0 ∷ [])) i a) j b) e f
    ∙ ap (λ xs. set xs (length whole + 1) b)
        (set-behind whole (0 ∷ []) 0 a ∙ sym (append_assoc whole (a ∷ []) (0 ∷ [])))
    ∙ ap (λ i. set ((whole ++ (a ∷ [])) ++ (0 ∷ [])) i b) (sym (length-append whole (a ∷ [])))
    ∙ set-behind (whole ++ (a ∷ [])) [] 0 b
    ∙ append_assoc whole (a ∷ []) (b ∷ [])

-- What is left to do once the fields are written.
abbrev closed : ℕ → List ℕ → List ℕ
closed n ret =
    let ck = ubx_checksum (slice 2 (n + 6) ret) in set (set ret (n + 6) (ck.0)) (n + 7) (ck.1)

closed-zeros :
    (c i lo hi n : ℕ) (payload : List ℕ)
    → n ≡ length payload
    → closed n ((sync_char_1 ∷ sync_char_2 ∷ c ∷ i ∷ lo ∷ hi ∷ payload) ++ (0 ∷ 0 ∷ [])) ≡ (
        let ck = ubx_checksum (c ∷ i ∷ lo ∷ hi ∷ payload) in
        sync_char_1 ∷ sync_char_2 ∷ c ∷ i ∷ lo ∷ hi ∷ (payload ++ (ck.0 ∷ ck.1 ∷ [])))
closed-zeros c i lo hi n payload e =
    let behind : List ℕ = c ∷ i ∷ lo ∷ hi ∷ payload in
    let covers : slice 2 (n + 6) ((sync_char_1 ∷ sync_char_2 ∷ behind) ++ (0 ∷ 0 ∷ [])) ≡ behind =
      take-append_exact (n + 6 - 2) behind (0 ∷ 0 ∷ []) (omega arith) in
    let ck = ubx_checksum behind in
    let whole : List ℕ = sync_char_1 ∷ sync_char_2 ∷ behind in
    ap
      (λ xs.
        let k = ubx_checksum xs in set (set (whole ++ (0 ∷ 0 ∷ [])) (n + 6) (k.0)) (n + 7) (k.1))
      covers
    ∙ set-set-behind whole (n + 6) (n + 7) (ck.0) (ck.1) (omega arith) (omega arith)

-- `into_packet_bytes` of a builder, which writes each byte at its index, is the framed packet of
-- the builder's class and id, with the fields, one behind the other, as its payload.
pub into_packet_bytes-joined :
    (p : Builder) → Build.into_packet_bytes p ≡ frame p.class p.id (joined p.fields)
unfolding Build.into_packet_bytes frame zeros
into_packet_bytes-joined p =
    let n = payload_size p.fields in
    let header = sync_char_1 ∷ sync_char_2 ∷ p.class ∷ p.id ∷ low_byte n ∷ high_byte n ∷ [] in
    let eight : n + 8 ≡ suc (suc (suc (suc (suc (suc (n + 2)))))) = omega arith in
    let payload = joined p.fields in
    ap
      (λ k.
        let ret = set (set (set (set (zeros k) 0 sync_char_1) 1 sync_char_2) 2 p.class) 3 p.id in
        closed n (pack_fields (set (set ret 4 (low_byte n)) 5 (high_byte n)) 6 p.fields))
      eight
    ∙ ap (closed n) (pack_fields-zeros p.fields header 2)
    ∙ closed-zeros p.class p.id (low_byte n) (high_byte n) n payload (payload_size-joined p.fields)
    ∙ ap
        (λ m.
          let whole = p.class ∷ p.id ∷ low_byte m ∷ high_byte m ∷ payload in
          let c = ubx_checksum whole in sync_char_1 ∷ sync_char_2 ∷ (whole ++ (c.0 ∷ c.1 ∷ [])))
        (payload_size-joined p.fields)
