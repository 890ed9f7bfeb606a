-- ===== src/Packet/Sent/Acks.antt =====
-- What an acknowledgement says of the packet that it is for (ublox/src/ubx_packets/packets.rs).
use ublox.Prelude.{
  ℕ, ◌+◌, ◌*◌, ◌≡◌, refl, ap₂, sym, subst, Option, some, List, [], ◌∷◌, Bool, true, ◌==◌, ◌&&◌,
  length, arith, ◌↔◌,
}
use ublox.Error.{ok}
use ublox.Buffer.Vector.{slice_index}
use ublox.Cfg.Value.{from_le_bytes}
use ublox.Packet.Desc.{PackDesc, validate, validate_by, fields_size, packet_payload_size}
use ublox.Packet.Table.Other.{ack_ack, ack_nak}
use ublox.Packet.Access.{
  raw_accessor, raw_accessors, raw_getters, raw_getter, off_behind, fns_behind,
}
use ublox.Packet.Sent.{is_ack_for, is_nak_for}

-- The test ends without a panic, and holds exactly for the class and id of the packet.
abbrev pub Decides : PackDesc → List ℕ → Option Bool → Type 0
Decides t payload out = (b : Bool) × (out ≡ some b) × ((b ≡ true) ↔ (payload ≡ t.class ∷ t.id ∷ []))

same_bytes : (a b c i : ℕ) → ((a == c && b == i) ≡ true) ↔ (a ∷ b ∷ [] ≡ c ∷ i ∷ [])
same_bytes a b c i = (λ e. ap₂ (λ x y. x ∷ y ∷ []) (ground arith) (ground arith), λ e. ground arith)

two_bytes : (payload : List ℕ) → length payload ≡ 2 → (a : ℕ) × (b : ℕ) × (payload ≡ a ∷ b ∷ [])
two_bytes [] e = absurd (omega arith)
two_bytes (a ∷ []) e = absurd (omega arith)
two_bytes (a ∷ b ∷ []) e = (a, b, refl)
two_bytes (a ∷ b ∷ c ∷ payload) e = absurd (omega arith)

two_long : (payload : List ℕ) → validate ack_ack payload ≡ some (ok tt) → length payload ≡ 2
unfolding validate validate_by packet_payload_size fields_size
two_long payload e = ground arith

two_long_nak : (payload : List ℕ) → validate ack_nak payload ≡ some (ok tt) → length payload ≡ 2
unfolding validate validate_by packet_payload_size fields_size
two_long_nak payload e = ground arith

-- The two bytes, as `from_le_bytes` makes numbers of them.
two_read :
    (t : PackDesc) (a b : ℕ)
    → some (a + 256 * 0 == t.class && b + 256 * 0 == t.id) ≡ some (a == t.class && b == t.id)
two_read t a b = ap₂ (λ x y. some (x == t.class && y == t.id)) (omega arith) (omega arith)

-- For any payload that `AckAck` accepts and any packet, `is_ack_for` ends without a panic, and is
-- true exactly if the payload is the class and id of the packet.
pub Decides-is_ack_for :
    (t : PackDesc) (payload : List ℕ)
    → validate ack_ack payload ≡ some (ok tt)
    → Decides t payload (is_ack_for t payload)
unfolding is_ack_for raw_accessor raw_accessors raw_getters raw_getter off_behind fns_behind
    slice_index from_le_bytes
Decides-is_ack_for t payload e =
    let (a, b, p) = two_bytes payload (two_long payload e) in
    subst (λ xs. Decides t xs (is_ack_for t xs)) (sym p)
      (a == t.class && b == t.id, two_read t a b, same_bytes a b t.class t.id)

-- The same for `AckNak` and `is_nak_for`.
Decides-is_nak_for :
    (t : PackDesc) (payload : List ℕ)
    → validate ack_nak payload ≡ some (ok tt)
    → Decides t payload (is_nak_for t payload)
unfolding is_nak_for raw_accessor raw_accessors raw_getters raw_getter off_behind fns_behind
    slice_index from_le_bytes
Decides-is_nak_for t payload e =
    let (a, b, p) = two_bytes payload (two_long_nak payload e) in
    subst (λ xs. Decides t xs (is_nak_for t xs)) (sym p)
      (a == t.class && b == t.id, two_read t a b, same_bytes a b t.class t.id)
