-- ===== src/Packet/Match/Shadowed.antt =====
-- `MgaGpsEph` and `MgaGpsEPH` (ublox/src/ubx_packets/packets.rs) have the same class, id and length,
-- and no field of theirs is validated.
use ublox.Prelude.{
  ℕ, ◌≡◌, ◌≢◌, refl, sym, ◌∙◌, ap, Option, none, some, List, [], ◌∷◌, length, Bool, true, false,
  ◌==◌, ◌&&◌, if◌then◌else◌, ◌>>=◌, arith, Bool-cases, inl, inr, take, drop, zero, suc, ==_self,
}
use Prim.Native.String.{compare}
use Prim.Native.Nat.{Ordering}
use ublox.Error.{ParserError, Result, ok, err, invalid_packet_len}
use ublox.Packet.Desc.{
  PackDesc, validate, validate_by, validate_fields, packet_payload_size, fields_size, check_value,
  next_off, raw_field,
}
use ublox.Packet.Table.{all_packets}
use ublox.Packet.Table.Assistance.{mga_gps_iono, mga_gps_eph, mga_gps_eph_2}
use ublox.Packet.Match.{PacketRef, known, unknown, is_ok, match_in, match_packet}
use ublox.Packet.Match.Laws.{Matched-match_packet}

-- Which packet an answer is, and `MgaGpsEph` if it is none of the list.
abbrev desc_of : Option (Result PacketRef ParserError) → PackDesc
desc_of (some (ok (known d payload))) = d
desc_of (some (ok (unknown payload class msg_id))) = mga_gps_eph
desc_of (some (err e)) = mga_gps_eph
desc_of none = mga_gps_eph

abbrev is_named_eph : PackDesc → Bool
is_named_eph d = elim (compare d.name "MgaGpsEph") [ Ordering.eq ↦ true | _ ↦ false ]

eph-apart : mga_gps_eph ≢ mga_gps_eph_2
eph-apart e = let h : true ≡ false = ap is_named_eph e in cc

-- Packets of another class or id are passed over, as are those that refuse the payload.
abbrev none_same : ℕ → ℕ → List PackDesc → Bool
none_same class msg_id [] = true
none_same class msg_id (d ∷ packets) =
    if class == d.class && msg_id == d.id then false else none_same class msg_id packets

match_in-drop :
    (n : ℕ) (packets : List PackDesc) (class msg_id : ℕ) (payload : List ℕ)
    → none_same class msg_id (take n packets) ≡ true
    → match_in packets class msg_id payload ≡ match_in (drop n packets) class msg_id payload
unfolding match_in
match_in-drop zero packets class msg_id payload h = refl
match_in-drop (suc n) [] class msg_id payload h = refl
match_in-drop (suc n) (d ∷ packets) class msg_id payload h =
    let other : (class == d.class && msg_id == d.id) ≡ false = ground arith in
    rw other (match_in-drop n packets class msg_id payload (ground arith))

match_in-refused :
    (d : PackDesc) (packets : List PackDesc) (class msg_id : ℕ) (payload : List ℕ) (e : ParserError)
    → validate d payload ≡ some (err e)
    → match_in (d ∷ packets) class msg_id payload ≡ match_in packets class msg_id payload
unfolding match_in is_ok
match_in-refused d packets class msg_id payload e h =
    elim (Bool-cases (class == d.class && msg_id == d.id)) [
      | inl same ↦ rw (same, h) refl
      | inr other ↦ rw other refl
    ]

match_in-accepted :
    (d : PackDesc) (packets : List PackDesc) (payload : List ℕ)
    → validate d payload ≡ some (ok tt)
    → match_in (d ∷ packets) d.class d.id payload ≡ some (known d payload)
unfolding match_in is_ok
match_in-accepted d packets payload h = rw (==_self d.class, ==_self d.id, h) refl

validate-iono :
    (payload : List ℕ)
    → (length payload == 16) ≡ false
    → validate mga_gps_iono payload
      ≡ some (err (invalid_packet_len "MgaGpsIono" 16 (length payload)))
unfolding validate validate_by packet_payload_size fields_size
validate-iono payload h = rw h refl

validate-eph :
    (payload : List ℕ) → (length payload == 68) ≡ true → validate mga_gps_eph payload ≡ some (ok tt)
unfolding validate validate_by packet_payload_size fields_size validate_fields check_value next_off
    raw_field
validate-eph payload h = rw h refl

match_packet-eph :
    (payload : List ℕ)
    → (length payload == 68) ≡ true
    → match_packet 0x13 0x0 payload ≡ some (ok (known mga_gps_eph payload))
unfolding match_packet
match_packet-eph payload h =
    let e16 : (length payload == 16) ≡ false = ground arith in
    let found : match_in all_packets 0x13 0x0 payload ≡ some (known mga_gps_eph payload) =
      match_in-drop 14 all_packets 0x13 0x0 payload refl
      ∙ match_in-refused mga_gps_iono (drop 15 all_packets) 0x13 0x0 payload _
          (validate-iono payload e16)
      ∙ match_in-accepted mga_gps_eph (drop 16 all_packets) payload (validate-eph payload h) in
    ap (λ (t : Option PacketRef). (do p ← t; some (ok p))) found

validate-eph_2 :
    (payload : List ℕ)
    → (length payload == 68) ≡ false
    → validate mga_gps_eph_2 payload ≢ some (ok tt)
unfolding validate validate_by packet_payload_size fields_size
validate-eph_2 payload h = rw h (λ e. cc)

-- Whatever the payload, `match_packet` does not return the packet `MgaGpsEPH` for its class and id.
pub match_packet-mga_gps_eph_2 :
    (payload : List ℕ) → match_packet 0x13 0x0 payload ≢ some (ok (known mga_gps_eph_2 payload))
match_packet-mga_gps_eph_2 payload e = elim (Bool-cases (length payload == 68)) [
  | inl same ↦ eph-apart (ap desc_of (sym (match_packet-eph payload same) ∙ e))
  | inr other ↦
      let (packet, run, matched) = Matched-match_packet 0x13 0x0 payload in
      elim matched [
        | inl (d, a, is) ↦
            let d-is : d ≡ mga_gps_eph_2 =
              ap desc_of
                (ap (λ (t : Option PacketRef). (do p ← t; some (ok p))) (sym is) ∙ sym run ∙ e) in
            validate-eph_2 payload other (ap (λ t. validate t payload) (sym d-is) ∙ a.accepted)
        | inr (nobody, is) ↦ eph-apart (
            ap desc_of
              (ap (λ (t : Option PacketRef). (do p ← t; some (ok p))) (sym is) ∙ sym run ∙ e))
      ]
]
