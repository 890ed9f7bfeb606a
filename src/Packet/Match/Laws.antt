-- ===== src/Packet/Match/Laws.antt =====
-- What `match_packet` (ublox_derive/src/output.rs) answers.
use ublox.Prelude.{
  ℕ, ◌≡◌, refl, sym, ◌∙◌, ap, Option, some, List, [], ◌∷◌, true, ◌==◌, ◌&&◌, arith, Bool-cases, inl,
  inr, ◌⊎◌, pair_path,
}
use mathlib.Core.List.{Memᴰ}
use mathlib.Core.List.Memᴰ.{head, tail}
use ublox.Error.{ParserError, Result, ok, err}
use ublox.Packet.Desc.{PackDesc, validate}
use ublox.Packet.Table.{all_packets}
use ublox.Packet.Match.{PacketRef, known, unknown, is_ok, match_in, match_packet, class_and_msg_id}
use ublox.Packet.Match.Sizes.{covers, covers-Memᴰ}
use ublox.Packet.Match.Total.{validate-total}

-- The packet is of the list, has the class and id, and its validation answers `ok`.
pub record Accepts (packets : List PackDesc) (class msg_id : ℕ) (payload : List ℕ) (d : PackDesc)
    : Type 0 where
  pub listed : Memᴰ d packets
  pub same_class : class ≡ d.class
  pub same_id : msg_id ≡ d.id
  pub accepted : validate d payload ≡ some (ok tt)

-- A packet that accepts the payload is returned with it; or none accepts it, and it is unknown.
abbrev pub Matched : List PackDesc → (class msg_id : ℕ) → List ℕ → Option PacketRef → Type 0
Matched packets class msg_id payload out =
    ((d : PackDesc) × Accepts packets class msg_id payload d × (out ≡ some (known d payload)))
    ⊎ (((d : PackDesc) → ¬ Accepts packets class msg_id payload d)
        × (out ≡ some (unknown payload class msg_id)))

Matched-other :
    (x : PackDesc) {packets : List PackDesc} (class msg_id : ℕ) (payload : List ℕ)
    {out : Option PacketRef}
    → ¬ Accepts (x ∷ []) class msg_id payload x
    → Matched packets class msg_id payload out
    → Matched (x ∷ packets) class msg_id payload out
Matched-other x class msg_id payload no_x (inl (d, a, e)) = inl (
  d,
  record {
    listed = tail a.listed;
    same_class = a.same_class;
    same_id = a.same_id;
    accepted = a.accepted;
  },
  e,
)
Matched-other x {packets} class msg_id payload no_x (inr (nobody, e)) =
    inr (λ d a. refuses d a a.listed, e)
  where
    refuses :
        (d : PackDesc) → Accepts (x ∷ packets) class msg_id payload d → Memᴰ d (x ∷ packets) → ⊥
    refuses d a (head same) = no_x (record {
      listed = head refl;
      same_class = a.same_class ∙ ap (λ (t : PackDesc). t.class) same;
      same_id = a.same_id ∙ ap (λ (t : PackDesc). t.id) same;
      accepted = ap (λ t. validate t payload) (sym same) ∙ a.accepted;
    })
    refuses d a (tail m) = nobody d (record {
      listed = m;
      same_class = a.same_class;
      same_id = a.same_id;
      accepted = a.accepted;
    })

Matched-same :
    (x : PackDesc) (packets : List PackDesc) (class msg_id : ℕ) (payload : List ℕ)
    (out : Result (Unit {0}) ParserError)
    → (class == x.class && msg_id == x.id) ≡ true
    → validate x payload ≡ some out
    → Matched packets class msg_id payload (match_in packets class msg_id payload)
    → Matched (x ∷ packets) class msg_id payload (match_in (x ∷ packets) class msg_id payload)
unfolding match_in is_ok
Matched-same x packets class msg_id payload (ok u) same run more =
    rw (same, run)
      (inl (
        x,
        record {
          listed = head refl;
          same_class = ground arith;
          same_id = ground arith;
          accepted = run;
        },
        refl,
      ))
Matched-same x packets class msg_id payload (err e) same run more =
    rw (same, run)
      (Matched-other x class msg_id payload (λ a. absurd (let h = sym run ∙ a.accepted in cc)) more)

Matched-match_in :
    (packets : List PackDesc) (class msg_id : ℕ) (payload : List ℕ)
    → ((d : PackDesc) → Memᴰ d packets → covers d ≡ true)
    → Matched packets class msg_id payload (match_in packets class msg_id payload)
unfolding match_in is_ok
Matched-match_in [] class msg_id payload c = inr (λ d a. elim a.listed [ ], refl)
Matched-match_in (x ∷ packets) class msg_id payload c =
    let more = Matched-match_in packets class msg_id payload (λ d m. c d (tail m)) in
    elim (Bool-cases (class == x.class && msg_id == x.id)) [
      | inl same ↦
          let (out, run) = validate-total x payload (c x (head refl)) in
          Matched-same x packets class msg_id payload out same run more
      | inr other ↦ rw other (
          Matched-other x class msg_id payload
            (λ a. absurd (ground (arith, a.same_class, a.same_id))) more)
    ]

-- On any class, id and payload, `match_packet` neither panics nor reports an error: it returns a
-- packet of the list that has this class and id and whose validation accepts the payload, with the
-- payload, or, if there is none such, the unknown packet with all three.
pub Matched-match_packet :
    (class msg_id : ℕ) (payload : List ℕ)
    → (packet : PacketRef) × (match_packet class msg_id payload ≡ some (ok packet))
      × Matched all_packets class msg_id payload (some packet)
unfolding match_packet
Matched-match_packet class msg_id payload =
    elim (Matched-match_in all_packets class msg_id payload (λ d m. covers-Memᴰ m)) [
      | inl (d, a, e) ↦ (known d payload, rw e refl, inl (d, a, refl))
      | inr (nobody, e) ↦ (unknown payload class msg_id, rw e refl, inr (nobody, refl))
    ]

-- On any class, id and payload, the packet that `match_packet` returns gives this class and id.
pub match_packet-class_and_msg_id :
    (class msg_id : ℕ) (payload : List ℕ)
    → (packet : PacketRef) × (match_packet class msg_id payload ≡ some (ok packet))
      × (class_and_msg_id packet ≡ (class, msg_id))
unfolding match_packet class_and_msg_id
match_packet-class_and_msg_id class msg_id payload =
    elim (Matched-match_in all_packets class msg_id payload (λ d m. covers-Memᴰ m)) [
      | inl (d, a, e) ↦ (known d payload, rw e refl, pair_path (sym a.same_class) (sym a.same_id))
      | inr (nobody, e) ↦ (unknown payload class msg_id, rw e refl, refl)
    ]
