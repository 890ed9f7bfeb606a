-- ===== src/Packet/Match/Sizes.antt =====
-- The sizes of the packets that are received (ublox/src/ubx_packets/packets.rs).
use ublox.Prelude.{
  ℕ, ◌+◌, ◌≤◌, ◌≡◌, refl, Option, none, some, List, [], ◌∷◌, Bool, true, false, leb, ◌==◌, ◌&&◌,
  if◌then◌else◌, arith, ap, subst, leb→le,
}
use mathlib.Core.List.{Memᴰ}
use mathlib.Core.List.Memᴰ.{head, tail}
use ublox.Packet.Desc.{
  PackField, PackDesc, PayloadLen, fixed, max, fields_size, packet_payload_size, except_last,
  without_size_fn, size_fns, SizeFn, packet_payload_size_except_last_field,
  packet_payload_size_except_size_fn, unwrap_or_default,
}
use ublox.Packet.Table.{all_packets}
use ublox.Packet.Match.{desc_max_payload_len, max_payload_len, max_from, max_u16}

-- The bytes that the fields of fixed size take.
abbrev pub known_size : List PackField → ℕ
known_size [] = 0
known_size (f ∷ fields) = unwrap_or_default f.size_bytes + known_size fields

-- The least length, where it is known before the payload is read.
abbrev pub least : List SizeFn → PackDesc → Option ℕ
least [] d = packet_payload_size_except_last_field d
least (fn ∷ fns) d = packet_payload_size_except_size_fn d

abbrev at_least : ℕ → Option ℕ → Bool
at_least n none = false
at_least n (some m) = leb n m

-- With room for the two bytes that the size functions read.
abbrev pub read_size : List SizeFn → ℕ
read_size [] = 0
read_size (fn ∷ fns) = 6

abbrev pub covers_by : Option ℕ → PackDesc → Bool
covers_by (some n) d = leb (known_size d.fields) n
covers_by none d =
    at_least (known_size d.fields) (least (size_fns d.fields) d)
    && at_least (read_size (size_fns d.fields)) (least (size_fns d.fields) d)

abbrev pub covers : PackDesc → Bool
covers d = covers_by (packet_payload_size d) d

-- The payload length of the header is the sum of the fields.
abbrev pub fixed_by : PayloadLen → Option ℕ → Bool
fixed_by (fixed n) (some m) = n == m
fixed_by (fixed n) none = false
fixed_by (max n) size = true

pub at_least-some :
    (a b : ℕ) (o : Option ℕ)
    → at_least a o && at_least b o ≡ true
    → (n : ℕ) × (o ≡ some n) × (a ≤ n) × (b ≤ n)
at_least-some a b none h = ground arith
at_least-some a b (some n) h = (n, refl, ground arith, ground arith)

abbrev pub every : (PackDesc → Bool) → List PackDesc → Bool
every p [] = true
every p (d ∷ packets) = if p d then every p packets else false

pub every-Memᴰ :
    (p : PackDesc → Bool) {d : PackDesc} {packets : List PackDesc}
    → Memᴰ d packets
    → every p packets ≡ true
    → p d ≡ true
every-Memᴰ p {packets = []} m h = elim m [ ]
every-Memᴰ p {packets = x ∷ packets} (head e) h = rw e (ground arith)
every-Memᴰ p {packets = x ∷ packets} (tail m) h = every-Memᴰ p m (ground arith)

all_covers : every covers all_packets ≡ true
unfolding packet_payload_size fields_size packet_payload_size_except_last_field except_last
    packet_payload_size_except_size_fn without_size_fn size_fns unwrap_or_default
all_covers = refl

pub covers-Memᴰ : {d : PackDesc} → Memᴰ d all_packets → covers d ≡ true
covers-Memᴰ m = every-Memᴰ covers m all_covers

abbrev has_fixed : PackDesc → Bool
has_fixed d = fixed_by d.payload_len (packet_payload_size d)

all_fixed : every has_fixed all_packets ≡ true
unfolding packet_payload_size fields_size
all_fixed = refl

pub fixed_by-true : (n : ℕ) (size : Option ℕ) → fixed_by (fixed n) size ≡ true → size ≡ some n
fixed_by-true n (some m) h = ap some (ground arith)
fixed_by-true n none h = ground arith

-- A packet of the list that states a fixed payload length has fields whose sizes add up to this
-- length.
packet_payload_size-fixed :
    (d : PackDesc) (n : ℕ)
    → Memᴰ d all_packets
    → d.payload_len ≡ fixed n
    → packet_payload_size d ≡ some n
packet_payload_size-fixed d n m e =
    fixed_by-true n (packet_payload_size d)
      (subst (λ l. fixed_by l (packet_payload_size d) ≡ true) e (every-Memᴰ has_fixed m all_fixed))

abbrev is_short : PackDesc → Bool
is_short d = leb (desc_max_payload_len d) max_payload_len

all_short : every is_short all_packets ≡ true
unfolding desc_max_payload_len max_payload_len max_from max_u16
all_short = refl

-- No packet of the list has a payload longer than `MAX_PAYLOAD_LEN`, which is the largest that the
-- parser reads.
desc_max_payload_len-le :
    (d : PackDesc) → Memᴰ d all_packets → desc_max_payload_len d ≤ max_payload_len
desc_max_payload_len-le d m = leb→le _ _ (every-Memᴰ is_short m all_short)

pub max_payload_len_lem : max_payload_len ≡ 8176
unfolding desc_max_payload_len max_payload_len max_from max_u16
max_payload_len_lem = refl
