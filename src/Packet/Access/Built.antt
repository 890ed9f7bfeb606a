-- ===== src/Packet/Access/Built.antt =====
-- What a builder writes (ublox_derive/src/output.rs) is parsed as a packet whose accessors read the
-- builder's fields again.
use ublox.Prelude.{
  ℕ, ◌+◌, ◌-◌, ◌≤◌, ◌≡◌, refl, sym, ◌∙◌, ap, Option, none, some, List, [], ◌∷◌, ◌++◌, length, arith,
  slice, take, drop, ◌==◌, ==_self, ◌&&◌, if◌then◌else◌, Bool-cases, inl, inr, append_assoc,
  length-append, take-append_exact, drop-append_exact,
}
use mathlib.Core.List.{flatten}
use ublox.Error.{ok}
use ublox.Buffer.Vector.{Vector, vector_buffer, vector_laws, slice_index_lem}
use ublox.Checksum.{ubx_checksum}
use ublox.Frame.{frame, body}
use ublox.Parser
use ublox.Parser.{Parser}
use ublox.Packet.Match.Sizes.{max_payload_len_lem}
use ublox.Session.{receive_all}
use ublox.Session.Frames.{receive_all-frames}
use ublox.Packet.Desc.{PackField, PackDesc, SizeFn, validate}
use ublox.Packet.Table.{all_packets}
use ublox.Packet.Match.{known, match_in, match_packet, max_payload_len, is_ok}
use ublox.Packet.Parse.{default, ublox_packets, match_packet-ublox_packets, roomy}
use ublox.Packet.Build
use ublox.Packet.Build.{field_bytes, Builder}
use ublox.Packet.Build.Frames.{joined}
use ublox.Packet.Build.Indexed.{into_packet_bytes-joined}
use ublox.Packet.Access.{
  raw_getter, off_behind, fns_behind, raw_getters, read_all, raw_accessors, accessors,
}
use ublox.Packet.Access.Values.{Gives, Gives-accessors}

-- Each field has as many bytes as its description says.
abbrev pub HasSize : Option ℕ → ℕ → Type 0
HasSize (some n) m = n ≡ m
HasSize none m = ⊥

abbrev pub HasSizes : List PackField → List (List ℕ) → Type 0
HasSizes [] [] = Unit
HasSizes [] (bytes ∷ vals) = ⊥
HasSizes (f ∷ fields) [] = ⊥
HasSizes (f ∷ fields) (bytes ∷ vals) = HasSize f.size_bytes (length bytes) × HasSizes fields vals

pub slice-behind :
    (front bytes back : List ℕ) (off n : ℕ)
    → off ≡ length front
    → n ≡ length bytes
    → slice off (off + n) (front ++ (bytes ++ back)) ≡ bytes
slice-behind front bytes back off n e h =
    let k : off + n - off ≡ n = omega arith in
    ap (λ i. take i (drop off (front ++ (bytes ++ back)))) k
    ∙ ap (take n) (drop-append_exact off front (bytes ++ back) e)
    ∙ take-append_exact n bytes back h

getter-built :
    (size : Option ℕ) (fn : Option SizeFn) (front bytes back : List ℕ) (off : ℕ)
    → off ≡ length front
    → HasSize size (length bytes)
    → (raw_getter off [] size fn (front ++ (bytes ++ back)) ≡ some bytes)
      × (off_behind off size ≡ length (front ++ bytes))
      × (fns_behind [] size fn ≡ [])
unfolding raw_getter off_behind fns_behind
getter-built (some n) fn front bytes back off e h = (
  slice_index_lem (front ++ (bytes ++ back)) off (off + n) (omega arith)
        (omega (arith, length-append front (bytes ++ back), length-append bytes back))
      ∙ ap some (slice-behind front bytes back off n e h),
  omega (arith, length-append front bytes),
  refl,
)
getter-built none fn front bytes back off e h = absurd h

read_all-behind :
    (fields : List PackField) (vals : List (List ℕ)) (front : List ℕ) (off : ℕ)
    → off ≡ length front
    → HasSizes fields vals
    → read_all (raw_getters off [] fields) (front ++ joined vals) ≡ some vals
unfolding read_all raw_getters
read_all-behind [] [] front off e h = refl
read_all-behind [] (bytes ∷ vals) front off e h = absurd h
read_all-behind (f ∷ fields) [] front off e h = absurd h
read_all-behind (f ∷ fields) (bytes ∷ vals) front off e h =
    let (get, off', fns) =
      getter-built f.size_bytes f.size_fn front bytes (joined vals) off e h.0 in
    let more =
      read_all-behind fields vals (front ++ bytes) (off_behind off f.size_bytes) off' h.1 in
    rw (get, fns) (rw (← append_assoc front bytes (joined vals)) (rw more refl))

read_all-joined :
    (d : PackDesc) (vals : List (List ℕ))
    → HasSizes d.fields vals
    → read_all (raw_accessors d) (joined vals) ≡ some vals
unfolding raw_accessors
read_all-joined d vals h = read_all-behind d.fields vals [] 0 refl h

-- The packets of a list that have the class and id.
abbrev pub same_id : List PackDesc → (class msg_id : ℕ) → List PackDesc
same_id [] class msg_id = []
same_id (d ∷ packets) class msg_id =
    let rest = same_id packets class msg_id in
    if class == d.class && msg_id == d.id then d ∷ rest else rest

match_in-same_id :
    (packets : List PackDesc) (class msg_id : ℕ) (payload : List ℕ)
    → match_in packets class msg_id payload
      ≡ match_in (same_id packets class msg_id) class msg_id payload
unfolding match_in
match_in-same_id [] class msg_id payload = refl
match_in-same_id (d ∷ packets) class msg_id payload =
    elim (Bool-cases (class == d.class && msg_id == d.id)) [
      | inl same ↦ rw same (rw (same, match_in-same_id packets class msg_id payload) refl)
      | inr other ↦ rw other (match_in-same_id packets class msg_id payload)
    ]

match_packet-only :
    (d : PackDesc) (payload : List ℕ)
    → same_id all_packets d.class d.id ≡ d ∷ []
    → validate d payload ≡ some (ok tt)
    → match_packet d.class d.id payload ≡ some (ok (known d payload))
unfolding match_packet match_in is_ok
match_packet-only d payload only valid =
    rw
      (
        match_in-same_id all_packets d.class d.id payload,
        only,
        ==_self d.class,
        ==_self d.id,
        valid,
      )
      refl

-- The builder of a packet.
abbrev pub builder : PackDesc → List (List ℕ) → Builder
builder d vals = record { class = d.class; id = d.id; fields = vals }

answer-only :
    (d : PackDesc) (payload : List ℕ)
    → same_id all_packets d.class d.id ≡ d ∷ []
    → validate d payload ≡ some (ok tt)
    → ublox_packets.match_packet d.class d.id payload ≡ ok (known d payload)
answer-only d payload only valid =
    let same : some (ublox_packets.match_packet d.class d.id payload)
        ≡ some (ok (known d payload)) =
      sym (match_packet-ublox_packets d.class d.id payload)
      ∙ match_packet-only d payload only valid in
    cc

pub length-frame :
    (class msg_id : ℕ) (payload : List ℕ) → length (frame class msg_id payload) ≡ length payload + 8
unfolding frame
length-frame class msg_id payload =
    let ck = ubx_checksum (body class msg_id payload) in
    omega (arith, length-append payload (ck.0 ∷ ck.1 ∷ []))

receive_all-bytes :
    {V : Type 0} (from_fns : List (List ℕ → Option V)) (d : PackDesc) (vals : List (List ℕ))
    → same_id all_packets d.class d.id ≡ d ∷ []
    → HasSizes d.fields vals
    → validate d (joined vals) ≡ some (ok tt)
    → length (joined vals) ≤ max_payload_len
    → (after : Parser Vector) × (receive_all vector_buffer ublox_packets default
          (Build.into_packet_bytes (builder d vals) ∷ [])
        ≡ some (ok (known d (joined vals)) ∷ [], after))
      × Gives (accessors from_fns d) from_fns (joined vals) vals
      × (after.buf ≡ [])
unfolding default Parser.new flatten
receive_all-bytes from_fns d vals only sizes valid fits =
    let payload = joined vals in
    let written : flatten (Build.into_packet_bytes (builder d vals) ∷ [])
        ≡ frame d.class d.id payload ++ [] =
      ap (λ xs. xs ++ []) (into_packet_bytes-joined (builder d vals)) in
    let size : length (Build.into_packet_bytes (builder d vals)) ≡ length payload + 8 =
      ap length (into_packet_bytes-joined (builder d vals)) ∙ length-frame d.class d.id payload in
    let (after, run, empty) =
      receive_all-frames vector_laws ublox_packets []
        (Build.into_packet_bytes (builder d vals) ∷ []) ((d.class, d.id, payload) ∷ [])
        (omega arith) refl (roomy []) ((fits, omega (arith, max_payload_len_lem)), tt)
        (omega (arith, max_payload_len_lem), tt) written in
    let item = ap (λ answer. some (answer ∷ [], after)) (answer-only d payload only valid) in
    (
      after,
      run ∙ item,
      Gives-accessors from_fns d payload vals (read_all-joined d vals sizes),
      empty,
    )

-- For a packet description that is the only one of the list with its class and id, and values that
-- the conversions of the builder turn into bytes, which have the sizes of its fields, and which
-- validation, one behind the other, accepts and are no more than the largest payload: a default
-- parser that is fed the bytes of `into_packet_bytes` delivers exactly this packet, with these
-- bytes as its payload, and keeps none; and whatever the conversions of the packet are, each
-- accessor returns what its conversion makes of the bytes that the builder's made of the value of
-- its field, and panics only where that does.
pub receive_all-built :
    {V : Type 0} (into_fns : List (V → List ℕ)) (from_fns : List (List ℕ → Option V)) (d : PackDesc)
    (values : List V)
    → same_id all_packets d.class d.id ≡ d ∷ []
    → HasSizes d.fields (field_bytes into_fns values)
    → validate d (joined (field_bytes into_fns values)) ≡ some (ok tt)
    → length (joined (field_bytes into_fns values)) ≤ max_payload_len
    → (after : Parser Vector) × (receive_all vector_buffer ublox_packets default
          (Build.into_packet_bytes (builder d (field_bytes into_fns values)) ∷ [])
        ≡ some (ok (known d (joined (field_bytes into_fns values))) ∷ [], after))
      × Gives
          (accessors from_fns d)
          from_fns
          (joined (field_bytes into_fns values))
          (field_bytes into_fns values)
      × (after.buf ≡ [])
receive_all-built into_fns from_fns d values only sizes valid fits =
    receive_all-bytes from_fns d (field_bytes into_fns values) only sizes valid fits
