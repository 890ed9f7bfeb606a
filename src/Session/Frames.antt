-- ===== src/Session/Frames.antt =====
-- A stream of framed packets, in any pieces, is delivered packet by packet (ublox/src/lib.rs).
use ublox.Prelude.{
  ℕ, ◌+◌, ◌^◌, ◌≤◌, ◌<◌, ◌≡◌, refl, sym, ◌∙◌, ap, ap₂, subst, none, some, List, [], ◌∷◌, ◌++◌,
  length, All,
}
use mathlib.Core.List.{flatten}
use ublox.Error.{ParserError, Result}
use ublox.Buffer.{UnderlyingBuffer, Laws}
use ublox.Packets.{Packets}
use ublox.Parser
use ublox.Parser.{Parser}
use ublox.Parser.Scan.{scan}
use ublox.Frame.{frame}
use ublox.Frame.RoundTrip.{scan-frame}
use ublox.Session.{receive_all}
use ublox.Session.Finds.{Finds, stop, item, Finds-unique}
use ublox.Session.Chunks.{SmallReads, Received-receive_all}

-- Class, message and payload.
abbrev pub Message : Type 0
Message = ℕ × ℕ × List ℕ

-- The packets of the messages, one behind the other.
abbrev pub frames : List Message → List ℕ
frames [] = []
frames ((class, msg_id, payload) ∷ messages) = frame class msg_id payload ++ frames messages

module _ {P : Type 0} (packets : Packets P) where
  abbrev pub delivered : List Message → List (Result P ParserError)
  delivered [] = []
  delivered ((class, msg_id, payload) ∷ messages) =
      packets.match_packet class msg_id payload ∷ delivered messages

  -- The payload is no longer than the largest, and its length is a `u16`.
  abbrev pub IsSendable : Message → Type 0
  IsSendable (class, msg_id, payload) =
      (length payload ≤ packets.max_payload_len) × (length payload < 2 ^ 16)

  Finds-frames :
      (messages : List Message)
      → All IsSendable messages
      → Finds packets (frames messages) (delivered messages) []
  Finds-frames [] all = unfold scan in stop refl
  Finds-frames ((class, msg_id, payload) ∷ messages) all =
      item (scan-frame packets class msg_id payload (frames messages) (all.0.0) (all.0.1))
        (Finds-frames messages all.1)

module _ {T P : Type 0} {ops : UnderlyingBuffer T} (laws : Laws ops) (packets : Packets P) where
  scan_empty : scan packets [] ≡ (none, [])
  unfolding scan
  scan_empty = refl

  -- A new parser over a valid, empty buffer with room for the largest payload and seven bytes, fed
  -- the packets of some messages in reads that are small enough, however they are cut, delivers
  -- what `match_packet` makes of each message, in order, and nothing else, and keeps no byte at the
  -- end.
  pub receive_all-frames :
      (b : T) (chunks : List (List ℕ)) (messages : List Message)
      → laws.IsValid b
      → laws.contents b ≡ []
      → packets.max_payload_len + 7 ≤ ops.max_capacity b
      → All (IsSendable packets) messages
      → SmallReads laws packets chunks
      → flatten chunks ≡ frames messages
      → (after : Parser T) × (receive_all ops packets (Parser.new ops packets b) chunks
          ≡ some (delivered packets messages, after))
        × (laws.contents after.buf ≡ [])
  unfolding Parser.new
  receive_all-frames b chunks messages w empty cap all small e =
      let settled = ap (scan packets) empty ∙ scan_empty ∙ ap (λ z. (none, z)) (sym empty) in
      let r = Received-receive_all laws packets chunks (record { buf = b }) w cap settled small in
      let whole = ap₂ ◌++◌ empty e in
      let found = subst (λ z. Finds packets z r.items (laws.contents r.after.buf)) whole r.found in
      let (items, bytes) = Finds-unique packets found (Finds-frames packets messages all) in
      (r.after, r.runs ∙ ap (λ z. some (z, r.after)) items, bytes)
