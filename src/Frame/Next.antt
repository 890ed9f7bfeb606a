-- ===== src/Frame/Next.antt =====
-- What `ParserIter::next` (ublox/src/parser.rs) returns, in terms of framed packets.
use ublox.Prelude.{
  ℕ, ◌+◌, ◌^◌, ◌≤◌, ◌<◌, ◌≡◌, sym, ◌∙◌, ap, subst, Option, none, some, List, ◌++◌, length, position,
  All,
}
use ublox.Error.{ParserError, Result}
use ublox.Buffer.{UnderlyingBuffer, Laws}
use ublox.Dual.View.{view, IsValid}
use ublox.Packets.{Packets}
use ublox.Parser
use ublox.Parser.{ParserIter, sync_char_1}
use ublox.Parser.Scan.{scan}
use ublox.Parser.Next.{Follows, next-scan}
use ublox.Frame.{frame}
use ublox.Frame.RoundTrip.{scan-skipped_frame}
use ublox.Frame.Sound.{IsByte, Origin, scan-Origin}

module _ {T P : Type 0} {ops : UnderlyingBuffer T} (laws : Laws ops) (packets : Packets P) where
  -- Where the bytes ahead of a valid iterator are some without a first sync char, then a framed
  -- packet whose payload is no longer than the largest and whose length is a `u16`, then more, and
  -- the buffer has room for the largest payload and seven bytes, `next` returns what `match_packet`
  -- makes of the packet, and what stands behind it stays ahead.
  pub next-frame :
      (it : ParserIter T) (skipped : List ℕ) (class msg_id : ℕ) (payload rest : List ℕ)
      → IsValid laws it.buf
      → packets.max_payload_len + 7 ≤ ops.max_capacity it.buf.buf
      → view laws it.buf ≡ skipped ++ (frame class msg_id payload ++ rest)
      → position sync_char_1 skipped ≡ none
      → length payload ≤ packets.max_payload_len
      → length payload < 2 ^ 16
      → Follows laws packets it
          (Parser.next ops packets it)
          (some (packets.match_packet class msg_id payload), rest)
  next-frame it skipped class msg_id payload rest v cap e p fits small =
      subst (Follows laws packets it (Parser.next ops packets it))
        (ap (scan packets) e
          ∙ scan-skipped_frame packets skipped class msg_id payload rest p fits small)
        (next-scan laws packets it v cap)

  -- On a valid iterator over bytes, whose buffer has room for the largest payload and seven bytes,
  -- `next` returns. An item comes from a framed packet of the bytes ahead, whose payload is no
  -- longer than the largest, and the bytes ahead afterwards stand behind it; or two sync chars
  -- stand ahead, then class, id, length and a payload that is no longer than the largest, then two
  -- bytes that are not the checksum, and the item is the error with these two and the checksum, and
  -- the bytes ahead afterwards stand behind the sync chars. Without an item, only bytes at the
  -- front are given up.
  pub next-Origin :
      (it : ParserIter T)
      → IsValid laws it.buf
      → packets.max_payload_len + 7 ≤ ops.max_capacity it.buf.buf
      → All IsByte (view laws it.buf)
      → (item : Option (Result P ParserError)) × (rest : ParserIter T) × (Parser.next ops packets it
          ≡ some (item, rest))
        × Origin packets (view laws it.buf) (item, view laws rest.buf)
  next-Origin it v cap bytes =
      let r = next-scan laws packets it v cap in
      let s = scan packets (view laws it.buf) in
      (
        s.0,
        r.rest,
        r.runs,
        subst (λ z. Origin packets (view laws it.buf) (s.0, z)) (sym r.left)
            (scan-Origin packets (view laws it.buf) bytes),
      )
