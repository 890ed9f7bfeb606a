-- ===== src/Tests/Streams.antt =====
-- Runs and instances for the parser (ublox/src/parser.rs), its use (ublox/src/lib.rs) and framed
-- packets.
use ublox.Prelude.{
  ℕ, ◌+◌, ◌≤◌, ◌≡◌, refl, Option, none, some, List, [], ◌∷◌, ◌++◌, arith, position, All, false,
}
use mathlib.Core.List.{flatten}
use ublox.Error.{ParserError, Result, ok, err, invalid_checksum}
use ublox.Buffer.Vector
use ublox.Buffer.Vector.{Vector, vector_buffer, vector_laws}
use ublox.Buffer.Fixed
use ublox.Buffer.Fixed.{fixed_buffer}
use ublox.Buffer.Fixed.Laws.{fixed_laws}
use ublox.Checksum
use ublox.Dual.View.{IsValid, drained, view}
use ublox.Dual.Room.{can_take}
use ublox.Frame.{frame}
use ublox.Frame.Sound.{Origin, IsByte}
use ublox.Frame.Next.{next-frame, next-Origin}
use ublox.Session.Frames.{receive_all-frames}
use ublox.Parser
use ublox.Parser.{Parser, ParserIter, extract_packet}
use ublox.Parser.Scan.{scan, after_sync, header, close}
use ublox.Parser.Next.{Follows, next-scan}
use ublox.Parser.Total.Loop.{Nexts, Nexts-next}
use ublox.Session.Total.{Reads, Reads-receive}
use ublox.Session.{receive, receive_all}
use ublox.Session.Finds.{Finds, stop, item}
use ublox.Session.Chunks.{Received, Received-receive, receive_all-flatten}
use ublox.Tests.Sample.{
  Raw, raw_packets, ack_ack, bad_ack, empty_parser, split_iter, too_large, three_of_four,
}

ack : Result Raw ParserError
ack = ok (0x5, 0x1, 0x4 ∷ 0x5 ∷ [])

-- The reference finds the packet behind a byte of noise.
scan-ack : scan raw_packets (0x0 ∷ ack_ack ++ (0x7 ∷ [])) ≡ (some ack, 0x7 ∷ [])
unfolding scan after_sync header close Checksum.ubx_checksum ack
scan-ack = refl

scan_half : scan raw_packets (0xb5 ∷ 0x62 ∷ 0x5 ∷ []) ≡ (none, 0xb5 ∷ 0x62 ∷ 0x5 ∷ [])
unfolding scan after_sync header
scan_half = refl

-- A wrong checksum is reported, and the search goes on behind the two sync chars.
scan_bad : scan raw_packets bad_ack ≡ (
  some (err (invalid_checksum 0x3911 0x3811)),
  0x5 ∷ 0x1 ∷ 0x2 ∷ 0x0 ∷ 0x4 ∷ 0x5 ∷ 0x11 ∷ 0x39 ∷ [],
)
unfolding scan after_sync header close Checksum.ubx_checksum
scan_bad = refl

split_iter-IsValid : IsValid vector_laws split_iter.buf
split_iter-IsValid = record {
  buf_valid = omega arith;
  off_le = omega arith;
  new_le = omega arith;
  fits = omega arith;
}

room : (v : Vector) → raw_packets.max_payload_len + 7 ≤ Vector.max_capacity v
unfolding Vector.max_capacity
room v = omega arith

next-scan_example :
    Follows vector_laws raw_packets split_iter
      (Parser.next vector_buffer raw_packets split_iter)
      (scan raw_packets ack_ack)
next-scan_example = next-scan vector_laws raw_packets split_iter split_iter-IsValid (room _)

Received-receive_example :
    Received vector_laws raw_packets empty_parser ack_ack
      (receive vector_buffer raw_packets empty_parser ack_ack)
Received-receive_example =
    Received-receive vector_laws raw_packets empty_parser ack_ack (omega arith) (room [])
      (omega arith)

empty_settled : scan raw_packets [] ≡ (none, [])
unfolding scan
empty_settled = refl

abbrev pieces : List (List ℕ)
pieces = (0xb5 ∷ 0x62 ∷ 0x5 ∷ []) ∷ (0x1 ∷ 0x2 ∷ 0x0 ∷ 0x4 ∷ 0x5 ∷ 0x11 ∷ 0x38 ∷ []) ∷ []

receive_all-flatten_example :
    (items : List (Result Raw ParserError)) × (cut : Parser Vector) × (whole : Parser Vector)
    × (receive_all vector_buffer raw_packets empty_parser pieces ≡ some (items, cut))
    × (receive vector_buffer raw_packets empty_parser ack_ack ≡ some (items, whole))
    × (cut.buf ≡ whole.buf)
unfolding flatten
receive_all-flatten_example =
    receive_all-flatten vector_laws raw_packets pieces empty_parser (omega arith) (room [])
      empty_settled (omega arith, (omega arith, tt)) (omega arith)

too_large-IsValid : IsValid fixed_laws too_large
too_large-IsValid = record {
  buf_valid = omega arith;
  off_le = omega arith;
  new_le = omega arith;
  fits = omega arith;
}

too_large-no_room : can_take fixed_laws (drained fixed_laws too_large 6) 38 ≡ false
too_large-no_room = refl

found_ack : Finds raw_packets (0x0 ∷ ack_ack ++ (0x7 ∷ [])) (ack ∷ []) []
unfolding scan
found_ack = item scan-ack (stop refl)

abbrev acks : List (Result Raw ParserError)
acks = ack ∷ []

abbrev nothing : List ℕ
nothing = []

ack_ack-All : All IsByte ack_ack
ack_ack-All = (
  omega arith,
  (
    omega arith,
    (
      omega arith,
      (
        omega arith,
        (
          omega arith,
          (omega arith, (omega arith, (omega arith, (omega arith, (omega arith, tt))))),
        ),
      ),
    ),
  ),
)

-- The packet spans the bytes that were kept and the new data.
next-frame_example :
    Follows vector_laws raw_packets split_iter
      (Parser.next vector_buffer raw_packets split_iter)
      (some ack, [])
unfolding ack frame Checksum.ubx_checksum position
next-frame_example =
    next-frame vector_laws raw_packets split_iter [] 0x5 0x1 (0x4 ∷ 0x5 ∷ []) [] split_iter-IsValid
      (room _) refl refl (omega arith) (omega arith)

next-Origin_example :
    (x : Option (Result Raw ParserError)) × (rest : ParserIter Vector) × (Parser.next vector_buffer
        raw_packets split_iter
      ≡ some (x, rest))
    × Origin raw_packets ack_ack (x, view vector_laws rest.buf)
next-Origin_example =
    next-Origin vector_laws raw_packets split_iter split_iter-IsValid (room _) ack_ack-All

receive_all-frames_example :
    (after : Parser Vector) × (receive_all vector_buffer raw_packets
        (Parser.new vector_buffer raw_packets [])
        pieces
      ≡ some (ack ∷ [], after))
    × (after.buf ≡ [])
unfolding ack frame Checksum.ubx_checksum flatten
receive_all-frames_example =
    receive_all-frames vector_laws raw_packets [] pieces ((0x5, 0x1, 0x4 ∷ 0x5 ∷ []) ∷ [])
      (omega arith) refl (room []) ((omega arith, omega arith), tt) (omega arith, (omega arith, tt))
      refl

-- A parser over a buffer of four bytes, three in use.
abbrev small_parser : Parser Fixed.FixedLinearBuffer
small_parser = record { buf = three_of_four }

abbrev small_iter : ParserIter Fixed.FixedLinearBuffer
small_iter = record { buf = too_large }

Nexts-next_example :
    Nexts fixed_laws raw_packets small_iter (Parser.next fixed_buffer raw_packets small_iter)
Nexts-next_example = Nexts-next fixed_laws raw_packets small_iter too_large-IsValid

Reads-receive_example :
    Reads fixed_laws raw_packets small_parser ack_ack
      (receive fixed_buffer raw_packets small_parser ack_ack)
Reads-receive_example =
    Reads-receive fixed_laws raw_packets small_parser ack_ack (omega arith) (omega arith)
