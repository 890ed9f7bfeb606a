-- ===== src/Session.antt =====
-- The use of a parser that ublox/src/lib.rs documents: `consume` the data of a read, take items from
-- the iterator until it returns `None`, and drop the iterator, which puts the bytes that it has not
-- read back into the parser's buffer.
pub mod Finds
pub mod Chunks
pub mod Frames
pub mod Total
use ublox.Prelude.{ℕ, zero, suc, Option, none, some, List, [], ◌∷◌, ◌++◌, length, ◌>>=◌}
use ublox.Error.{ParserError, Result}
use ublox.Buffer.{UnderlyingBuffer}
use ublox.Dual
use ublox.Packets.{Packets}
use ublox.Parser
use ublox.Parser.{Parser, ParserIter}

module _ {T P : Type 0} (ops : UnderlyingBuffer T) (packets : Packets P) where
  -- `loop { match it.next() { .. None => break } }`; `none` is a panic, or the end of the fuel.
  pub collect : ℕ → ParserIter T → Option (List (Result P ParserError) × ParserIter T)
  collect zero it = none
  collect (suc fuel) it = do
    (item, rest) ← Parser.next ops packets it
    elim item [
      | none ↦ some ([], rest)
      | some r ↦ (do (items, last) ← collect fuel rest; some (r ∷ items, last))
    ]

  -- One read. Each item takes a byte at least.
  pub receive : Parser T → List ℕ → Option (List (Result P ParserError) × Parser T)
  receive p bytes = do
    it ← Parser.consume ops packets p bytes
    n ← Dual.len ops it.buf
    (items, last) ← collect (suc n) it
    buf ← Dual.drop_dual ops last.buf
    some (items, record { buf = buf })

  -- Several reads, one after the other.
  pub receive_all : Parser T → List (List ℕ) → Option (List (Result P ParserError) × Parser T)
  receive_all p [] = some ([], p)
  receive_all p (chunk ∷ chunks) = do
    (items, p1) ← receive p chunk
    (more, p2) ← receive_all p1 chunks
    some (items ++ more, p2)
