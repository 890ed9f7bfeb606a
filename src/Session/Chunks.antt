-- ===== src/Session/Chunks.antt =====
-- Reads (ublox/src/lib.rs) deliver what the reference finds in the stream, however it is cut.
use ublox.Prelude.{
  ℕ, zero, suc, ◌+◌, ◌≤◌, ◌<◌, ◌≡◌, refl, sym, ◌∙◌, ap, Option, none, some, List, [], ◌∷◌, ◌++◌,
  length, arith, Option-cases, inl, inr, take-of_le, append-nil, append_assoc,
}
use mathlib.Core.List.{flatten}
use ublox.Error.{ParserError, Result}
use ublox.Buffer.{UnderlyingBuffer, Laws, Fits}
use ublox.Dual.View.{view, IsValid, len-view}
use ublox.Dual.Peek.{drop_dual-view}
use ublox.Packets.{Packets}
use ublox.Parser.{Parser, ParserIter}
use ublox.Parser.Scan.{scan}
use ublox.Parser.Next.{next-scan, consume-scan}
use ublox.Parser.Stream.{length-scan-some, length-scan-none}
use ublox.Session.{collect, receive, receive_all}
use ublox.Session.Finds.{
  Finds, stop, item, Finds-of_same, Finds-append, Finds-unique, length-Finds, scan-Finds,
}

module _ {T P : Type 0} {ops : UnderlyingBuffer T} (laws : Laws ops) (packets : Packets P) where
  record Collected (it : ParserIter T) (out : Option (List (Result P ParserError) × ParserIter T))
      : Type 0 where
    items : List (Result P ParserError)
    last : ParserIter T
    runs : out ≡ some (items, last)
    found : Finds packets (view laws it.buf) items (view laws last.buf)
    valid : IsValid laws last.buf
    capacity : ops.max_capacity last.buf.buf ≡ ops.max_capacity it.buf.buf

  collect_lem :
      (fuel : ℕ) (it : ParserIter T)
      → IsValid laws it.buf
      → packets.max_payload_len + 7 ≤ ops.max_capacity it.buf.buf
      → length (view laws it.buf) < fuel
      → Collected it (collect ops packets fuel it)
  unfolding collect
  collect_lem zero it v cap h = absurd (omega arith)
  collect_lem (suc fuel) it v cap h =
      let r = next-scan laws packets it v cap in
      elim (Option-cases (scan packets (view laws it.buf)).0) [
        | inl e ↦
            rw (r.runs, e)
              (record {
                items = [];
                last = r.rest;
                runs = refl;
                found = stop (λ i. (e i, sym r.left i));
                valid = r.valid;
                capacity = r.capacity;
              })
        | inr (x, e) ↦
            let one : scan packets (view laws it.buf) ≡ (some x, view laws r.rest.buf) =
              λ i. (e i, sym r.left i) in
            let shorter = length-scan-some packets _ _ one in
            let more =
              collect_lem fuel r.rest r.valid (omega (arith, r.capacity))
                (omega (arith, shorter)) in
            rw (r.runs, e, more.runs)
              (record {
                items = x ∷ more.items;
                last = more.last;
                runs = refl;
                found = item one more.found;
                valid = more.valid;
                capacity = more.capacity ∙ r.capacity;
              })
      ]

  -- What a read does: it delivers `items` and leaves the parser that keeps the bytes after them.
  pub record Received (p : Parser T) (bytes : List ℕ)
      (out : Option (List (Result P ParserError) × Parser T)) : Type 0 where
    pub items : List (Result P ParserError)
    pub after : Parser T
    pub runs : out ≡ some (items, after)
    pub found : Finds packets (laws.contents p.buf ++ bytes) items (laws.contents after.buf)
    pub valid : laws.IsValid after.buf
    pub capacity : ops.max_capacity after.buf ≡ ops.max_capacity p.buf

  -- A read by a valid parser whose buffer has room for the largest payload and seven bytes does not
  -- panic: the items it delivers are those that the reference finds in the bytes kept and the new
  -- ones behind them, until it wants more bytes, and what the reference keeps then is what the
  -- parser keeps, in a valid buffer of the same capacity.
  pub Received-receive :
      (p : Parser T) (bytes : List ℕ)
      → laws.IsValid p.buf
      → packets.max_payload_len + 7 ≤ ops.max_capacity p.buf
      → Fits (length (laws.contents p.buf)) (length bytes)
      → Received p bytes (receive ops packets p bytes)
  unfolding receive
  Received-receive p bytes w cap fits =
      let c = consume-scan laws packets p bytes w fits in
      let r =
        collect_lem (suc (length (view laws c.it.buf))) c.it c.valid (omega (arith, c.capacity))
          (omega arith) in
      let (b, run, valid, kept, same) = drop_dual-view laws r.last.buf r.valid in
      let short : length (view laws r.last.buf) ≤ ops.max_capacity r.last.buf.buf =
        omega (arith, length-Finds packets r.found, r.capacity, c.capacity) in
      let all : laws.contents b ≡ view laws r.last.buf = kept ∙ take-of_le _ _ short in
      rw (c.runs, len-view laws c.it.buf c.valid, r.runs, run)
        (record {
          items = r.items;
          after = record { buf = b };
          runs = refl;
          found = rw all (Finds-of_same packets (sym c.same) r.found);
          valid = valid;
          capacity = same ∙ r.capacity ∙ c.capacity;
        })

  -- The parser keeps nothing in which an item could be found without more bytes, as after `new` with
  -- an empty buffer, and after any read.
  abbrev IsSettled : Parser T → Type 0
  IsSettled p = scan packets (laws.contents p.buf) ≡ (none, laws.contents p.buf)

  -- Each read is small enough for what may be kept before it.
  abbrev pub SmallReads : List (List ℕ) → Type 0
  SmallReads [] = Unit
  SmallReads (chunk ∷ chunks) =
      Fits (packets.max_payload_len + 7) (length chunk) × SmallReads chunks

  pub Received-receive_all :
      (chunks : List (List ℕ)) (p : Parser T)
      → laws.IsValid p.buf
      → packets.max_payload_len + 7 ≤ ops.max_capacity p.buf
      → IsSettled p
      → SmallReads chunks
      → Received p (flatten chunks) (receive_all ops packets p chunks)
  unfolding receive_all flatten
  Received-receive_all [] p w cap settled small = record {
    items = [];
    after = p;
    runs = refl;
    found = rw append-nil (stop settled);
    valid = w;
    capacity = refl;
  }
  Received-receive_all (chunk ∷ chunks) p w cap settled small =
      let short = (length-scan-none packets _ _ settled).1 in
      let r = Received-receive p chunk w cap (omega (arith, short, small.0)) in
      let more =
        Received-receive_all chunks r.after r.valid (omega (arith, r.capacity))
          (scan-Finds packets r.found) (small.1) in
      rw (r.runs, more.runs)
        (record {
          items = r.items ++ more.items;
          after = more.after;
          runs = refl;
          found =
              rw (← append_assoc (laws.contents p.buf) chunk (flatten chunks))
                (Finds-append packets (flatten chunks) r.found more.found);
          valid = more.valid;
          capacity = more.capacity ∙ r.capacity;
        })

  -- However the data is cut into reads that are small enough, a valid and settled parser, whose
  -- buffer has room for the largest payload and seven bytes, delivers the same items, and keeps the
  -- same bytes at the end, as from one read of all of the data.
  pub receive_all-flatten :
      (chunks : List (List ℕ)) (p : Parser T)
      → laws.IsValid p.buf
      → packets.max_payload_len + 7 ≤ ops.max_capacity p.buf
      → IsSettled p
      → SmallReads chunks
      → Fits (packets.max_payload_len + 7) (length (flatten chunks))
      → (items : List (Result P ParserError)) × (cut : Parser T) × (whole : Parser T) × (receive_all
            ops packets p chunks
          ≡ some (items, cut))
        × (receive ops packets p (flatten chunks) ≡ some (items, whole))
        × (laws.contents cut.buf ≡ laws.contents whole.buf)
  receive_all-flatten chunks p w cap settled small fits =
      let short = (length-scan-none packets _ _ settled).1 in
      let a = Received-receive_all chunks p w cap settled small in
      let b = Received-receive p (flatten chunks) w cap (omega (arith, short)) in
      let (items, bytes) = Finds-unique packets a.found b.found in
      (a.items, a.after, b.after, a.runs, b.runs ∙ ap (λ x. some (x, b.after)) (sym items), bytes)
