-- ===== src/Session/Total.antt =====
-- A read (ublox/src/lib.rs) by a parser whose buffer has any capacity: no panic, and an end.
use ublox.Prelude.{
  ℕ, zero, suc, ◌+◌, ◌≤◌, ◌<◌, ◌≡◌, refl, ◌∙◌, Option, some, List, [], ◌∷◌, length, arith,
  length-take, ap, subst, Option-cases, inl, inr,
}
use ublox.Error.{ParserError, Result}
use ublox.Buffer.{UnderlyingBuffer, Laws, Fits}
use ublox.Dual.View.{view, IsValid, len-view}
use ublox.Dual.Peek.{drop_dual-view}
use ublox.Packets.{Packets}
use ublox.Parser.{Parser, ParserIter}
use ublox.Parser.Next.{consume-scan}
use ublox.Parser.Total.{Progress}
use ublox.Parser.Total.Loop.{Nexts-next}
use ublox.Session.{collect, receive}

module _ {T P : Type 0} {ops : UnderlyingBuffer T} (laws : Laws ops) (packets : Packets P) where
  record Collected (it : ParserIter T) (out : Option (List (Result P ParserError) × ParserIter T))
      : Type 0 where
    items : List (Result P ParserError)
    last : ParserIter T
    runs : out ≡ some (items, last)
    valid : IsValid laws last.buf
    fewer : length items + length (view laws last.buf) ≤ length (view laws it.buf)
    capacity : ops.max_capacity last.buf.buf ≡ ops.max_capacity it.buf.buf

  Collected-collect :
      (fuel : ℕ) (it : ParserIter T)
      → IsValid laws it.buf
      → length (view laws it.buf) < fuel
      → Collected it (collect ops packets fuel it)
  unfolding collect
  Collected-collect zero it v h = absurd (omega arith)
  Collected-collect (suc fuel) it v h =
      let r = Nexts-next laws packets it v in
      elim (Option-cases r.item) [
        | inl e ↦
            let left = length (view laws r.rest.buf) in
            let p : left ≤ length (view laws it.buf) =
              subst (λ o. Progress laws packets o left (length (view laws it.buf))) e r.progress in
            rw (r.runs, e)
              (record {
                items = [];
                last = r.rest;
                runs = refl;
                valid = r.valid;
                fewer = omega arith;
                capacity = r.capacity;
              })
        | inr (x, e) ↦
            let left = length (view laws r.rest.buf) in
            let p : left < length (view laws it.buf) =
              subst (λ o. Progress laws packets o left (length (view laws it.buf))) e r.progress in
            let more = Collected-collect fuel r.rest r.valid (omega arith) in
            rw (r.runs, e, more.runs)
              (record {
                items = x ∷ more.items;
                last = more.last;
                runs = refl;
                valid = more.valid;
                fewer = omega (arith, more.fewer);
                capacity = more.capacity ∙ r.capacity;
              })
      ]

  -- What a read does: it delivers no more items than there are bytes, and what it keeps fits.
  pub record Reads (p : Parser T) (bytes : List ℕ)
      (out : Option (List (Result P ParserError) × Parser T)) : Type 0 where
    pub items : List (Result P ParserError)
    pub after : Parser T
    pub runs : out ≡ some (items, after)
    pub valid : laws.IsValid after.buf
    pub fewer :
        length items + length (laws.contents after.buf)
        ≤ length (laws.contents p.buf) + length bytes
    pub capacity : ops.max_capacity after.buf ≡ ops.max_capacity p.buf

  -- A read by a parser over any valid buffer, whatever its capacity, where the bytes kept and the
  -- new ones together are no more than the largest object, ends without a panic: the items and the
  -- bytes kept after it are together no more than the bytes kept before and the new ones, and the
  -- buffer stays valid and keeps its capacity.
  pub Reads-receive :
      (p : Parser T) (bytes : List ℕ)
      → laws.IsValid p.buf
      → Fits (length (laws.contents p.buf)) (length bytes)
      → Reads p bytes (receive ops packets p bytes)
  unfolding receive
  Reads-receive p bytes w fits =
      let c = consume-scan laws packets p bytes w fits in
      let r = Collected-collect (suc (length (view laws c.it.buf))) c.it c.valid (omega arith) in
      let (b, run, valid, kept, same) = drop_dual-view laws r.last.buf r.valid in
      rw (c.runs, len-view laws c.it.buf c.valid, r.runs, run)
        (record {
          items = r.items;
          after = record { buf = b };
          runs = refl;
          valid = valid;
          fewer = omega (
            arith,
            r.fewer,
            c.shorter,
            ap length kept,
            length-take (ops.max_capacity r.last.buf.buf) (view laws r.last.buf),
          );
          capacity = same ∙ r.capacity ∙ c.capacity;
        })
