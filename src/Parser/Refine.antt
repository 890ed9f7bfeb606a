-- ===== src/Parser/Refine.antt =====
-- When a method of `ParserIter` (ublox/src/parser.rs) does what the reference says.
use ublox.Prelude.{
  ℕ, ◌+◌, ◌≤◌, ◌<◌, ◌≡◌, refl, sym, ◌∙◌, ap, Option, some, List, ◌∷◌, length, drop, arith,
  length-drop, ◌>>=◌, get_elem?, get_elem?-drop,
}
use ublox.Error.{ParserError, Result}
use ublox.Buffer.{UnderlyingBuffer, Laws}
use ublox.Dual
use ublox.Dual.{DualBuffer}
use ublox.Dual.View.{
  view, IsValid, drained, drain-drained, drained-IsValid, view-drained, index-view,
}

module _ {T P : Type 0} {ops : UnderlyingBuffer T} (laws : Laws ops) where
  -- The code returns the item that the reference gives, and leaves the bytes that it leaves.
  pub record Refines (d : DualBuffer T)
      (out : Option (Option (Result P ParserError) × DualBuffer T))
      (spec : Option (Result P ParserError) × List ℕ) : Type 0 where
    pub rest : DualBuffer T
    pub runs : out ≡ some (spec.0, rest)
    pub valid : IsValid laws rest
    pub left : view laws rest ≡ spec.1
    pub capacity : ops.max_capacity rest.buf ≡ ops.max_capacity d.buf

  -- `drain` where enough bytes are there.
  pub Refines-drain :
      (d : DualBuffer T) (n : ℕ) (item : Option (Result P ParserError)) {xs : List ℕ}
      → IsValid laws d
      → n ≤ length (view laws d)
      → drop n (view laws d) ≡ xs
      → Refines d (do rest ← Dual.drain ops d n; some (item, rest)) (item, xs)
  Refines-drain d n item v h e = record {
    rest = drained laws d n;
    runs = rw (drain-drained laws d n v);
    valid = drained-IsValid laws d n v h;
    left = view-drained laws d n ∙ e;
    capacity = refl;
  }

module _ {T : Type 0} {ops : UnderlyingBuffer T} (laws : Laws ops) where
  -- A read where the view is known.
  pub index_at :
      (d : DualBuffer T) (k : ℕ) {x : ℕ} {xs : List ℕ}
      → IsValid laws d
      → drop k (view laws d) ≡ x ∷ xs
      → Dual.index ops d k ≡ some x
  index_at d k {x} {xs} v e =
      let more : k < length (view laws d) =
        omega (arith, ap length e, length-drop k (view laws d)) in
      let z : k + 0 ≡ k = omega arith in
      index-view laws d k v more
      ∙ ap (get_elem? (view laws d)) (sym z)
      ∙ sym (get_elem?-drop k (view laws d) 0)
      ∙ ap (λ xs. get_elem? xs 0) e
