-- ===== src/Dual/Room.antt =====
-- When `can_drain_and_take` of `DualBuffer` (ublox/src/parser.rs) answers yes, and what `take` promises.
use ublox.Prelude.{
  ℕ, ◌-◌, ◌≤◌, ◌≡◌, Option, some, List, length, take, drop, arith, min, sub, length-drop, Bool,
  true, false, leb, ltb, ◌==◌, if◌then◌else◌, ◌>>=◌, ◌&&◌, ◌||◌,
}
use ublox.Error.{ParserError, Result, ok}
use ublox.Buffer.{UnderlyingBuffer, Laws}
use ublox.Dual
use ublox.Dual.{DualBuffer}
use ublox.Dual.View.{held, view, IsValid, sub-held, sub-view, drained, drained-IsValid}

-- The tests of `can_drain_and_take`, for `h` bytes in the parser's buffer and `a` in all.
take_tests :
    (h a cap n : ℕ)
    → h ≤ cap
    → (if ltb a n
        then some false
        else if min h n == 0
        then some true
        else if n - min h n == 0
        then some true
        else (do room ← sub cap h; some (leb (n - min h n) room)))
      ≡ some (leb n a && (h == 0 || (leb n h || leb n cap)))
take_tests h a cap n le = ground arith

module _ {T : Type 0} {ops : UnderlyingBuffer T} (laws : Laws ops) where
  -- `n` bytes can be taken as one slice: they are there, and they lie in one of the two parts, or
  -- the parser's buffer has room for them.
  abbrev pub can_take : DualBuffer T → ℕ → Bool
  can_take d n =
      leb n (length (view laws d))
      && ((length (held laws d) == 0)
          || (leb n (length (held laws d)) || leb n (ops.max_capacity d.buf)))

  -- On a valid `DualBuffer` with at least `m` bytes ahead, `can_drain_and_take` answers whether,
  -- once `m` bytes are drained, `n` bytes can be taken as one slice.
  pub can_drain_and_take-view :
      (d : DualBuffer T) (m n : ℕ)
      → IsValid laws d
      → m ≤ length (view laws d)
      → Dual.can_drain_and_take ops d m n ≡ some (can_take (drained laws d m) n)
  unfolding Dual.can_drain_and_take
  can_drain_and_take-view d m n v h =
      let w = drained-IsValid laws d m v h in
      let e = drained laws d m in
      rw (sub-held laws d v, sub-held laws e w, sub-view laws e w)
        (take_tests (length (held laws e)) _ (ops.max_capacity d.buf) n
          (omega (arith, laws.len-le d.buf v.buf_valid, length-drop e.off (laws.contents d.buf))))

  -- What a successful `take` of `n` bytes does: it returns the first `n` bytes of the view, and
  -- leaves the others.
  pub record Taken (d : DualBuffer T) (n : ℕ)
      (out : Option (Result (List ℕ) ParserError × DualBuffer T)) : Type 0 where
    pub rest : DualBuffer T
    pub runs : out ≡ some (ok (take n (view laws d)), rest)
    pub valid : IsValid laws rest
    pub left : view laws rest ≡ drop n (view laws d)
    pub capacity : ops.max_capacity rest.buf ≡ ops.max_capacity d.buf
