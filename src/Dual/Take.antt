-- ===== src/Dual/Take.antt =====
-- `take` of `DualBuffer` (ublox/src/parser.rs), on every branch.
use ublox.Prelude.{
  ℕ, ◌+◌, ◌-◌, ◌≤◌, ◌<◌, ◌≡◌, ◌∙◌, ap, none, some, length, arith, min, length-append, length-drop,
  Bool-cases, inl, inr, true, false, ltb, ◌==◌, sub-of_le,
}
use ublox.Error.{out_of_memory, err}
use ublox.Buffer.{UnderlyingBuffer, Laws}
use ublox.Dual
use ublox.Dual.{DualBuffer}
use ublox.Dual.View.{held, fresh, view, IsValid, sub-held}
use ublox.Dual.Room.{can_take, Taken}
use ublox.Dual.Moves.{Taken-held, Taken-fresh, Taken-extended, Taken-moved, held_slice}

module _ {T : Type 0} {ops : UnderlyingBuffer T} (laws : Laws ops) where
  -- On a valid `DualBuffer`, where `n` bytes can be taken as one slice, `take` returns the first
  -- `n` bytes of the view and leaves the others, valid and with the same capacity, whether it
  -- copies bytes or not.
  pub Taken-take :
      (d : DualBuffer T) (n : ℕ)
      → IsValid laws d
      → can_take laws d n ≡ true
      → Taken laws d n (Dual.take ops d n)
  unfolding Dual.take
  Taken-take d n v h =
      let cap = ops.max_capacity d.buf in
      let l = length (laws.contents d.buf) in
      let k = length (held laws d) in
      let new_bytes = n - min k n in
      let left = length d.new_buf - d.new_buf_offset in
      let enough : n ≤ length (view laws d) = ground arith in
      let sizes : length (view laws d) ≡ k + left =
        length-append (held laws d) (fresh laws d)
        ∙ ap (◌+◌ k) (length-drop d.new_buf_offset d.new_buf) in
      let f0 : ltb left new_bytes ≡ false = ground arith in
      rw (sub-held laws d v, sub-of_le (length d.new_buf) d.new_buf_offset v.new_le, f0)
        (elim (Bool-cases (min k n == 0)) [
          | inl z ↦ rw z (Taken-fresh laws d n v enough (ground arith))
          | inr nz ↦ elim (Bool-cases (new_bytes == 0)) [
            | inl z ↦
                rw (nz, z)
                  (Taken-held laws d n v (ground arith) (held_slice laws d n v (ground arith)))
            | inr more ↦
                let f1 : ltb cap n ≡ false = ground arith in
                rw
                  (
                    nz,
                    more,
                    f1,
                    laws.len_lem d.buf v.buf_valid,
                    sub-of_le cap l (laws.len-le d.buf v.buf_valid),
                  )
                  (elim (Bool-cases (ltb new_bytes (cap - l))) [
                    | inl room ↦ rw room (Taken-extended laws d n v enough (ground arith))
                    | inr full ↦
                        rw full (Taken-moved laws d n v enough (ground arith) (ground arith))
                  ])
          ]
        ])

  -- On a valid `DualBuffer` where `n` bytes are ahead, and cannot be taken as one slice, `take`
  -- returns `OutOfMemory` with the size and changes nothing.
  pub take-out_of_memory :
      (d : DualBuffer T) (n : ℕ)
      → IsValid laws d
      → n ≤ length (view laws d)
      → can_take laws d n ≡ false
      → Dual.take ops d n ≡ some (err (out_of_memory n), d)
  unfolding Dual.take
  take-out_of_memory d n v enough h =
      let sizes : length (view laws d)
          ≡ length (held laws d) + (length d.new_buf - d.new_buf_offset) =
        length-append (held laws d) (fresh laws d)
        ∙ ap (◌+◌ (length (held laws d))) (length-drop d.new_buf_offset d.new_buf) in
      rw (sub-held laws d v, sub-of_le (length d.new_buf) d.new_buf_offset v.new_le) (ground arith)

  -- On a valid `DualBuffer` with fewer than `n` bytes ahead, `take` panics.
  pub take-panic :
      (d : DualBuffer T) (n : ℕ)
      → IsValid laws d
      → length (view laws d) < n
      → Dual.take ops d n ≡ none
  unfolding Dual.take
  take-panic d n v h =
      let sizes : length (view laws d)
          ≡ length (held laws d) + (length d.new_buf - d.new_buf_offset) =
        length-append (held laws d) (fresh laws d)
        ∙ ap (◌+◌ (length (held laws d))) (length-drop d.new_buf_offset d.new_buf) in
      rw (sub-held laws d v, sub-of_le (length d.new_buf) d.new_buf_offset v.new_le) (ground arith)
