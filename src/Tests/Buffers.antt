-- ===== src/Tests/Buffers.antt =====
-- Runs and instances for the buffers, `DualBuffer` and the checksum (ublox/src/parser.rs).
use ublox.Prelude.{◌≡◌, ◌≢◌, refl, some, [], ◌∷◌, take, arith}
use ublox.Error.{ok}
use ublox.Buffer.Vector.{slice_index}
use ublox.Buffer.Fixed.{fixed_buffer}
use ublox.Buffer.Fixed
use ublox.Buffer.Fixed.Laws.{fixed_laws, contents-drain, contents-extend, find-contents}
use ublox.Checksum
use ublox.Checksum.Laws.{ubx_checksum-detects_byte, ubx_checksum-detects_swap}
use ublox.Dual
use ublox.Dual.View.{view, IsValid, drained}
use ublox.Dual.Room.{can_take, Taken, can_drain_and_take-view}
use ublox.Dual.Take.{Taken-take}
use ublox.Dual.Peek.{drop_dual-view}
use ublox.Tests.Sample.{full_seven, full_dual, partial_dual}

full_dual-IsValid : IsValid fixed_laws full_dual
full_dual-IsValid = record {
  buf_valid = omega arith;
  off_le = omega arith;
  new_le = omega arith;
  fits = omega arith;
}

partial_dual-IsValid : IsValid fixed_laws partial_dual
partial_dual-IsValid = record {
  buf_valid = omega arith;
  off_le = omega arith;
  new_le = omega arith;
  fits = omega arith;
}

-- `dl_move_then_copy`
take_moves :
    Dual.take fixed_buffer full_dual 6
    ≡ some (
      ok (4 ∷ 5 ∷ 6 ∷ 7 ∷ 8 ∷ 9 ∷ []),
      record {
        buf = record { buffer = 4 ∷ 5 ∷ 6 ∷ 7 ∷ 8 ∷ 9 ∷ 7 ∷ []; len = 6 };
        off = 6;
        new_buf = 8 ∷ 9 ∷ 10 ∷ 11 ∷ 12 ∷ [];
        new_buf_offset = 2;
      },
    )
unfolding Dual.take Dual.take_moved Dual.take_extended Fixed.max_capacity Fixed.drain
    Fixed.extend_from_slice Fixed.copy_at Fixed.index_range slice_index
take_moves = refl

Taken-take_example : Taken fixed_laws full_dual 6 (Dual.take fixed_buffer full_dual 6)
unfolding Fixed.max_capacity
Taken-take_example = Taken-take fixed_laws full_dual 6 full_dual-IsValid refl

can_drain_and_take-view_example :
    Dual.can_drain_and_take fixed_buffer full_dual 1 7
    ≡ some (can_take fixed_laws (drained fixed_laws full_dual 1) 7)
can_drain_and_take-view_example =
    can_drain_and_take-view fixed_laws full_dual 1 7 full_dual-IsValid (omega arith)

drop_dual-view_example :
    let cap = Fixed.max_capacity in
    (b : Fixed.FixedLinearBuffer) × (Dual.drop_dual fixed_buffer full_dual ≡ some b)
    × Fixed.Laws.IsValid b
    × (Fixed.Laws.contents b ≡ take (cap full_seven) (view fixed_laws full_dual))
    × (cap b ≡ cap full_seven)
unfolding Fixed.max_capacity
drop_dual-view_example = drop_dual-view fixed_laws full_dual full_dual-IsValid

ubx_checksum-detects_byte_example :
    Checksum.ubx_checksum (5 ∷ 1 ∷ []) ≢ Checksum.ubx_checksum (5 ∷ 2 ∷ [])
ubx_checksum-detects_byte_example =
    ubx_checksum-detects_byte (5 ∷ []) [] 1 2 (omega arith) (omega arith) (omega arith)

ubx_checksum-detects_swap_example :
    Checksum.ubx_checksum (5 ∷ 1 ∷ 2 ∷ []) ≢ Checksum.ubx_checksum (5 ∷ 2 ∷ 1 ∷ [])
ubx_checksum-detects_swap_example =
    ubx_checksum-detects_swap (5 ∷ []) [] 1 2 (omega arith) (omega arith) (omega arith)
