-- ===== src/Error.antt =====
-- The error types of ublox/src/error.rs.
use ublox.Prelude.{ℕ}
use Prim.Native.String.{String}

pub data MemWriterError (E : Type 0) : Type 0 where
  not_enough_mem : MemWriterError E
  custom : E → MemWriterError E

pub data ParserError : Type 0 where
  invalid_checksum : (expect got : ℕ) → ParserError
  invalid_field : (packet field : String) → ParserError
  invalid_packet_len : (packet : String) (expect got : ℕ) → ParserError
  out_of_memory : (required_size : ℕ) → ParserError

pub data DateTimeError : Type 0 where
  invalid_date invalid_time invalid_nanoseconds : DateTimeError

-- `Result<A, E>`
pub data Result {ℓ κ} (A : Type ℓ) (E : Type κ) : Type (ℓ ⊔ κ) where
  ok : A → Result A E
  err : E → Result A E
