-- ===== src/Packet/Desc.antt =====
-- Descriptions of packets (`PackDesc` in ublox_derive/src/types.rs), and the `validate` that
-- ublox_derive/src/output.rs makes for them. `none` is a panic.
use ublox.Prelude.{
  ℕ, ◌+◌, ◌*◌, ◌/◌, ◌%◌, ◌^◌, Option, none, some, List, [], ◌∷◌, length, drop, Bool, true, leb, ltb,
  ◌==◌, if◌then◌else◌, ◌>>=◌,
}
use Prim.Native.String.{String}
use ublox.Error.{ParserError, invalid_field, invalid_packet_len, Result, ok, err}
use ublox.Buffer.Vector.{slice_index}
use ublox.Cfg.Value.{from_le_bytes}
use ublox.Packet.Check.{
  IsValidFn, no_check, one_of, cstr, any_bytes, multiple_of, cstr_chunks, is_valid,
}

-- The functions that give the length of a field: those of `EsfMeas`.
pub data SizeFn : Type 0 where
  data_len calib_tag_len : SizeFn

-- `EsfMeasRef::flags` reads the bytes 4 and 5.
unfoldable pub size_of : SizeFn → List ℕ → Option ℕ
size_of data_len payload = do
  flags ← from_le_bytes 2 (drop 4 payload)
  some (flags / 2 ^ 11 % 32 * 4)
size_of calib_tag_len payload = do
  flags ← from_le_bytes 2 (drop 4 payload)
  some (if flags / 2 ^ 3 % 2 == 0 then 0 else 4)

-- `size_bytes` is `None` for a field of type `[u8; 0]`; the name is the accessor's.
pub record PackField : Type 0 where
  pub name : String
  pub size_bytes : Option ℕ
  pub check : IsValidFn
  pub size_fn : Option SizeFn

pub data PayloadLen : Type 0 where
  fixed : ℕ → PayloadLen
  max : ℕ → PayloadLen

-- With the class and id of its header.
pub record PackDesc : Type 0 where
  pub name : String
  pub class : ℕ
  pub id : ℕ
  pub payload_len : PayloadLen
  pub fields : List PackField

-- A field of fixed size that may not fail, one that may, and a last field of open size.
abbrev pub field : String → ℕ → PackField
field name size = record { name = name; size_bytes = some size; check = no_check; size_fn = none }

abbrev pub checked : String → ℕ → IsValidFn → PackField
checked name size check = record {
  name = name;
  size_bytes = some size;
  check = check;
  size_fn = none;
}

abbrev pub open_field : String → IsValidFn → PackField
open_field name check = record { name = name; size_bytes = none; check = check; size_fn = none }

abbrev pub sized_field : String → IsValidFn → SizeFn → PackField
sized_field name check fn = record {
  name = name;
  size_bytes = none;
  check = check;
  size_fn = some fn;
}

unfoldable pub fields_size : List PackField → Option ℕ
fields_size [] = some 0
fields_size (f ∷ fields) = do size ← f.size_bytes; rest ← fields_size fields; some (size + rest)

unfoldable pub packet_payload_size : PackDesc → Option ℕ
packet_payload_size d = fields_size d.fields

-- `rev().skip(1)`
unfoldable pub except_last : List PackField → List PackField
except_last [] = []
except_last (f ∷ []) = []
except_last (f ∷ g ∷ fields) = f ∷ except_last (g ∷ fields)

unfoldable pub packet_payload_size_except_last_field : PackDesc → Option ℕ
packet_payload_size_except_last_field d = fields_size (except_last d.fields)

unfoldable pub without_size_fn : List PackField → List PackField
without_size_fn [] = []
without_size_fn (f ∷ fields) = elim f.size_fn [
  | none ↦ f ∷ without_size_fn fields
  | some fn ↦ without_size_fn fields
]

unfoldable pub packet_payload_size_except_size_fn : PackDesc → Option ℕ
packet_payload_size_except_size_fn d = fields_size (without_size_fn d.fields)

unfoldable pub unwrap_or_default : Option ℕ → ℕ
unwrap_or_default none = 0
unwrap_or_default (some n) = n

unfoldable pub size_fns : List PackField → List SizeFn
size_fns [] = []
size_fns (f ∷ fields) = elim f.size_fn [ none ↦ size_fns fields | some fn ↦ fn ∷ size_fns fields ]

unfoldable pub sum_of_size_fns : List SizeFn → List ℕ → Option ℕ
sum_of_size_fns [] payload = some 0
sum_of_size_fns (fn ∷ fns) payload = do
  n ← size_of fn payload
  rest ← sum_of_size_fns fns payload
  some (n + rest)

-- The value that a field's validator looks at: the bytes of the field, or all bytes from its offset
-- on where its size is not fixed.
unfoldable pub raw_field : Option ℕ → ℕ → List ℕ → Option (List ℕ)
raw_field (some size) off payload = slice_index payload off (off + size)
raw_field none off payload = slice_index payload off (length payload)

-- A field that may not fail has no validator.
unfoldable pub check_value : IsValidFn → Option (List ℕ) → Option Bool
check_value no_check val = some true
check_value (one_of values) val = do bytes ← val; some (is_valid (one_of values) bytes)
check_value cstr val = do bytes ← val; some (is_valid cstr bytes)
check_value any_bytes val = do bytes ← val; some (is_valid any_bytes bytes)
check_value (multiple_of n) val = do bytes ← val; some (is_valid (multiple_of n) bytes)
check_value (cstr_chunks n) val = do bytes ← val; some (is_valid (cstr_chunks n) bytes)

-- The offset behind a field.
unfoldable pub next_off : Option ℕ → ℕ → ℕ
next_off (some size) off = off + size
next_off none off = off

unfoldable pub validate_fields :
    String → ℕ → List PackField → List ℕ → Option (Result (Unit {0}) ParserError)
validate_fields packet off [] payload = some (ok tt)
validate_fields packet off (f ∷ fields) payload = do
  let rest = validate_fields packet (next_off f.size_bytes off) fields payload
  good ← check_value f.check (raw_field f.size_bytes off payload)
  if good then rest else some (err (invalid_field packet f.name))

-- The length that a packet of no fixed size has at least. The code is not generated where a field
-- but the last has no size and no function for it; that is `none` here.
unfoldable pub min_size : List SizeFn → PackDesc → List ℕ → Option (Result ℕ ParserError)
min_size [] d payload = do size ← packet_payload_size_except_last_field d; some (ok size)
min_size (fn ∷ fns) d payload =
    let size = unwrap_or_default (packet_payload_size_except_size_fn d) in
    if ltb (length payload) size
    then some (err (invalid_packet_len d.name size (length payload)))
    else (do sum ← sum_of_size_fns (fn ∷ fns) payload; some (ok (size + sum)))

-- `validate`, for a packet of that size, if it is fixed
unfoldable pub validate_by : Option ℕ → PackDesc → List ℕ → Option (Result (Unit {0}) ParserError)
validate_by (some expect) d payload =
    if length payload == expect
    then validate_fields d.name 0 d.fields payload
    else some (err (invalid_packet_len d.name expect (length payload)))
validate_by none d payload = do
  least ← min_size (size_fns d.fields) d payload
  elim least [
    | err e ↦ some (err e)
    | ok min ↦
        if leb min (length payload)
        then validate_fields d.name 0 d.fields payload
        else some (err (invalid_packet_len d.name min (length payload)))
  ]

unfoldable pub validate : PackDesc → List ℕ → Option (Result (Unit {0}) ParserError)
validate d payload = validate_by (packet_payload_size d) d payload
