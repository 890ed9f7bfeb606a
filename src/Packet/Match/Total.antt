-- ===== src/Packet/Match/Total.antt =====
-- `validate` and `match_packet` (ublox_derive/src/output.rs) do not panic on the packets that are
-- received.
use ublox.Prelude.{
  ℕ, ◌+◌, ◌*◌, ◌/◌, ◌%◌, ◌^◌, ◌⊎◌, ◌≤◌, ◌≡◌, refl, Option, none, some, List, [], ◌∷◌, length, drop,
  Bool, true, leb, ltb, ◌==◌, if◌then◌else◌, arith, ap, ◌∙◌, Bool-cases, inl, inr, slice,
  length-drop,
}
use Prim.Native.String.{String}
use ublox.Error.{ParserError, Result, ok, err, invalid_field, invalid_packet_len}
use ublox.Buffer.Vector.{slice_index_lem}
use ublox.Cfg.Value.{from_le_bytes}
use ublox.Packet.Check.{
  IsValidFn, no_check, one_of, cstr, any_bytes, multiple_of, cstr_chunks, is_valid,
}
use ublox.Packet.Desc.{
  PackField, PackDesc, SizeFn, data_len, calib_tag_len, size_of, sum_of_size_fns, raw_field,
  check_value, next_off, validate_fields, min_size, validate_by, validate, size_fns,
  packet_payload_size, unwrap_or_default, packet_payload_size_except_size_fn,
}
use ublox.Packet.Match.Sizes.{known_size, covers, covers_by, least, at_least-some, read_size}

raw_field-total :
    (size : Option ℕ) (off : ℕ) (payload : List ℕ)
    → off + unwrap_or_default size ≤ length payload
    → (val : List ℕ) × (raw_field size off payload ≡ some val)
unfolding raw_field unwrap_or_default
raw_field-total (some size) off payload h = (
  slice off (off + size) payload,
  slice_index_lem payload off (off + size) (omega arith) (omega arith),
)
raw_field-total none off payload h = (
  slice off (length payload) payload,
  slice_index_lem payload off (length payload) (omega arith) (omega arith),
)

check_value-total :
    (check : IsValidFn) (val : Option (List ℕ)) (bytes : List ℕ)
    → val ≡ some bytes
    → (good : Bool) × (check_value check val ≡ some good)
unfolding check_value
check_value-total no_check val bytes e = (true, refl)
check_value-total (one_of values) val bytes e = (is_valid (one_of values) bytes, rw e refl)
check_value-total cstr val bytes e = (is_valid cstr bytes, rw e refl)
check_value-total any_bytes val bytes e = (is_valid any_bytes bytes, rw e refl)
check_value-total (multiple_of n) val bytes e = (is_valid (multiple_of n) bytes, rw e refl)
check_value-total (cstr_chunks n) val bytes e = (is_valid (cstr_chunks n) bytes, rw e refl)

next_off-eq : (size : Option ℕ) (off : ℕ) → next_off size off ≡ off + unwrap_or_default size
unfolding next_off unwrap_or_default
next_off-eq (some size) off = refl
next_off-eq none off = omega arith

validate_fields-total :
    (packet : String) (off : ℕ) (fields : List PackField) (payload : List ℕ)
    → off + known_size fields ≤ length payload
    → (out : Result (Unit {0}) ParserError) × (validate_fields packet off fields payload ≡ some out)
unfolding validate_fields
validate_fields-total packet off [] payload h = (ok tt, refl)
validate_fields-total packet off (f ∷ fields) payload h =
    let (val, run) = raw_field-total f.size_bytes off payload (omega arith) in
    let (good, checks) = check_value-total f.check (raw_field f.size_bytes off payload) val run in
    let (out, more) =
      validate_fields-total packet (next_off f.size_bytes off) fields payload
        (omega (arith, next_off-eq f.size_bytes off)) in
    elim (Bool-cases good) [
      | inl yes_good ↦ (out, rw (checks, yes_good, more) refl)
      | inr not_good ↦ (err (invalid_field packet f.name), rw (checks, not_good) refl)
    ]

from_le_bytes-total :
    (payload : List ℕ) → 2 ≤ length payload → (n : ℕ) × (from_le_bytes 2 payload ≡ some n)
unfolding from_le_bytes
from_le_bytes-total (a ∷ b ∷ payload) h = (_, refl)
from_le_bytes-total (a ∷ []) h = absurd (omega arith)
from_le_bytes-total [] h = absurd (omega arith)

size_of-total :
    (fn : SizeFn) (payload : List ℕ) → 6 ≤ length payload → (n : ℕ) × (size_of fn payload ≡ some n)
unfolding size_of
size_of-total data_len payload h =
    let (flags, e) = from_le_bytes-total (drop 4 payload) (omega (arith, length-drop 4 payload)) in
    (flags / 2 ^ 11 % 32 * 4, rw e refl)
size_of-total calib_tag_len payload h =
    let (flags, e) = from_le_bytes-total (drop 4 payload) (omega (arith, length-drop 4 payload)) in
    (if flags / 2 ^ 3 % 2 == 0 then 0 else 4, rw e refl)

sum_of_size_fns-total :
    (fns : List SizeFn) (payload : List ℕ)
    → 6 ≤ length payload
    → (n : ℕ) × (sum_of_size_fns fns payload ≡ some n)
unfolding sum_of_size_fns
sum_of_size_fns-total [] payload h = (0, refl)
sum_of_size_fns-total (fn ∷ fns) payload h =
    let (n, e) = size_of-total fn payload h in
    let (rest, more) = sum_of_size_fns-total fns payload h in (n + rest, rw (e, more) refl)

-- The least length is not below what is known of it, or an error is reported.
min_size-total :
    (fns : List SizeFn) (d : PackDesc) (payload : List ℕ) (n : ℕ)
    → least fns d ≡ some n
    → read_size fns ≤ n
    → ((e : ParserError) × (min_size fns d payload ≡ some (err e)))
      ⊎ ((m : ℕ) × (min_size fns d payload ≡ some (ok m)) × (n ≤ m))
unfolding min_size
min_size-total [] d payload n e h = inr (n, rw e refl, omega arith)
min_size-total (fn ∷ fns) d payload n e h =
    let size : unwrap_or_default (packet_payload_size_except_size_fn d) ≡ n =
      ap unwrap_or_default e ∙ unfold unwrap_or_default in refl in
    rw size (elim (Bool-cases (ltb (length payload) n)) [
      | inl few ↦ rw few (inl (invalid_packet_len d.name n (length payload), refl))
      | inr enough ↦
          let (sum, run) = sum_of_size_fns-total (fn ∷ fns) payload (ground arith) in
          rw (enough, run) (inr (n + sum, refl, omega arith))
    ])

validate_by-total :
    (size : Option ℕ) (d : PackDesc) (payload : List ℕ)
    → covers_by size d ≡ true
    → (out : Result (Unit {0}) ParserError) × (validate_by size d payload ≡ some out)
unfolding validate_by
validate_by-total (some expect) d payload c = elim (Bool-cases (length payload == expect)) [
  | inl same ↦ rw same (validate_fields-total d.name 0 d.fields payload (ground arith))
  | inr other ↦ rw other (err (invalid_packet_len d.name expect (length payload)), refl)
]
validate_by-total none d payload c =
    let fns = size_fns d.fields in
    let (n, e, sizes, reads) =
      at_least-some (known_size d.fields) (read_size fns) (least fns d) c in
    elim (min_size-total fns d payload n e reads) [
      | inl (problem, run) ↦ rw run (err problem, refl)
      | inr (m, run, le) ↦ rw run (elim (Bool-cases (leb m (length payload))) [
        | inl enough ↦ rw enough (validate_fields-total d.name 0 d.fields payload (ground arith))
        | inr few ↦ rw few (err (invalid_packet_len d.name m (length payload)), refl)
      ])
    ]

pub validate-total :
    (d : PackDesc) (payload : List ℕ)
    → covers d ≡ true
    → (out : Result (Unit {0}) ParserError) × (validate d payload ≡ some out)
unfolding validate
validate-total d payload c = validate_by-total (packet_payload_size d) d payload c
