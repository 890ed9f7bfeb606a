-- ===== src/Packet/Groups/Good.antt =====
-- What the validators of fields (ublox_derive/src/output.rs) have found out of an accepted payload.
use ublox.Prelude.{
  ℕ, ◌%◌, ◌==◌, ◌≡◌, refl, Option, none, some, List, [], ◌∷◌, length, true, false, leb, arith,
  Option-cases, Bool-cases, inl, inr,
}
use Prim.Native.String.{String}
use ublox.Error.{ok, err}
use ublox.Packet.Check.{is_valid, multiple_of, cstr, cstr_chunks, is_cstr_valid, chunks_valid}
use ublox.Packet.Desc.{
  PackField, PackDesc, size_fns, raw_field, check_value, next_off, validate_fields, validate_by,
  validate, min_size, packet_payload_size,
}

-- The test of each field answers yes.
abbrev pub Good : ℕ → List PackField → List ℕ → Type 0
Good off [] payload = Unit
Good off (f ∷ fields) payload =
    (check_value f.check (raw_field f.size_bytes off payload) ≡ some true)
    × Good (next_off f.size_bytes off) fields payload

Good-validate_fields :
    (packet : String) (off : ℕ) (fields : List PackField) (payload : List ℕ)
    → validate_fields packet off fields payload ≡ some (ok tt)
    → Good off fields payload
unfolding validate_fields
Good-validate_fields packet off [] payload e = tt
Good-validate_fields packet off (f ∷ fields) payload e =
    elim (Option-cases (check_value f.check (raw_field f.size_bytes off payload))) [
      | inl p ↦ absurd (ground arith)
      | inr (true, p) ↦
          (p, Good-validate_fields packet (next_off f.size_bytes off) fields payload (ground arith))
      | inr (false, p) ↦ absurd (ground arith)
    ]

Good-validate_by :
    (size : Option ℕ) (d : PackDesc) (payload : List ℕ)
    → validate_by size d payload ≡ some (ok tt)
    → Good 0 d.fields payload
unfolding validate_by
Good-validate_by (some expect) d payload e = elim (Bool-cases (length payload == expect)) [
  | inl same ↦ Good-validate_fields d.name 0 d.fields payload (ground arith)
  | inr other ↦ absurd (ground arith)
]
Good-validate_by none d payload e = elim (Option-cases (min_size (size_fns d.fields) d payload)) [
  | inl p ↦ absurd (ground arith)
  | inr (err problem, p) ↦ absurd (ground arith)
  | inr (ok n, p) ↦ elim (Bool-cases (leb n (length payload))) [
    | inl enough ↦ Good-validate_fields d.name 0 d.fields payload (ground arith)
    | inr few ↦ absurd (ground arith)
  ]
]

pub Good-validate :
    (d : PackDesc) (payload : List ℕ) → validate d payload ≡ some (ok tt) → Good 0 d.fields payload
unfolding validate
Good-validate d payload e = Good-validate_by (packet_payload_size d) d payload e

pub check_value-multiple :
    (n : ℕ) (val : Option (List ℕ))
    → check_value (multiple_of n) val ≡ some true
    → (bytes : List ℕ) × (val ≡ some bytes) × (length bytes % n ≡ 0)
unfolding check_value is_valid
check_value-multiple n none e = absurd (ground arith)
check_value-multiple n (some bytes) e = (bytes, refl, ground arith)

pub check_value-cstr :
    (val : Option (List ℕ))
    → check_value cstr val ≡ some true
    → (bytes : List ℕ) × (val ≡ some bytes) × (is_cstr_valid bytes ≡ true)
unfolding check_value is_valid
check_value-cstr none e = absurd (ground arith)
check_value-cstr (some bytes) e = (bytes, refl, ground arith)

pub check_value-cstr_chunks :
    (n : ℕ) (val : Option (List ℕ))
    → check_value (cstr_chunks n) val ≡ some true
    → (bytes : List ℕ) × (val ≡ some bytes)
      × (length bytes % n ≡ 0)
      × (chunks_valid n (length bytes) bytes ≡ true)
unfolding check_value is_valid
check_value-cstr_chunks n none e = absurd (ground arith)
check_value-cstr_chunks n (some bytes) e = (bytes, refl, ground arith, ground arith)
