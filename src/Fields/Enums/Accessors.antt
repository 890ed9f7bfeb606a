-- ===== src/Fields/Enums/Accessors.antt =====
-- Fields of packets that hold an enum which may fail (`may_fail` in ublox/src/ubx_packets/packets.rs):
-- `validate` and the accessor, which converts by `from_unchecked`.
use ublox.Prelude.{
  ℕ, zero, suc, ◌+◌, ◌≡◌, refl, sym, ◌∙◌, ap, Option, none, some, List, [], ◌∷◌, true, ◌>>=◌, arith,
  get_elem?, subst,
}
use ublox.Error.{ok}
use ublox.Buffer.Vector.{slice_index}
use ublox.Packet.Check.{IsValidFn, one_of, is_valid, one_of_values}
use ublox.Packet.Desc.{PackField, PackDesc, validate, raw_field, check_value, next_off}
use ublox.Packet.Access.{
  Getter, raw_getter, raw_getters, raw_accessors, raw_accessor, off_behind, fns_behind,
}
use ublox.Packet.Groups.Good.{Good, Good-validate}
use ublox.Packet.Desc.{SizeFn}
use ublox.Fields.Enums.{
  Variant, UbxExtendEnum, into_raw, is_defined, is_valid_byte, from_byte, all_variants, rest_error,
}
use ublox.Fields.Enums.Laws.{Matches, Matches-from_byte}

-- The accessor reads the bytes that were checked.
abbrev Checked : List Getter → ℕ → ℕ → IsValidFn → List ℕ → Type 0
Checked gets i n check payload =
    (off : ℕ) × ((do get ← get_elem? gets i; get payload) ≡ slice_index payload off (off + n))
    × (check_value check (slice_index payload off (off + n)) ≡ some true)

off_behind-next_off : (off : ℕ) (size : Option ℕ) → off_behind off size ≡ next_off size off
unfolding off_behind next_off
off_behind-next_off off none = refl
off_behind-next_off off (some n) = refl

Checked-Good :
    (off : ℕ) (before : List SizeFn) (fields : List PackField) (payload : List ℕ) (i n : ℕ)
    {f : PackField}
    → Good off fields payload
    → get_elem? fields i ≡ some f
    → f.size_bytes ≡ some n
    → Checked (raw_getters off before fields) i n f.check payload
unfolding raw_getters raw_getter raw_field
Checked-Good off before [] payload i n good e s = absurd (ground arith)
Checked-Good off before (g ∷ fields) payload zero n {f = f} good e s =
    let p : g ≡ f = cc in
    let t : g.size_bytes ≡ some n = ap (λ (h : PackField). h.size_bytes) p ∙ s in
    (
      off,
      ap (λ z. raw_getter off before z g.size_fn payload) t,
      ap (λ z. check_value f.check (raw_field z off payload)) (sym s)
          ∙ ap (λ (h : PackField). check_value h.check (raw_field h.size_bytes off payload)) (sym p)
          ∙ good.0,
    )
Checked-Good off before (g ∷ fields) payload (suc i) n good e s =
    Checked-Good (off_behind off g.size_bytes) (fns_behind before g.size_bytes g.size_fn) fields
      payload i n (rw (off_behind-next_off off g.size_bytes) good.1) e s

check_value-one_of :
    (values : List ℕ) (val : Option (List ℕ))
    → check_value (one_of values) val ≡ some true
    → (x : ℕ) × (val ≡ some (x ∷ [])) × (one_of_values x values ≡ true)
unfolding check_value is_valid
check_value-one_of values none e = absurd (ground arith)
check_value-one_of values (some []) e = absurd (ground arith)
check_value-one_of values (some (x ∷ [])) e = (x, refl, ground arith)
check_value-one_of values (some (x ∷ y ∷ bytes)) e = absurd (ground arith)

abbrev pub values_of : List Variant → List ℕ
values_of [] = []
values_of (v ∷ variants) = into_raw v ∷ values_of variants

one_of_values-is_defined :
    (variants : List Variant) (x : ℕ) → one_of_values x (values_of variants) ≡ is_defined variants x
unfolding one_of_values is_defined
one_of_values-is_defined [] x = refl
one_of_values-is_defined (v ∷ variants) x = ground (arith, one_of_values-is_defined variants x)

all_variants-error :
    (e : UbxExtendEnum) → e.rest_handling ≡ some rest_error → all_variants e ≡ e.variants
unfolding all_variants
all_variants-error e h = ground arith

-- For a field of one byte of any description, whose check is that of an enum with `rest_error`: on
-- a payload that validation accepts, the accessor reads one byte, and `from_unchecked` of it does
-- not panic and returns the variant with this value.
pub from_byte-accessor :
    (d : PackDesc) (payload : List ℕ) (i : ℕ) (f : PackField) (e : UbxExtendEnum)
    → validate d payload ≡ some (ok tt)
    → get_elem? d.fields i ≡ some f
    → f.size_bytes ≡ some 1
    → f.check ≡ one_of (values_of e.variants)
    → e.rest_handling ≡ some rest_error
    → (x : ℕ) × (v : Variant) × (raw_accessor d i payload ≡ some (x ∷ []))
      × (from_byte e x ≡ some v)
      × (into_raw v ≡ x)
unfolding raw_accessor raw_accessors
from_byte-accessor d payload i f e valid at_i size check rest =
    let (off, run, checks) =
      Checked-Good 0 [] d.fields payload i 1 (Good-validate d payload valid) at_i size in
    let (x, bytes, good) =
      check_value-one_of (values_of e.variants) (slice_index payload off (off + 1))
        (subst (λ c. check_value c (slice_index payload off (off + 1)) ≡ some true) check checks) in
    let defined : is_valid_byte e x ≡ true =
      unfold is_valid_byte in
      ap (λ vs. is_defined vs x) (all_variants-error e rest)
      ∙ sym (one_of_values-is_defined e.variants x)
      ∙ good in
    let (v, found, same) =
      subst (λ b. Matches x b (from_byte e x)) defined (Matches-from_byte e x) in
    (x, v, run ∙ bytes, found, same)
