-- ===== src/Fields/Flags/Laws.antt =====
-- The conversions of a struct of flags and a word (ublox_derive/src/output.rs).
use Prim.Native.Nat.{bit_or}
use ublox.Prelude.{
  ℕ, zero, suc, ◌+◌, ◌*◌, ◌/◌, ◌-◌, ◌%◌, ◌^◌, ◌<◌, ◌≡◌, refl, sym, ◌∙◌, ap, ap₂, Bool, true, false,
  ltb, ◌&&◌, Option, none, some, List, arith,
}
use native.Mathlib.Nat.{pow-succ'}
use ublox.Error.{ok}
use ublox.Fields.Bits.{bit_or-shifted}
use ublox.Fields.Satellite.{flag_at, flag_at-half, flag_at-nothing}
use ublox.Fields.Flags.{
  BitFlagsMacroItem, BitFlagsMacro, Flag, flag_bit, find_const, flag_for, flags_from, check_flags,
  with_from, extend, all_bits, from_raw,
}

-- What `from_bits_truncate` is documented to do: it keeps the bits of a word that some flag has.
abbrev pub Truncates : (ℕ → ℕ → ℕ) → Type 0
Truncates truncate =
    (all x bit : ℕ) → flag_at bit (truncate all x) ≡ flag_at bit all && flag_at bit x

pub lt-two_pow : (n : ℕ) → n < 2 ^ n
lt-two_pow zero = omega arith
lt-two_pow (suc n) = omega (arith, lt-two_pow n, pow-succ' 2 n)

pub flag_at-zero : (x : ℕ) → flag_at 0 x ≡ ltb 0 (x % 2)
unfolding flag_at
flag_at-zero x = let e : x / 2 ^ 0 ≡ x = omega arith in rw e refl

low_bit : (x y : ℕ) → flag_at 0 x ≡ flag_at 0 y → x % 2 ≡ y % 2
low_bit x y e =
    let f : ltb 0 (x % 2) ≡ ltb 0 (y % 2) = sym (flag_at-zero x) ∙ e ∙ flag_at-zero y in
    ground arith

-- Words with the same bits are the same.
same_bits :
    (n x y : ℕ) → x < 2 ^ n → y < 2 ^ n → ((bit : ℕ) → flag_at bit x ≡ flag_at bit y) → x ≡ y
same_bits zero x y h k e = omega arith
same_bits (suc n) x y h k e =
    let half =
      same_bits n (x / 2) (y / 2) (omega (arith, pow-succ' 2 n)) (omega (arith, pow-succ' 2 n))
        (λ bit. sym (flag_at-half bit x) ∙ e (suc bit) ∙ flag_at-half bit y) in
    omega (arith, low_bit x y (e 0))

suc-eq : (n : ℕ) → n + 1 ≡ suc n
suc-eq n = omega arith

flag_bit-flag_for :
    (found : Option BitFlagsMacroItem) (bit : ℕ) → flag_bit (flag_for found bit) ≡ bit
unfolding flag_bit flag_for
flag_bit-flag_for none bit = refl
flag_bit-flag_for (some c) bit = refl

-- The flags have each bit of the word once.
all_bits-flags_from :
    (consts : List BitFlagsMacroItem) (bit rounds : ℕ)
    → all_bits (flags_from consts bit rounds) (2 ^ bit - 1) ≡ 2 ^ (bit + rounds) - 1
unfolding all_bits flags_from
all_bits-flags_from consts bit zero = ap (λ n. 2 ^ n - 1) (omega arith)
all_bits-flags_from consts bit (suc rounds) =
    let at = flag_bit-flag_for (find_const consts (2 ^ bit)) bit in
    let one : bit_or (1 * 2 ^ bit) (2 ^ bit - 1) ≡ 2 ^ (bit + 1) - 1 =
      bit_or-shifted bit 1 (2 ^ bit - 1) (omega (arith, lt-two_pow bit))
      ∙ omega (arith, lt-two_pow bit, pow-succ' 2 bit, ap (◌^◌ 2) (suc-eq bit)) in
    ap (λ n. all_bits (flags_from consts (bit + 1) rounds) (bit_or (1 * 2 ^ n) (2 ^ bit - 1))) at
    ∙ ap (all_bits (flags_from consts (bit + 1) rounds)) one
    ∙ all_bits-flags_from consts (bit + 1) rounds
    ∙ ap (λ n. 2 ^ n - 1) (omega arith)

pub flags-extend :
    (b : BitFlagsMacro) (flags : List Flag)
    → extend b ≡ some (ok flags)
    → (check_flags b ≡ ok flags)
unfolding extend with_from
flags-extend b flags e = ground arith

flags-check_flags :
    (b : BitFlagsMacro) (flags : List Flag)
    → check_flags b ≡ ok flags
    → flags ≡ flags_from b.consts 0 b.nbits
unfolding check_flags
flags-check_flags b flags e = ground arith

and-false : (b : Bool) → false ≡ b && false
and-false true = refl
and-false false = refl

-- A word of `n` bits keeps all of them.
flag_at-full : (n bit x : ℕ) → x < 2 ^ n → flag_at bit x ≡ flag_at bit (2 ^ n - 1) && flag_at bit x
flag_at-full zero bit x h =
    let nothing : x ≡ 0 = omega arith in rw nothing (rw (flag_at-nothing bit) refl)
flag_at-full (suc n) zero x h =
    let odd : (2 ^ suc n - 1) % 2 ≡ 1 = omega (arith, pow-succ' 2 n, lt-two_pow n) in
    let set : flag_at 0 (2 ^ suc n - 1) ≡ true = flag_at-zero (2 ^ suc n - 1) ∙ ap (ltb 0) odd in
    rw set refl
flag_at-full (suc n) (suc bit) x h =
    let half : (2 ^ suc n - 1) / 2 ≡ 2 ^ n - 1 = omega (arith, pow-succ' 2 n, lt-two_pow n) in
    let back = flag_at-full n bit (x / 2) (omega (arith, pow-succ' 2 n)) in
    let below : flag_at (suc bit) (2 ^ suc n - 1) ≡ flag_at bit (2 ^ n - 1) =
      flag_at-half bit (2 ^ suc n - 1) ∙ ap (flag_at bit) half in
    flag_at-half bit x ∙ back ∙ ap₂ (λ p q. p && q) (sym below) (sym (flag_at-half bit x))

-- Where the macro accepts a struct of flags, and `from_bits_truncate` keeps the bits of a word that
-- some flag has, any word of the struct's width is kept as a whole by `from` and then `into_raw`:
-- the flags that the macro adds cover each bit that the source does not name.
pub from_raw-word :
    (truncate : ℕ → ℕ → ℕ) (b : BitFlagsMacro) (flags : List Flag) (x : ℕ)
    → Truncates truncate
    → extend b ≡ some (ok flags)
    → x < 2 ^ b.nbits
    → from_raw truncate flags x ≡ x
unfolding from_raw
from_raw-word truncate b flags x laws e h =
    let all = all_bits flags 0 in
    let whole : all ≡ 2 ^ b.nbits - 1 =
      ap (λ fs. all_bits fs 0) (flags-check_flags b flags (flags-extend b flags e))
      ∙ all_bits-flags_from b.consts 0 b.nbits
      ∙ ap (λ n. 2 ^ n - 1) (omega arith) in
    let y = truncate all x in
    same_bits (y + x) y x (omega (arith, lt-two_pow (y + x))) (omega (arith, lt-two_pow (y + x)))
      (λ bit.
        laws all x bit
        ∙ ap (λ a. flag_at bit a && flag_at bit x) whole
        ∙ sym (flag_at-full b.nbits bit x h))
