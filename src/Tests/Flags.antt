-- ===== src/Tests/Flags.antt =====
-- Instances for the flags that `#[ubx_extend_bitflags]` extends.
use ublox.Prelude.{
  ℕ, zero, suc, ◌+◌, ◌*◌, ◌/◌, ◌%◌, ◌^◌, ◌≡◌, ◌<◌, refl, sym, ◌∙◌, ap, ap₂, some, Bool, true, false,
  ltb, ◌&&◌, if◌then◌else◌, List, [], ◌∷◌, All, arith, Option, none,
}
use native.Mathlib.Nat.{pow-succ'}
use ublox.Error.{Result, ok, err}
use ublox.Fields.Satellite.{flag_at, flag_at-half, flag_at-nothing}
use ublox.Fields.Flags.{
  BitFlagsMacro, Flag, FlagsError, find_const, flags_from, known_flags, check_flags, with_from,
  extend, from_raw,
}
use ublox.Fields.Flags.Table.{all_flags}
use ublox.Fields.Flags.Table.Settings.{cfg_inf_mask}
use ublox.Fields.Flags.Laws.{Truncates, flag_at-zero, lt-two_pow, from_raw-word}
use ublox.Fields.Flags.Powers.{IsBit, All-IsBit-extend}

abbrev is_extended : Option (Result (List Flag) FlagsError) → Bool
is_extended none = false
is_extended (some (ok flags)) = true
is_extended (some (err e)) = false

abbrev every_extended : List BitFlagsMacro → Bool
every_extended [] = true
every_extended (b ∷ bs) = is_extended (extend b) && every_extended bs

-- The macro accepts each struct of flags of the crate.
all_extended : every_extended all_flags ≡ true
unfolding extend with_from check_flags known_flags find_const
all_extended = refl

and-false : (b : Bool) → false ≡ b && false
and-false true = refl
and-false false = refl

-- The bits that both words have, for words of so many bits.
unfoldable common : (nbits all x : ℕ) → ℕ
common zero all x = 0
common (suc n) all x = (if ltb 0 (all % 2) then x % 2 else 0) + 2 * common n (all / 2) (x / 2)

low_common :
    (p q t : ℕ)
    → p < 2
    → q < 2
    → ltb 0 (((if ltb 0 p then q else 0) + 2 * t) % 2) ≡ ltb 0 p && ltb 0 q
low_common p q t h k = ground arith

low_lt : (all x : ℕ) → (if ltb 0 (all % 2) then x % 2 else 0) < 2
low_lt all x = ground arith

flag_at-common :
    (n all x bit : ℕ) → x < 2 ^ n → flag_at bit (common n all x) ≡ flag_at bit all && flag_at bit x
unfolding common
flag_at-common zero all x bit h =
    let nothing : x ≡ 0 = omega arith in
    rw nothing (rw (flag_at-nothing bit) (and-false (flag_at bit all)))
flag_at-common (suc n) all x zero h =
    let t = common n (all / 2) (x / 2) in
    flag_at-zero ((if ltb 0 (all % 2) then x % 2 else 0) + 2 * t)
    ∙ low_common (all % 2) (x % 2) t (omega arith) (omega arith)
    ∙ ap₂ (λ p q. p && q) (sym (flag_at-zero all)) (sym (flag_at-zero x))
flag_at-common (suc n) all x (suc bit) h =
    let t = common n (all / 2) (x / 2) in
    let low = if ltb 0 (all % 2) then x % 2 else 0 in
    let half : (low + 2 * t) / 2 ≡ t = omega (arith, low_lt all x) in
    flag_at-half bit (low + 2 * t)
    ∙ ap (flag_at bit) half
    ∙ flag_at-common n (all / 2) (x / 2) bit (omega (arith, pow-succ' 2 n))
    ∙ ap₂ (λ p q. p && q) (sym (flag_at-half bit all)) (sym (flag_at-half bit x))

abbrev truncate : ℕ → ℕ → ℕ
truncate all x = common x all x

truncate-Truncates : Truncates truncate
truncate-Truncates all x bit = flag_at-common x all x bit (lt-two_pow x)

abbrev inf_flags : List Flag
inf_flags = flags_from cfg_inf_mask.consts 0 8

inf_extended : extend cfg_inf_mask ≡ some (ok inf_flags)
unfolding extend with_from check_flags known_flags find_const
inf_extended = refl

from_raw-word_example : from_raw truncate inf_flags 0xe5 ≡ 0xe5
from_raw-word_example =
    from_raw-word truncate cfg_inf_mask inf_flags 0xe5 truncate-Truncates inf_extended (omega arith)

All-IsBit-extend_example : All (IsBit 8) cfg_inf_mask.consts
All-IsBit-extend_example = All-IsBit-extend cfg_inf_mask inf_flags inf_extended
