-- ===== src/Fields/Bits.antt =====
-- `|` on words, and the places of their bits.
use Prim.Native.Nat.{digits, max, bit_or, bit_or-bitwise}
use native.Mathlib.Nat.{pow-suc}
use ublox.Prelude.{
  ℕ, zero, suc, ◌+◌, ◌*◌, ◌/◌, ◌%◌, ◌^◌, ◌≤◌, ◌<◌, ◌≡◌, refl, sym, ap, ap₂, ◌∙◌, arith, Bool, true,
  false,
}

-- `x as u32` for a truth value
abbrev pub bit_of : Bool → ℕ
bit_of true = 1
bit_of false = 0

-- More digits to go than there are change nothing.
or_digits-fuel :
    (n m a b : ℕ) → a ≤ n → a ≤ m → digits (λ x. x) max n a b ≡ digits (λ x. x) max m a b
or_digits-fuel zero zero a b h k = refl
or_digits-fuel zero (suc m) zero b h k = refl
or_digits-fuel zero (suc m) (suc a) b h k = absurd (omega arith)
or_digits-fuel (suc n) zero zero b h k = refl
or_digits-fuel (suc n) zero (suc a) b h k = absurd (omega arith)
or_digits-fuel (suc n) (suc m) zero b h k = refl
or_digits-fuel (suc n) (suc m) (suc a) b h k =
    let less = or_digits-fuel n m (suc a / 2) (b / 2) (omega arith) (omega arith) in
    ap (λ d. d * 2 + max (suc a % 2) (b % 2)) less

pub zero-bit_or : (b : ℕ) → bit_or 0 b ≡ b
zero-bit_or b = bit_or-bitwise 0 b

-- The lowest digit apart from the others.
bit_or-halves : (a b : ℕ) → bit_or a b ≡ bit_or (a / 2) (b / 2) * 2 + max (a % 2) (b % 2)
bit_or-halves zero b = omega (arith, zero-bit_or b, zero-bit_or (b / 2))
bit_or-halves (suc a) b =
    let less = or_digits-fuel a (suc a / 2) (suc a / 2) (b / 2) (omega arith) (omega arith) in
    omega (arith, less, bit_or-bitwise (suc a) b, bit_or-bitwise (suc a / 2) (b / 2))

double-pow : (n k : ℕ) → n * 2 ^ suc k ≡ 2 * (n * 2 ^ k)
double-pow n k = omega (arith, ap (λ t. n * t) (pow-suc 2 k))

-- The low `k` digits apart from the others.
pub bit_or_blocks :
    (k a b c d : ℕ)
    → c < 2 ^ k
    → d < 2 ^ k
    → bit_or (a * 2 ^ k + c) (b * 2 ^ k + d) ≡ bit_or a b * 2 ^ k + bit_or c d
bit_or_blocks zero a b c d h l =
    let c0 : c ≡ 0 = omega arith in
    let d0 : d ≡ 0 = omega arith in
    let ea : a * 1 + 0 ≡ a = omega arith in
    let eb : b * 1 + 0 ≡ b = omega arith in rw (c0, d0, ea, eb) (omega arith)
bit_or_blocks (suc k) a b c d h l =
    let p = pow-suc 2 k in
    let ea : (a * 2 ^ suc k + c) / 2 ≡ a * 2 ^ k + c / 2 = omega (arith, double-pow a k) in
    let eb : (b * 2 ^ suc k + d) / 2 ≡ b * 2 ^ k + d / 2 = omega (arith, double-pow b k) in
    let less = bit_or_blocks k a b (c / 2) (d / 2) (omega arith) (omega arith) in
    omega (
      arith,
      bit_or-halves (a * 2 ^ suc k + c) (b * 2 ^ suc k + d),
      bit_or-halves c d,
      ap₂ bit_or ea eb ∙ less,
      double-pow a k,
      double-pow b k,
      double-pow (bit_or a b) k,
    )

bit_or-zero_fuel : (n a : ℕ) → a ≤ n → bit_or a 0 ≡ a
bit_or-zero_fuel n zero h = zero-bit_or 0
bit_or-zero_fuel zero (suc a) h = absurd (omega arith)
bit_or-zero_fuel (suc n) (suc a) h =
    omega (arith, bit_or-halves (suc a) 0, bit_or-zero_fuel n (suc a / 2) (omega arith))

pub bit_or-zero : (a : ℕ) → bit_or a 0 ≡ a
bit_or-zero a = bit_or-zero_fuel a a (omega arith)

-- A number over the low `k` digits, and one that has no others.
pub bit_or-shifted : (k q r : ℕ) → r < 2 ^ k → bit_or (q * 2 ^ k) r ≡ q * 2 ^ k + r
bit_or-shifted k q r h =
    let e : q * 2 ^ k + 0 ≡ q * 2 ^ k = omega arith in
    let f : 0 * 2 ^ k + r ≡ r = omega arith in
    ap₂ bit_or (sym e) (sym f)
    ∙ bit_or_blocks k q 0 0 r (omega arith) h
    ∙ ap₂ (λ x y. x * 2 ^ k + y) (bit_or-zero q) (zero-bit_or r)
