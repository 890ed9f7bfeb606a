-- ===== src/Prelude/Maybe.antt =====
-- The monad of code that may panic: `none` is a panic.
use mathlib.Core.Path.{◌≡◌}
use mathlib.Core.Option.{Option, none, some}
use mathlib.Core.Bool.{Bool, true, false}
use Prim.Native.Nat.{ℕ, ◌-◌, ◌≤◌}
use native.Mathlib.Omega.{arith}
use ublox.Prelude.Tests.{leb, if◌then◌else◌}

infixl 5 ◌>>=◌ ◌>>◌
abbrev pub ◌>>=◌ {ℓ κ} : {A : Type ℓ} {B : Type κ} → Option A → (A → Option B) → Option B
none >>= f = none
some a >>= f = f a

abbrev pub ◌>>◌ {ℓ} : {B : Type ℓ} → Option (Unit {0}) → Option B → Option B
m >> k = m >>= λ _. k

-- `assert!`, or the test of a slice access
abbrev pub guard : Bool → Option (Unit {0})
guard true = some tt
guard false = none

-- `a - b` on `usize`, which panics below zero
abbrev pub sub : ℕ → ℕ → Option ℕ
sub a b = if leb b a then some (a - b) else none

pub sub-of_le : (a b : ℕ) → b ≤ a → sub a b ≡ some (a - b)
sub-of_le a b h = ground arith

pub guard-true : {b : Bool} → b ≡ true → guard b ≡ some tt
guard-true e = ground arith

pub pair_path {ℓ κ} :
    {A : Type ℓ} {B : Type κ} {a a' : A} {b b' : B}
    → a ≡ a'
    → b ≡ b'
    → ◌≡◌ {A = A × B} (a, b) (a', b')
pair_path p q = λ i. (p i, q i)
