-- ===== src/Fields/Uart.antt =====
-- `UartMode`, `DataBits`, `Parity` and `StopBits` (ublox/src/ubx_packets/packets.rs). `none` is a
-- panic, of `unimplemented!`.
use Prim.Native.Nat.{bit_or}
use ublox.Prelude.{
  ℕ, ◌*◌, ◌/◌, ◌%◌, ◌^◌, ◌<◌, ◌≡◌, ◌≢◌, ◌↔◌, ◌⊎◌, inl, inr, refl, Option, none, some, ◌==◌,
  if◌then◌else◌, ◌>>=◌, arith, Option-cases,
}
use ublox.Cfg.Value.{
  DataBits, seven, eight, Parity, even, odd, none_parity, StopBits, one, one_half, two, half,
}

pub record UartMode : Type 0 where
  pub data_bits : DataBits
  pub parity : Parity
  pub stop_bits : StopBits

unfoldable pub data_bits_raw : DataBits → ℕ
data_bits_raw seven = 0b10 * 2 ^ 6
data_bits_raw eight = 0b11 * 2 ^ 6

unfoldable pub parity_raw : Parity → ℕ
parity_raw even = 0b000 * 2 ^ 9
parity_raw odd = 0b001 * 2 ^ 9
parity_raw none_parity = 0b100 * 2 ^ 9

unfoldable pub stop_bits_raw : StopBits → ℕ
stop_bits_raw one = 0b00 * 2 ^ 12
stop_bits_raw one_half = 0b01 * 2 ^ 12
stop_bits_raw two = 0b10 * 2 ^ 12
stop_bits_raw half = 0b11 * 2 ^ 12

unfoldable pub uart_mode_raw : UartMode → ℕ
uart_mode_raw m =
    bit_or (bit_or (data_bits_raw m.data_bits) (parity_raw m.parity)) (stop_bits_raw m.stop_bits)

-- `DataBits::from`, of the two bits from the sixth on
unfoldable pub data_bits_from : ℕ → Option DataBits
data_bits_from mode =
    let bits = mode / 2 ^ 6 % 4 in
    if bits == 0b10 then some seven else if bits == 0b11 then some eight else none

-- `Parity::from`, of the three bits from the ninth on
unfoldable pub parity_from : ℕ → Option Parity
parity_from mode =
    let bits = mode / 2 ^ 9 % 8 in
    if bits == 0b000
    then some even
    else if bits == 0b001
    then some odd
    else if bits == 0b100
    then some none_parity
    else if bits == 0b101
    then some none_parity
    else none

-- `StopBits::from`, of the two bits from the twelfth on
unfoldable pub stop_bits_from : ℕ → Option StopBits
stop_bits_from mode =
    let bits = mode / 2 ^ 12 % 4 in
    if bits == 0b00
    then some one
    else if bits == 0b01
    then some one_half
    else if bits == 0b10
    then some two
    else if bits == 0b11
    then some half
    else none

unfoldable pub uart_mode_from : ℕ → Option UartMode
uart_mode_from mode = do
  data_bits ← data_bits_from mode
  parity ← parity_from mode
  stop_bits ← stop_bits_from mode
  some (record { data_bits = data_bits; parity = parity; stop_bits = stop_bits })

module _ (d : DataBits) (p : Parity) (s : StopBits) where
  abbrev mode_of : UartMode
  mode_of = record { data_bits = d; parity = p; stop_bits = s }

fields_back :
    (d : DataBits) (p : Parity) (s : StopBits)
    → (data_bits_from (uart_mode_raw (mode_of d p s)) ≡ some d)
      × (parity_from (uart_mode_raw (mode_of d p s)) ≡ some p)
      × (stop_bits_from (uart_mode_raw (mode_of d p s)) ≡ some s)
unfolding data_bits_from parity_from stop_bits_from uart_mode_raw data_bits_raw parity_raw
    stop_bits_raw
fields_back seven even one = (refl, refl, refl)
fields_back seven even one_half = (refl, refl, refl)
fields_back seven even two = (refl, refl, refl)
fields_back seven even half = (refl, refl, refl)
fields_back seven odd one = (refl, refl, refl)
fields_back seven odd one_half = (refl, refl, refl)
fields_back seven odd two = (refl, refl, refl)
fields_back seven odd half = (refl, refl, refl)
fields_back seven none_parity one = (refl, refl, refl)
fields_back seven none_parity one_half = (refl, refl, refl)
fields_back seven none_parity two = (refl, refl, refl)
fields_back seven none_parity half = (refl, refl, refl)
fields_back eight even one = (refl, refl, refl)
fields_back eight even one_half = (refl, refl, refl)
fields_back eight even two = (refl, refl, refl)
fields_back eight even half = (refl, refl, refl)
fields_back eight odd one = (refl, refl, refl)
fields_back eight odd one_half = (refl, refl, refl)
fields_back eight odd two = (refl, refl, refl)
fields_back eight odd half = (refl, refl, refl)
fields_back eight none_parity one = (refl, refl, refl)
fields_back eight none_parity one_half = (refl, refl, refl)
fields_back eight none_parity two = (refl, refl, refl)
fields_back eight none_parity half = (refl, refl, refl)

-- Each mode is read back from the word that `into_raw` makes of it.
pub uart_mode_from-uart_mode_raw : (m : UartMode) → uart_mode_from (uart_mode_raw m) ≡ some m
unfolding uart_mode_from
uart_mode_from-uart_mode_raw m =
    let (d, p, s) = fields_back m.data_bits m.parity m.stop_bits in rw (d, p, s) refl

-- What makes the conversion panic.
abbrev pub IsUnknown : ℕ → Type 0
IsUnknown mode = (mode / 2 ^ 6 % 4 < 2) ⊎ ((mode / 2 ^ 9 % 4 ≡ 2) ⊎ (mode / 2 ^ 9 % 4 ≡ 3))

stop_bits_from-total : (mode : ℕ) → (s : StopBits) × (stop_bits_from mode ≡ some s)
stop_bits_from-total mode = elim (Option-cases (stop_bits_from mode)) [
  | inl e ↦ absurd (some_stop mode e)
  | inr found ↦ found
]
  where
    some_stop : (m : ℕ) → stop_bits_from m ≢ none
    some_stop m = λ e. unfold stop_bits_from in ground arith

data_bits_from-none : (mode : ℕ) → (data_bits_from mode ≡ none) ↔ (mode / 2 ^ 6 % 4 < 2)
unfolding data_bits_from
data_bits_from-none mode = (λ e. ground arith, λ h. ground arith)

parity_from-none :
    (mode : ℕ) → (parity_from mode ≡ none) ↔ ((mode / 2 ^ 9 % 4 ≡ 2) ⊎ (mode / 2 ^ 9 % 4 ≡ 3))
unfolding parity_from
parity_from-none mode = (λ e. ground arith, λ h. ground arith)

-- The conversion of a word to a mode panics exactly if the word has five or six data bits, or a
-- parity that is reserved.
pub uart_mode_from-none : (mode : ℕ) → (uart_mode_from mode ≡ none) ↔ IsUnknown mode
unfolding uart_mode_from
uart_mode_from-none mode = elim (Option-cases (data_bits_from mode)) [
  | inl p ↦ (λ e. inl ((data_bits_from-none mode).0 p), λ h. rw p refl)
  | inr (d, p) ↦ elim (Option-cases (parity_from mode)) [
    | inl q ↦ (λ e. inr ((parity_from-none mode).0 q), λ h. rw (p, q) refl)
    | inr (y, q) ↦
        let (s, r) = stop_bits_from-total mode in
        (
          λ e. absurd (ground arith),
          λ h. elim h [
            | inl few ↦ let none_d = (data_bits_from-none mode).1 few in absurd (ground arith)
            | inr other ↦ let none_p = (parity_from-none mode).1 other in absurd (ground arith)
          ],
        )
  ]
]
