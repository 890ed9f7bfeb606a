-- ===== src/Fields/Pulses.antt =====
-- The flags of `TimTp` and `TimTm2` (ublox/src/ubx_packets/packets.rs). `none` is a panic, of
-- `unreachable!`.
use ublox.Prelude.{
  ℕ, ◌+◌, ◌*◌, ◌/◌, ◌%◌, ◌^◌, ◌≤◌, ◌<◌, ◌≡◌, ap, Bool, true, false, Option, none, some, ltb, ◌==◌,
  if◌then◌else◌, arith,
}
use ublox.Fields.Bits.{bit_of}

pub data TimTpTimeBase : Type 0 where
  gnss utc : TimTpTimeBase

-- `TimTpFlags::time_base`
unfoldable tp_time_base : ℕ → TimTpTimeBase
tp_time_base flags = if flags % 2 == 0 then gnss else utc

unfoldable tp_utc_available : ℕ → Bool
tp_utc_available flags = ltb 0 (flags / 2 % 2)

-- `None` where it is not available
unfoldable raim_active : ℕ → Option Bool
raim_active flags =
    let bits = flags / 2 ^ 2 % 4 in
    if bits == 1 then some false else if bits == 2 then some true else none

unfoldable q_err_valid : ℕ → Bool
q_err_valid flags = flags / 2 ^ 4 % 2 == 0

pub data TimTpRefInfoTimeRefGnss : Type 0 where
  gps glo bds gal nav_ic : TimTpRefInfoTimeRefGnss

unfoldable time_ref_gnss : ℕ → Option TimTpRefInfoTimeRefGnss
time_ref_gnss info =
    let bits = info % 2 ^ 4 in
    if bits == 0
    then some gps
    else if bits == 1
    then some glo
    else if bits == 2
    then some bds
    else if bits == 3
    then some gal
    else if bits == 4
    then some nav_ic
    else none

pub data TimTpRefInfoUtcStandard : Type 0 where
  crl nist usno bipm eu su ntsc npli : TimTpRefInfoUtcStandard

unfoldable pub utc_standard : ℕ → Option TimTpRefInfoUtcStandard
utc_standard info =
    let bits = info / 2 ^ 4 in
    if bits == 1
    then some crl
    else if bits == 2
    then some nist
    else if bits == 3
    then some usno
    else if bits == 4
    then some bipm
    else if bits == 5
    then some eu
    else if bits == 6
    then some su
    else if bits == 7
    then some ntsc
    else if bits == 8
    then some npli
    else none

pub data TimTm2Mode : Type 0 where
  single running : TimTm2Mode

pub data TimTm2Run : Type 0 where
  armed stopped : TimTm2Run

pub data TimTm2TimeBase : Type 0 where
  receiver gnss_base utc_base : TimTm2TimeBase

unfoldable tm2_mode : ℕ → TimTm2Mode
tm2_mode flags = if flags % 2 == 0 then single else running

unfoldable tm2_run : ℕ → TimTm2Run
tm2_run flags = if flags / 2 % 2 == 0 then armed else stopped

unfoldable new_falling_edge : ℕ → Bool
new_falling_edge flags = ltb 0 (flags / 2 ^ 2 % 2)

unfoldable new_rising_edge : ℕ → Bool
new_rising_edge flags = ltb 0 (flags / 2 ^ 7 % 2)

-- `match self.0 & 0b11000`: the bits are compared where they stand.
unfoldable tm2_time_base : ℕ → Option TimTm2TimeBase
tm2_time_base flags =
    let bits = flags / 2 ^ 3 % 4 * 2 ^ 3 in
    if bits == 0
    then some receiver
    else if bits == 1
    then some gnss_base
    else if bits == 2
    then some utc_base
    else none

unfoldable tm2_utc_available : ℕ → Bool
tm2_utc_available flags = ltb 0 (flags / 2 ^ 5 % 2)

unfoldable time_valid : ℕ → Bool
time_valid flags = ltb 0 (flags / 2 ^ 6 % 2)

-- The time base of `TimTm2` is the receiver where the bits 3 and 4 are zero, and a panic where they
-- are not.
tm2_time_base-panic :
    (flags : ℕ) → tm2_time_base flags ≡ (if flags / 2 ^ 3 % 4 == 0 then some receiver else none)
unfolding tm2_time_base
tm2_time_base-panic flags = ground arith

-- A flag is read back from its bit.
bit_at : {n : ℕ} (b : Bool) → n ≡ bit_of b → ltb 0 n ≡ b
bit_at true e = ground arith
bit_at false e = ground arith

no_bit_at : {n : ℕ} (b : Bool) → n ≡ bit_of b → (n == 0) ≡ (if b then false else true)
no_bit_at true e = ground arith
no_bit_at false e = ground arith

bit_of-le : (b : Bool) → bit_of b ≤ 1
bit_of-le true = omega arith
bit_of-le false = omega arith

abbrev raim_of : ℕ → Option Bool
raim_of bits = if bits == 1 then some false else if bits == 2 then some true else none

abbrev base_of : Bool → TimTpTimeBase
base_of true = utc
base_of false = gnss

tp_time_base-bit : (n : ℕ) (b : Bool) → n % 2 ≡ bit_of b → tp_time_base n ≡ base_of b
unfolding tp_time_base
tp_time_base-bit n true e = ground arith
tp_time_base-bit n false e = ground arith

-- The byte that these flags make, with `rest` above them.
abbrev tp_flags : (base available : Bool) → ℕ → Bool → ℕ → ℕ
tp_flags base available raim invalid rest =
    bit_of base + bit_of available * 2 + raim * 2 ^ 2 + bit_of invalid * 2 ^ 4 + rest * 2 ^ 5

-- The flags are read back from the byte that they make.
tp_flags_back :
    (base available : Bool) (raim : ℕ) (invalid : Bool) (rest : ℕ)
    → raim < 4
    → (tp_time_base (tp_flags base available raim invalid rest) ≡ base_of base)
      × (tp_utc_available (tp_flags base available raim invalid rest) ≡ available)
      × (raim_active (tp_flags base available raim invalid rest) ≡ raim_of raim)
      × (q_err_valid (tp_flags base available raim invalid rest)
          ≡ (if invalid then false else true))
unfolding tp_utc_available raim_active q_err_valid
tp_flags_back base available raim invalid rest h =
    let flags = tp_flags base available raim invalid rest in
    let middle : flags / 2 ^ 2 % 4 ≡ raim = omega (arith, bit_of-le) in
    (
      tp_time_base-bit flags base (omega (arith, bit_of-le)),
      bit_at available (omega (arith, bit_of-le)),
      ap raim_of middle,
      no_bit_at invalid (omega (arith, bit_of-le)),
    )
