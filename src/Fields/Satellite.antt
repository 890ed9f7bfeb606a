-- ===== src/Fields/Satellite.antt =====
-- `NavSatSvFlags` and `FixStatusInfo` (ublox/src/ubx_packets/packets.rs). `none` is a panic.
use ublox.Prelude.{
  ℕ, zero, suc, List, [], ◌∷◌, get_or, ap, sym, ◌∙◌, ◌≢◌, ◌+◌, ◌*◌, ◌/◌, ◌%◌, ◌^◌, ◌≡◌, Bool, true,
  false, Option, none, some, ltb, ◌==◌, if◌then◌else◌, arith,
}
use native.Mathlib.Nat.{div-div-eq-div-mul, pow-succ', zero-div}
use ublox.Fields.Bits.{bit_of}

pub data NavSatQualityIndicator : Type 0 where
  no_signal searching signal_acquired signal_detected code_lock carrier_lock :
      NavSatQualityIndicator

unfoldable quality_ind : ℕ → Option NavSatQualityIndicator
quality_ind flags =
    let bits = flags % 2 ^ 3 in
    if bits == 0
    then some no_signal
    else if bits == 1
    then some searching
    else if bits == 2
    then some signal_acquired
    else if bits == 3
    then some signal_detected
    else if bits == 4
    then some code_lock
    else if bits == 5
    then some carrier_lock
    else if bits == 6
    then some carrier_lock
    else if bits == 7
    then some carrier_lock
    else none

pub data NavSatSvHealth : Type 0 where
  healthy unhealthy : NavSatSvHealth
  unknown : ℕ → NavSatSvHealth

unfoldable health : ℕ → NavSatSvHealth
health flags =
    let bits = flags / 2 ^ 4 % 4 in
    if bits == 1 then healthy else if bits == 2 then unhealthy else unknown bits

pub data NavSatOrbitSource : Type 0 where
  no_info_available ephemeris almanac assist_now_offline assist_now_autonomous : NavSatOrbitSource
  other : ℕ → NavSatOrbitSource

unfoldable orbit_source : ℕ → NavSatOrbitSource
orbit_source flags =
    let bits = flags / 2 ^ 8 % 8 in
    if bits == 0
    then no_info_available
    else if bits == 1
    then ephemeris
    else if bits == 2
    then almanac
    else if bits == 3
    then assist_now_offline
    else if bits == 4
    then assist_now_autonomous
    else other bits

-- The flags of one bit: `(self.0 >> bit) & 0x1 != 0`.
unfoldable pub flag_at : ℕ → ℕ → Bool
flag_at bit flags = ltb 0 (flags / 2 ^ bit % 2)

unfoldable sv_used : ℕ → Bool
sv_used flags = flag_at 3 flags

unfoldable differential_correction_available : ℕ → Bool
differential_correction_available flags = flag_at 6 flags

unfoldable smoothed : ℕ → Bool
smoothed flags = flag_at 7 flags

unfoldable ephemeris_available : ℕ → Bool
ephemeris_available flags = flag_at 11 flags

unfoldable almanac_available : ℕ → Bool
almanac_available flags = flag_at 12 flags

unfoldable an_offline_available : ℕ → Bool
an_offline_available flags = flag_at 13 flags

unfoldable an_auto_available : ℕ → Bool
an_auto_available flags = flag_at 14 flags

unfoldable sbas_corr : ℕ → Bool
sbas_corr flags = flag_at 16 flags

unfoldable rtcm_corr : ℕ → Bool
rtcm_corr flags = flag_at 17 flags

unfoldable slas_corr : ℕ → Bool
slas_corr flags = flag_at 18 flags

unfoldable spartn_corr : ℕ → Bool
spartn_corr flags = flag_at 19 flags

unfoldable pr_corr : ℕ → Bool
pr_corr flags = flag_at 20 flags

unfoldable cr_corr : ℕ → Bool
cr_corr flags = flag_at 21 flags

unfoldable do_corr : ℕ → Bool
do_corr flags = flag_at 22 flags

pub data MapMatchingStatus : Type 0 where
  not_matched valid used dr : MapMatchingStatus

-- `FixStatusInfo`
unfoldable has_pr_prr_correction : ℕ → Bool
has_pr_prr_correction info = info % 2 == 1

unfoldable map_matching : ℕ → Option MapMatchingStatus
map_matching info =
    let bits = info / 2 ^ 6 % 4 in
    if bits == 0
    then some not_matched
    else if bits == 1
    then some valid
    else if bits == 2
    then some used
    else if bits == 3
    then some dr
    else none

-- The word of some bits, the lowest first.
abbrev pub word : List Bool → ℕ
word [] = 0
word (b ∷ bits) = bit_of b + 2 * word bits

flag_at-zero : (b : Bool) (w : ℕ) → flag_at 0 (bit_of b + 2 * w) ≡ b
unfolding flag_at
flag_at-zero true w = ground arith
flag_at-zero false w = ground arith

pub flag_at-half : (i n : ℕ) → flag_at (suc i) n ≡ flag_at i (n / 2)
unfolding flag_at
flag_at-half i n =
    ap (λ x. ltb 0 (n / x % 2)) (pow-succ' 2 i)
    ∙ ap (λ x. ltb 0 (x % 2)) (sym (div-div-eq-div-mul n 2 (2 ^ i)))

pub flag_at-nothing : (i : ℕ) → flag_at i 0 ≡ false
unfolding flag_at
flag_at-nothing i = ap (λ x. ltb 0 (x % 2)) (zero-div (2 ^ i))

half-word : (b : Bool) (bits : List Bool) → word (b ∷ bits) / 2 ≡ word bits
half-word true bits = omega arith
half-word false bits = omega arith

flag_at-word : (i : ℕ) (bits : List Bool) → flag_at i (word bits) ≡ get_or bits i false
flag_at-word i [] = flag_at-nothing i
flag_at-word zero (b ∷ bits) = flag_at-zero b (word bits)
flag_at-word (suc i) (b ∷ bits) =
    flag_at-half i (word (b ∷ bits)) ∙ ap (flag_at i) (half-word b bits) ∙ flag_at-word i bits

quality_ind-total : (flags : ℕ) → quality_ind flags ≢ none
unfolding quality_ind
quality_ind-total flags = λ e. ground arith

-- Each flag of one bit is the bit of the word that its name stands for, and the quality indicator
-- does not panic.
sv_flags-word :
    (bits : List Bool)
    → (quality_ind (word bits) ≢ none)
      × (sv_used (word bits) ≡ get_or bits 3 false)
      × (differential_correction_available (word bits) ≡ get_or bits 6 false)
      × (smoothed (word bits) ≡ get_or bits 7 false)
      × (ephemeris_available (word bits) ≡ get_or bits 11 false)
      × (almanac_available (word bits) ≡ get_or bits 12 false)
      × (an_offline_available (word bits) ≡ get_or bits 13 false)
      × (an_auto_available (word bits) ≡ get_or bits 14 false)
      × (sbas_corr (word bits) ≡ get_or bits 16 false)
      × (rtcm_corr (word bits) ≡ get_or bits 17 false)
      × (slas_corr (word bits) ≡ get_or bits 18 false)
      × (spartn_corr (word bits) ≡ get_or bits 19 false)
      × (pr_corr (word bits) ≡ get_or bits 20 false)
      × (cr_corr (word bits) ≡ get_or bits 21 false)
      × (do_corr (word bits) ≡ get_or bits 22 false)
unfolding sv_used differential_correction_available smoothed ephemeris_available almanac_available
    an_offline_available an_auto_available sbas_corr rtcm_corr slas_corr spartn_corr pr_corr cr_corr
    do_corr
sv_flags-word bits = (
  quality_ind-total (word bits),
  flag_at-word 3 bits,
  flag_at-word 6 bits,
  flag_at-word 7 bits,
  flag_at-word 11 bits,
  flag_at-word 12 bits,
  flag_at-word 13 bits,
  flag_at-word 14 bits,
  flag_at-word 16 bits,
  flag_at-word 17 bits,
  flag_at-word 18 bits,
  flag_at-word 19 bits,
  flag_at-word 20 bits,
  flag_at-word 21 bits,
  flag_at-word 22 bits,
)
