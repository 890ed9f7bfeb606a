-- ===== src/Fields/Interference.antt =====
-- The settings of `CfgItfm` (ublox/src/ubx_packets/packets.rs). `none` is a panic.
use Prim.Native.Nat.{bit_or}
use ublox.Prelude.{
  ℕ, ◌+◌, ◌*◌, ◌/◌, ◌%◌, ◌^◌, ◌<◌, ◌≡◌, ◌≢◌, refl, ◌∙◌, ap, ap₂, Bool, true, false, ltb, ◌==◌,
  if◌then◌else◌, arith,
}
use ublox.Fields.Bits.{bit_of, bit_or_blocks, bit_or-shifted, bit_or-zero}

-- The thresholds and the algorithm bits are the `u32` that each of them holds.
pub record CfgItfmConfig : Type 0 where
  pub enable : Bool
  pub bb_threshold : ℕ
  pub cw_threshold : ℕ
  pub algorithm_bits : ℕ

abbrev default_algorithm_bits : ℕ
default_algorithm_bits = 0x16B156

-- `CfgItfmConfig::new`
unfoldable pub new_config : Bool → (bb_threshold cw_threshold : ℕ) → CfgItfmConfig
new_config enable bb_threshold cw_threshold = record {
  enable = enable;
  bb_threshold = bb_threshold;
  cw_threshold = cw_threshold;
  algorithm_bits = default_algorithm_bits;
}

-- `(self.0 & MASK) << POSITION`, for a mask of `LENGTH` bits
unfoldable pub bb_threshold_raw : ℕ → ℕ
bb_threshold_raw x = x % 2 ^ 4 * 2 ^ 0

unfoldable pub cw_threshold_raw : ℕ → ℕ
cw_threshold_raw x = x % 2 ^ 5 * 2 ^ 4

unfoldable pub algo_bits_raw : ℕ → ℕ
algo_bits_raw x = x % 2 ^ 22 * 2 ^ 9

unfoldable pub config_raw : CfgItfmConfig → ℕ
config_raw c =
    bit_or
      (bit_or (bit_or (bit_of c.enable * 2 ^ 31) (cw_threshold_raw c.cw_threshold))
        (bb_threshold_raw c.bb_threshold))
      (algo_bits_raw c.algorithm_bits)

-- `CfgItfmConfig::from`: each part is made of the whole word.
unfoldable pub config_from : ℕ → CfgItfmConfig
config_from cfg = record {
  enable = ltb 0 (cfg / 2 ^ 31 % 2);
  bb_threshold = cfg;
  cw_threshold = cfg;
  algorithm_bits = cfg;
}

pub data CfgItfmAntennaSettings : Type 0 where
  unknown active passive : CfgItfmAntennaSettings

unfoldable pub antenna_raw : CfgItfmAntennaSettings → ℕ
antenna_raw unknown = 0
antenna_raw active = 1
antenna_raw passive = 2

-- `(cfg & 0x3000) >> 12`
unfoldable pub antenna_from : ℕ → CfgItfmAntennaSettings
antenna_from cfg =
    let bits = cfg / 2 ^ 12 % 4 in
    if bits == 1 then active else if bits == 2 then passive else unknown

pub record CfgItfmConfig2 : Type 0 where
  pub general : ℕ
  pub antenna : CfgItfmAntennaSettings
  pub scan_aux_bands : Bool

-- `CfgItfmConfig2::new`, with the default of `CfgItfmGeneralBits`
unfoldable pub new_config2 : CfgItfmAntennaSettings → Bool → CfgItfmConfig2
new_config2 antenna scan_aux_bands = record {
  general = 0x31E;
  antenna = antenna;
  scan_aux_bands = scan_aux_bands;
}

unfoldable pub general_bits_raw : ℕ → ℕ
general_bits_raw x = x % 2 ^ 12 * 2 ^ 0

unfoldable pub config2_raw : CfgItfmConfig2 → ℕ
config2_raw c =
    bit_or (bit_or (bit_of c.scan_aux_bands * 2 ^ 14) (general_bits_raw c.general))
      (antenna_raw c.antenna)

unfoldable pub config2_from : ℕ → CfgItfmConfig2
config2_from cfg = record {
  scan_aux_bands = ltb 0 (cfg / 2 ^ 14 % 2);
  general = cfg;
  antenna = antenna_from cfg;
}

-- The parts do not overlap.
config_word :
    (e a w b : ℕ)
    → a < 2 ^ 22
    → w < 2 ^ 5
    → b < 2 ^ 4
    → bit_or (bit_or (bit_or (e * 2 ^ 31) (w * 2 ^ 4)) (b * 2 ^ 0)) (a * 2 ^ 9)
      ≡ e * 2 ^ 31 + a * 2 ^ 9 + w * 2 ^ 4 + b
config_word e a w b ha hw hb =
    let first : bit_or (e * 2 ^ 31) (w * 2 ^ 4) ≡ (e * 2 ^ 27 + w) * 2 ^ 4 =
      bit_or-shifted 31 e (w * 2 ^ 4) (omega arith) ∙ omega arith in
    let second : bit_or ((e * 2 ^ 27 + w) * 2 ^ 4) (b * 2 ^ 0)
        ≡ e * 2 ^ 22 * 2 ^ 9 + (w * 2 ^ 4 + b) =
      bit_or-shifted 4 (e * 2 ^ 27 + w) (b * 2 ^ 0) (omega arith) ∙ omega arith in
    let third : bit_or (e * 2 ^ 22 * 2 ^ 9 + (w * 2 ^ 4 + b)) (a * 2 ^ 9 + 0)
        ≡ bit_or (e * 2 ^ 22) a * 2 ^ 9 + bit_or (w * 2 ^ 4 + b) 0 =
      bit_or_blocks 9 (e * 2 ^ 22) a (w * 2 ^ 4 + b) 0 (omega arith) (omega arith) in
    let whole : a * 2 ^ 9 ≡ a * 2 ^ 9 + 0 = omega arith in
    ap (λ x. bit_or (bit_or x (b * 2 ^ 0)) (a * 2 ^ 9)) first
    ∙ ap₂ bit_or second whole
    ∙ third
    ∙ omega (arith, bit_or-shifted 22 e a ha, bit_or-zero (w * 2 ^ 4 + b))

-- The word of a config is the sum of its parts, each cut to its width and at its place.
config_raw-fields :
    (c : CfgItfmConfig)
    → config_raw c
      ≡ bit_of c.enable * 2 ^ 31
        + c.algorithm_bits % 2 ^ 22 * 2 ^ 9
        + c.cw_threshold % 2 ^ 5 * 2 ^ 4
        + c.bb_threshold % 2 ^ 4
unfolding config_raw bb_threshold_raw cw_threshold_raw algo_bits_raw
config_raw-fields c =
    let e = bit_of c.enable in
    let a = c.algorithm_bits % 2 ^ 22 in
    let w = c.cw_threshold % 2 ^ 5 in
    let b = c.bb_threshold % 2 ^ 4 in config_word e a w b (omega arith) (omega arith) (omega arith)

-- For thresholds that fit into their bits, a new config that is written to a word, read from it and
-- written again never gives the same word.
pub config_raw-config_from :
    (enable : Bool) (bb cw : ℕ)
    → bb < 16
    → cw < 32
    → config_raw (config_from (config_raw (new_config enable bb cw)))
      ≢ config_raw (new_config enable bb cw)
unfolding config_from new_config
config_raw-config_from enable bb cw h k = λ same.
    let c = new_config enable bb cw in
    let raw = config_raw c in
    absurd (omega (arith, same, config_raw-fields c, config_raw-fields (config_from raw)))

-- Whatever the antenna of a new second config, the antenna that is read from the word made of it is
-- unknown.
pub antenna-config2_from :
    (antenna : CfgItfmAntennaSettings) (scan : Bool)
    → (config2_from (config2_raw (new_config2 antenna scan))).antenna ≡ unknown
unfolding config2_from config2_raw new_config2 general_bits_raw antenna_raw antenna_from
antenna-config2_from unknown true = refl
antenna-config2_from unknown false = refl
antenna-config2_from active true = refl
antenna-config2_from active false = refl
antenna-config2_from passive true = refl
antenna-config2_from passive false = refl
