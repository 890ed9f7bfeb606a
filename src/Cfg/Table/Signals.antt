-- ===== src/Cfg/Table/Signals.antt =====
-- Configuration items (ublox/src/ubx_packets/cfg_val.rs, `cfg_val!`): CFG-SIGNAL and CFG-TP.
use ublox.Prelude.{List, [], ◌∷◌}
use ublox.Cfg.Value.{alignment_to_reference_time, bool, i16, tp_pulse, tp_pulse_length, u32}
use ublox.Cfg.Item.{CfgItem, item}

abbrev pub signals : List CfgItem
signals =
    item "SignalGpsEna" 0x1031001f bool
    ∷ item "SignalGpsL1caEna" 0x10310001 bool
    ∷ item "SignalGpsL2cEna" 0x10310003 bool
    ∷ item "SignalGalEna" 0x10310021 bool
    ∷ item "SignalGalE1Ena" 0x10310007 bool
    ∷ item "SignalGalE5bEna" 0x1031000a bool
    ∷ item "SignalBdsEna" 0x10310022 bool
    ∷ item "SignalBdsB1Ena" 0x1031000d bool
    ∷ item "SignalBdsB2Ena" 0x1031000e bool
    ∷ item "SignalQzssEna" 0x10310024 bool
    ∷ item "SignalQzssL1caEna" 0x10310012 bool
    ∷ item "SignalQzssL2cEna" 0x10310015 bool
    ∷ item "SignalGloEna" 0x10310025 bool
    ∷ item "SignalGloL1Ena" 0x10310018 bool
    ∷ item "SignalGLoL2Ena" 0x1031001a bool
    ∷ item "TpPulseDef" 0x20050023 tp_pulse
    ∷ item "TpPulseLengthDef" 0x20050030 tp_pulse_length
    ∷ item "TpAntCableDelay" 0x30050001 i16
    ∷ item "TpPeriodTp1" 0x40050002 u32
    ∷ item "TpPeriodLockTp1" 0x40050003 u32
    ∷ item "TpFreqTp1" 0x40050024 u32
    ∷ item "TpFreqLockTp1" 0x40050025 u32
    ∷ item "TpLenTp1" 0x40050004 u32
    ∷ item "TpLenLockTp1" 0x40050005 u32
    ∷ item "TpTp1Ena" 0x10050007 bool
    ∷ item "TpSyncGnssTp1" 0x10050008 bool
    ∷ item "TpUseLockedTp1" 0x10050009 bool
    ∷ item "TpAlignToTowTp1" 0x1005000a bool
    ∷ item "TpPolTp1" 0x1005000b bool
    ∷ item "TpTimegridTp1" 0x2005000c alignment_to_reference_time
    ∷ []
