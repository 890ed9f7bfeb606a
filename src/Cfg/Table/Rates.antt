-- ===== src/Cfg/Table/Rates.antt =====
-- Configuration items (ublox/src/ubx_packets/cfg_val.rs, `cfg_val!`): CFG-INFMSG and CFG-RATE, and what stands behind them.
use ublox.Prelude.{List, [], ◌∷◌}
use ublox.Cfg.Value.{
  alignment_to_reference_time, bool, cfg_inf_mask, i16, odo_profile, u16, u32, u8,
}
use ublox.Cfg.Item.{CfgItem, item}

abbrev pub rates : List CfgItem
rates =
    item "InfmsgUbxI2c" 0x20920001 cfg_inf_mask
    ∷ item "InfmsgUbxUart1" 0x20920002 cfg_inf_mask
    ∷ item "InfmsgUbxUart2" 0x20920003 cfg_inf_mask
    ∷ item "InfmsgUbxUsb" 0x20920004 cfg_inf_mask
    ∷ item "InfmsgUbxSpi" 0x20920005 cfg_inf_mask
    ∷ item "InfmsgNmeaI2c" 0x20920006 cfg_inf_mask
    ∷ item "InfmsgNmeaUart1" 0x20920007 cfg_inf_mask
    ∷ item "InfmsgNmeaUart2" 0x20920008 cfg_inf_mask
    ∷ item "InfmsgNmeaUsb" 0x20920009 cfg_inf_mask
    ∷ item "InfmsgNmeaSpi" 0x2092000a cfg_inf_mask
    ∷ item "RateMeas" 0x30210001 u16
    ∷ item "RateNav" 0x30210002 u16
    ∷ item "RateTimeref" 0x20210003 alignment_to_reference_time
    ∷ item "RateNavPrio" 0x20210004 u8
    ∷ item "UseSf" 0x10080001 bool
    ∷ item "UseOdo" 0x10220001 bool
    ∷ item "UseCog" 0x10220002 bool
    ∷ item "OutLpVel" 0x10220003 bool
    ∷ item "OutLpCog" 0x10220004 bool
    ∷ item "OdoProfileSet" 0x20220005 odo_profile
    ∷ item "CogMaxSpeed" 0x20220021 u8
    ∷ item "CogMaxPosAcc" 0x20220022 u8
    ∷ item "VelLpGain" 0x20220031 u8
    ∷ item "CogLpGain" 0x20220032 u8
    ∷ item "GyroTCUpdatePer" 0x30060007 u16
    ∷ item "GyroRmsThdl" 0x20060008 u8
    ∷ item "GyroFreq" 0x20060009 u8
    ∷ item "GyroLatency" 0x3006000a u16
    ∷ item "GyroAcc" 0x3006000b u16
    ∷ item "AccelRmsThdl" 0x20060015 u8
    ∷ item "AccelFreq" 0x20060016 u8
    ∷ item "AccelLatency" 0x30060017 u16
    ∷ item "AccelAcc" 0x30060018 u16
    ∷ item "ImuEn" 0x1006001d bool
    ∷ item "ImuI2cSclPio" 0x2006001e u8
    ∷ item "ImuI2cSdaPio" 0x2006001f u8
    ∷ item "ImuAutoMntAlg" 0x10060027 bool
    ∷ item "ImuMntAlgYaw" 0x4006002d u32
    ∷ item "ImuMntAlgPitch" 0x3006002e i16
    ∷ item "ImuMntAlgRoll" 0x3006002f i16
    ∷ []
