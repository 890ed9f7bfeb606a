-- ===== src/Cfg/Table/Messages4.antt =====
-- Configuration items (ublox/src/ubx_packets/cfg_val.rs, `cfg_val!`): part 4 of CFG-MSGOUT.
use ublox.Prelude.{List, [], ◌∷◌}
use ublox.Cfg.Value.{u8}
use ublox.Cfg.Item.{CfgItem, item}

abbrev pub messages_4 : List CfgItem
messages_4 =
    item "MsgoutUbxNavhpposllhI2C" 0x20910033 u8
    ∷ item "MsgoutUbxNavhpposllhSpi" 0x20910037 u8
    ∷ item "MsgoutUbxNavhpposllhUart1" 0x20910034 u8
    ∷ item "MsgoutUbxNavhpposllhUart2" 0x20910035 u8
    ∷ item "MsgoutUbxNavhpposllhUsb" 0x20910036 u8
    ∷ item "MsgoutUbxNavOdoi2C" 0x2091007e u8
    ∷ item "MsgoutUbxNavOdospi" 0x20910082 u8
    ∷ item "MsgoutUbxNavOdouart1" 0x2091007f u8
    ∷ item "MsgoutUbxNavOdouart2" 0x20910080 u8
    ∷ item "MsgoutUbxNavOdousb" 0x20910081 u8
    ∷ item "MsgoutUbxNavOrbI2C" 0x20910010 u8
    ∷ item "MsgoutUbxNavOrbSpi" 0x20910014 u8
    ∷ item "MsgoutUbxNavOrbuart1" 0x20910011 u8
    ∷ item "MsgoutUbxNavOrbuart2" 0x20910012 u8
    ∷ item "MsgoutUbxNavOrbusb" 0x20910013 u8
    ∷ item "MsgoutUbxNavposecefI2C" 0x20910024 u8
    ∷ item "MsgoutUbxNavposecefSpi" 0x20910028 u8
    ∷ item "MsgoutUbxNavposecefUart1" 0x20910025 u8
    ∷ item "MsgoutUbxNavposecefUart2" 0x20910026 u8
    ∷ item "MsgoutUbxNavposecefUsb" 0x20910027 u8
    ∷ item "MsgoutUbxNavPosllhi2C" 0x20910029 u8
    ∷ item "MsgoutUbxNavPosllhspi" 0x2091002d u8
    ∷ item "MsgoutUbxNavPosllhuart1" 0x2091002a u8
    ∷ item "MsgoutUbxNavPosllhuart2" 0x2091002b u8
    ∷ item "MsgoutUbxNavPosllhusb" 0x2091002c u8
    ∷ item "MsgoutUbxNavPvtI2C" 0x20910006 u8
    ∷ item "MsgoutUbxNavPvtSpi" 0x2091000a u8
    ∷ item "MsgoutUbxNavPvtuart1" 0x20910007 u8
    ∷ item "MsgoutUbxNavPvtuart2" 0x20910008 u8
    ∷ item "MsgoutUbxNavPvtusb" 0x20910009 u8
    ∷ item "MsgoutUbxNavrelposnedI2C" 0x2091008d u8
    ∷ item "MsgoutUbxNavrelposnedSpi" 0x20910091 u8
    ∷ item "MsgoutUbxNavrelposnedUart1" 0x2091008e u8
    ∷ item "MsgoutUbxNavrelposnedUart2" 0x2091008f u8
    ∷ item "MsgoutUbxNavrelposnedUsb" 0x20910090 u8
    ∷ item "MsgoutUbxNavSatI2C" 0x20910015 u8
    ∷ item "MsgoutUbxNavSatSpi" 0x20910019 u8
    ∷ item "MsgoutUbxNavSatuart1" 0x20910016 u8
    ∷ item "MsgoutUbxNavSatuart2" 0x20910017 u8
    ∷ item "MsgoutUbxNavSatusb" 0x20910018 u8
    ∷ item "MsgoutUbxNavSigI2C" 0x20910345 u8
    ∷ item "MsgoutUbxNavSigSpi" 0x20910349 u8
    ∷ item "MsgoutUbxNavSiguart1" 0x20910346 u8
    ∷ item "MsgoutUbxNavSiguart2" 0x20910347 u8
    ∷ item "MsgoutUbxNavSigUsb" 0x20910348 u8
    ∷ item "MsgoutUbxNavstatusI2C" 0x2091001a u8
    ∷ item "MsgoutUbxNavstatusSpi" 0x2091001e u8
    ∷ item "MsgoutUbxNavstatusUart1" 0x2091001b u8
    ∷ item "MsgoutUbxNavstatusUart2" 0x2091001c u8
    ∷ item "MsgoutUbxNavstatusUsb" 0x2091001d u8
    ∷ item "MsgoutUbxNavSvini2C" 0x20910088 u8
    ∷ item "MsgoutUbxNavSvinSpi" 0x2091008c u8
    ∷ item "MsgoutUbxNavSvinuart1" 0x20910089 u8
    ∷ item "MsgoutUbxNavSvinuart2" 0x2091008a u8
    ∷ item "MsgoutUbxNavSvinusb" 0x2091008b u8
    ∷ item "MsgoutUbxNavtimebdsI2C" 0x20910051 u8
    ∷ item "MsgoutUbxNavtimebdsSpi" 0x20910055 u8
    ∷ item "MsgoutUbxNavtimebdsUart1" 0x20910052 u8
    ∷ item "MsgoutUbxNavtimebdsUart2" 0x20910053 u8
    ∷ item "MsgoutUbxNavtimebdsUsb" 0x20910054 u8
    ∷ item "MsgoutUbxNavtimegalI2C" 0x20910056 u8
    ∷ item "MsgoutUbxNavtimegalSpi" 0x2091005a u8
    ∷ item "MsgoutUbxNavtimegalUart1" 0x20910057 u8
    ∷ item "MsgoutUbxNavtimegalUart2" 0x20910058 u8
    ∷ item "MsgoutUbxNavtimegalUsb" 0x20910059 u8
    ∷ item "MsgoutUbxNavtimegloI2C" 0x2091004c u8
    ∷ item "MsgoutUbxNavtimegloSpi" 0x20910050 u8
    ∷ item "MsgoutUbxNavtimegloUart1" 0x2091004d u8
    ∷ item "MsgoutUbxNavtimegloUart2" 0x2091004e u8
    ∷ item "MsgoutUbxNavtimegloUsb" 0x2091004f u8
    ∷ []
