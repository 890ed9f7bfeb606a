-- ===== src/Cfg/Table/Messages1.antt =====
-- Configuration items (ublox/src/ubx_packets/cfg_val.rs, `cfg_val!`): part 1 of CFG-MSGOUT.
use ublox.Prelude.{List, [], ◌∷◌}
use ublox.Cfg.Value.{u8}
use ublox.Cfg.Item.{CfgItem, item}

abbrev pub messages_1 : List CfgItem
messages_1 =
    item "MsgoutNmeaIdDtmI2C" 0x209100a6 u8
    ∷ item "MsgoutNmeaIdDtmSpi" 0x209100aa u8
    ∷ item "MsgoutNmeaIdDtmuart1" 0x209100a7 u8
    ∷ item "MsgoutNmeaIdDtmuart2" 0x209100a8 u8
    ∷ item "MsgoutNmeaIdDtmusb" 0x209100a9 u8
    ∷ item "MsgoutNmeaIdGbsI2C" 0x209100dd u8
    ∷ item "MsgoutNmeaIdGbsSpi" 0x209100e1 u8
    ∷ item "MsgoutNmeaIdGbsuart1" 0x209100de u8
    ∷ item "MsgoutNmeaIdGbsuart2" 0x209100df u8
    ∷ item "MsgoutNmeaIdGbsusb" 0x209100e0 u8
    ∷ item "MsgoutNmeaIdGgai2C" 0x209100ba u8
    ∷ item "MsgoutNmeaIdGgaSpi" 0x209100be u8
    ∷ item "MsgoutNmeaIdGgauart1" 0x209100bb u8
    ∷ item "MsgoutNmeaIdGgauart2" 0x209100bc u8
    ∷ item "MsgoutNmeaIdGgausb" 0x209100bd u8
    ∷ item "MsgoutNmeaIdGllI2C" 0x209100c9 u8
    ∷ item "MsgoutNmeaIdGllSpi" 0x209100cd u8
    ∷ item "MsgoutNmeaIdGlluart1" 0x209100ca u8
    ∷ item "MsgoutNmeaIdGlluart2" 0x209100cb u8
    ∷ item "MsgoutNmeaIdGllUsb" 0x209100cc u8
    ∷ item "MsgoutNmeaIdGnsI2C" 0x209100b5 u8
    ∷ item "MsgoutNmeaIdGnsSpi" 0x209100b9 u8
    ∷ item "MsgoutNmeaIdGnsuart1" 0x209100b6 u8
    ∷ item "MsgoutNmeaIdGnsuart2" 0x209100b7 u8
    ∷ item "MsgoutNmeaIdGnsusb" 0x209100b8 u8
    ∷ item "MsgoutNmeaIdGrsI2C" 0x209100ce u8
    ∷ item "MsgoutNmeaIdGrsSpi" 0x209100d2 u8
    ∷ item "MsgoutNmeaIdGrsuart1" 0x209100cf u8
    ∷ item "MsgoutNmeaIdGrsuart2" 0x209100d0 u8
    ∷ item "MsgoutNmeaIdGrsusb" 0x209100d1 u8
    ∷ item "MsgoutNmeaIdGsaI2C" 0x209100bf u8
    ∷ item "MsgoutNmeaIdGsaSpi" 0x209100c3 u8
    ∷ item "MsgoutNmeaIdGsauart1" 0x209100c0 u8
    ∷ item "MsgoutNmeaIdGsauart2" 0x209100c1 u8
    ∷ item "MsgoutNmeaIdGsausb" 0x209100c2 u8
    ∷ item "MsgoutNmeaIdGstI2C" 0x209100d3 u8
    ∷ item "MsgoutNmeaIdGstSpi" 0x209100d7 u8
    ∷ item "MsgoutNmeaIdGstuart1" 0x209100d4 u8
    ∷ item "MsgoutNmeaIdGstuart2" 0x209100d5 u8
    ∷ item "MsgoutNmeaIdGstUsb" 0x209100d6 u8
    ∷ item "MsgoutNmeaIdGsvI2C" 0x209100c4 u8
    ∷ item "MsgoutNmeaIdGsvSpi" 0x209100c8 u8
    ∷ item "MsgoutNmeaIdGsvuart1" 0x209100c5 u8
    ∷ item "MsgoutNmeaIdGsvuart2" 0x209100c6 u8
    ∷ item "MsgoutNmeaIdGsvusb" 0x209100c7 u8
    ∷ item "MsgoutNmeaIdRmcI2C" 0x209100ab u8
    ∷ item "MsgoutNmeaIdRmcSpi" 0x209100af u8
    ∷ item "MsgoutNmeaIdRmcuart1" 0x209100ac u8
    ∷ item "MsgoutNmeaIdRmcuart2" 0x209100ad u8
    ∷ item "MsgoutNmeaIdRmcusb" 0x209100ae u8
    ∷ item "MsgoutNmeaIdVlwI2C" 0x209100e7 u8
    ∷ item "MsgoutNmeaIdVlwSpi" 0x209100eb u8
    ∷ item "MsgoutNmeaIdVlwuart1" 0x209100e8 u8
    ∷ item "MsgoutNmeaIdVlwuart2" 0x209100e9 u8
    ∷ item "MsgoutNmeaIdVlwusb" 0x209100ea u8
    ∷ item "MsgoutNmeaIdVtgI2C" 0x209100b0 u8
    ∷ item "MsgoutNmeaIdVtgSpi" 0x209100b4 u8
    ∷ item "MsgoutNmeaIdVtguart1" 0x209100b1 u8
    ∷ item "MsgoutNmeaIdVtguart2" 0x209100b2 u8
    ∷ item "MsgoutNmeaIdVtgusb" 0x209100b3 u8
    ∷ item "MsgoutNmeaIdZdaI2C" 0x209100d8 u8
    ∷ item "MsgoutNmeaIdZdaSpi" 0x209100dc u8
    ∷ item "MsgoutNmeaIdZdauart1" 0x209100d9 u8
    ∷ item "MsgoutNmeaIdZdauart2" 0x209100da u8
    ∷ item "MsgoutNmeaIdZdausb" 0x209100db u8
    ∷ item "MsgoutPubxIdPolypi2C" 0x209100ec u8
    ∷ item "MsgoutPubxIdPolypspi" 0x209100f0 u8
    ∷ item "MsgoutPubxIdPolypuart1" 0x209100ed u8
    ∷ item "MsgoutPubxIdPolypuart2" 0x209100ee u8
    ∷ item "MsgoutPubxIdPolypusb" 0x209100ef u8
    ∷ item "MsgoutPubxIdPolysi2C" 0x209100f1 u8
    ∷ item "MsgoutPubxIdPolysspi" 0x209100f5 u8
    ∷ []
