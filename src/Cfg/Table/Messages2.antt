-- ===== src/Cfg/Table/Messages2.antt =====
-- Configuration items (ublox/src/ubx_packets/cfg_val.rs, `cfg_val!`): part 2 of CFG-MSGOUT.
use ublox.Prelude.{List, [], ◌∷◌}
use ublox.Cfg.Value.{u8}
use ublox.Cfg.Item.{CfgItem, item}

abbrev pub messages_2 : List CfgItem
messages_2 =
    item "MsgoutPubxIdPolysuart1" 0x209100f2 u8
    ∷ item "MsgoutPubxIdPolysuart2" 0x209100f3 u8
    ∷ item "MsgoutPubxIdPolysusb" 0x209100f4 u8
    ∷ item "MsgoutPubxIdPolyti2C" 0x209100f6 u8
    ∷ item "MsgoutPubxIdPolytspi" 0x209100fa u8
    ∷ item "MsgoutPubxIdPolytuart1" 0x209100f7 u8
    ∷ item "MsgoutPubxIdPolytuart2" 0x209100f8 u8
    ∷ item "MsgoutPubxIdPolytusb" 0x209100f9 u8
    ∷ item "MsgoutRtcm3xtype1005i2c" 0x209102bd u8
    ∷ item "MsgoutRtcm3xtype1005spi" 0x209102c1 u8
    ∷ item "MsgoutRtcm3Xtype1005Uart1" 0x209102be u8
    ∷ item "MsgoutRtcm3Xtype1005Uart2" 0x209102bf u8
    ∷ item "MsgoutRtcm3Xtype1005Usb" 0x209102c0 u8
    ∷ item "MsgoutRtcm3Xtype1074I2C" 0x2091035e u8
    ∷ item "MsgoutRtcm3Xtype1074Spi" 0x20910362 u8
    ∷ item "MsgoutRtcm3Xtype1074Uart1" 0x2091035f u8
    ∷ item "MsgoutRtcm3Xtype1074Uart2" 0x20910360 u8
    ∷ item "MsgoutRtcm3Xtype1074Usb" 0x20910361 u8
    ∷ item "MsgoutRtcm3Xtype1077I2C" 0x209102cc u8
    ∷ item "MsgoutRtcm3Xtype1077Spi" 0x209102d0 u8
    ∷ item "MsgoutRtcm3Xtype1077Uart1" 0x209102cd u8
    ∷ item "MsgoutRtcm3Xtype1077Uart2" 0x209102ce u8
    ∷ item "MsgoutRtcm3Xtype1077Usb" 0x209102cf u8
    ∷ item "MsgoutRtcm3Xtype1084I2C" 0x20910363 u8
    ∷ item "MsgoutRtcm3Xtype1084Spi" 0x20910367 u8
    ∷ item "MsgoutRtcm3Xtype1084Uart1" 0x20910364 u8
    ∷ item "MsgoutRtcm3Xtype1084Uart2" 0x20910365 u8
    ∷ item "MsgoutRtcm3Xtype1084Usb" 0x20910366 u8
    ∷ item "MsgoutRtcm3Xtype1087I2C" 0x209102d1 u8
    ∷ item "MsgoutRtcm3Xtype1087Spi" 0x209102d5 u8
    ∷ item "MsgoutRtcm3Xtype1087Uart1" 0x209102d2 u8
    ∷ item "MsgoutRtcm3Xtype1087Uart2" 0x209102d3 u8
    ∷ item "MsgoutRtcm3Xtype1087Usb" 0x209102d4 u8
    ∷ item "MsgoutRtcm3Xtype1094I2C" 0x20910368 u8
    ∷ item "MsgoutRtcm3Xtype1094Spi" 0x2091036c u8
    ∷ item "MsgoutRtcm3Xtype1094Uart1" 0x20910369 u8
    ∷ item "MsgoutRtcm3Xtype1094Uart2" 0x2091036a u8
    ∷ item "MsgoutRtcm3Xtype1094Usb" 0x2091036b u8
    ∷ item "MsgoutRtcm3Xtype1097I2C" 0x20910318 u8
    ∷ item "MsgoutRtcm3Xtype1097Spi" 0x2091031c u8
    ∷ item "MsgoutRtcm3Xtype1097Uart1" 0x20910319 u8
    ∷ item "MsgoutRtcm3Xtype1097Uart2" 0x2091031a u8
    ∷ item "MsgoutRtcm3Xtype1097Usb" 0x2091031b u8
    ∷ item "MsgoutRtcm3Xtype1124I2C" 0x2091036d u8
    ∷ item "MsgoutRtcm3Xtype1124Spi" 0x20910371 u8
    ∷ item "MsgoutRtcm3Xtype1124Uart1" 0x2091036e u8
    ∷ item "MsgoutRtcm3Xtype1124Uart2" 0x2091036f u8
    ∷ item "MsgoutRtcm3Xtype1124Usb" 0x20910370 u8
    ∷ item "MsgoutRtcm3Xtype1127I2C" 0x209102d6 u8
    ∷ item "MsgoutRtcm3Xtype1127Spi" 0x209102da u8
    ∷ item "MsgoutRtcm3Xtype1127Uart1" 0x209102d7 u8
    ∷ item "MsgoutRtcm3Xtype1127Uart2" 0x209102d8 u8
    ∷ item "MsgoutRtcm3Xtype1127Usb" 0x209102d9 u8
    ∷ item "MsgoutRtcm3Xtype1230I2C" 0x20910303 u8
    ∷ item "MsgoutRtcm3Xtype1230Spi" 0x20910307 u8
    ∷ item "MsgoutRtcm3Xtype1230Uart1" 0x20910304 u8
    ∷ item "MsgoutRtcm3Xtype1230Uart2" 0x20910305 u8
    ∷ item "MsgoutRtcm3Xtype1230Usb" 0x20910306 u8
    ∷ item "MsgoutUbxLogInfoi2C" 0x20910259 u8
    ∷ item "MsgoutUbxLogInfoSpi" 0x2091025d u8
    ∷ item "MsgoutUbxLogInfouart1" 0x2091025a u8
    ∷ item "MsgoutUbxLogInfouart2" 0x2091025b u8
    ∷ item "MsgoutUbxLogInfousb" 0x2091025c u8
    ∷ item "MsgoutUbxMoncommsI2C" 0x2091034f u8
    ∷ item "MsgoutUbxMoncommsSpi" 0x20910353 u8
    ∷ item "MsgoutUbxMoncommsUart1" 0x20910350 u8
    ∷ item "MsgoutUbxMoncommsUart2" 0x20910351 u8
    ∷ item "MsgoutUbxMoncommsUsb" 0x20910352 u8
    ∷ []
