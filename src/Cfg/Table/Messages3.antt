-- ===== src/Cfg/Table/Messages3.antt =====
-- Configuration items (ublox/src/ubx_packets/cfg_val.rs, `cfg_val!`): part 3 of CFG-MSGOUT.
use ublox.Prelude.{List, [], ◌∷◌}
use ublox.Cfg.Value.{u8}
use ublox.Cfg.Item.{CfgItem, item}

abbrev pub messages_3 : List CfgItem
messages_3 =
    item "MsgoutUbxMonHw2I2C" 0x209101b9 u8
    ∷ item "MsgoutUbxMonHw2Spi" 0x209101bd u8
    ∷ item "MsgoutUbxMonHw2Uart1" 0x209101ba u8
    ∷ item "MsgoutUbxMonHw2Uart2" 0x209101bb u8
    ∷ item "MsgoutUbxMonHw2Usb" 0x209101bc u8
    ∷ item "MsgoutUbxMonHw3I2C" 0x20910354 u8
    ∷ item "MsgoutUbxMonHw3Spi" 0x20910358 u8
    ∷ item "MsgoutUbxMonHw3Uart1" 0x20910355 u8
    ∷ item "MsgoutUbxMonHw3Uart2" 0x20910356 u8
    ∷ item "MsgoutUbxMonHw3Usb" 0x20910357 u8
    ∷ item "MsgoutUbxMonHwi2C" 0x209101b4 u8
    ∷ item "MsgoutUbxMonHwSpi" 0x209101b8 u8
    ∷ item "MsgoutUbxMonHwuart1" 0x209101b5 u8
    ∷ item "MsgoutUbxMonHwuart2" 0x209101b6 u8
    ∷ item "MsgoutUbxMonHwusb" 0x209101b7 u8
    ∷ item "MsgoutUbxMonIoI2C" 0x209101a5 u8
    ∷ item "MsgoutUbxMonIoSpi" 0x209101a9 u8
    ∷ item "MsgoutUbxMonIouart1" 0x209101a6 u8
    ∷ item "MsgoutUbxMonIouart2" 0x209101a7 u8
    ∷ item "MsgoutUbxMonIoUsb" 0x209101a8 u8
    ∷ item "MsgoutUbxMonmsgppI2C" 0x20910196 u8
    ∷ item "MsgoutUbxMonmsgppSpi" 0x2091019a u8
    ∷ item "MsgoutUbxMonmsgppUart1" 0x20910197 u8
    ∷ item "MsgoutUbxMonmsgppUart2" 0x20910198 u8
    ∷ item "MsgoutUbxMonmsgppUsb" 0x20910199 u8
    ∷ item "MsgoutUbxMonRfI2C" 0x20910359 u8
    ∷ item "MsgoutUbxMonRfSpi" 0x2091035d u8
    ∷ item "MsgoutUbxMonRfuart1" 0x2091035a u8
    ∷ item "MsgoutUbxMonRfuart2" 0x2091035b u8
    ∷ item "MsgoutUbxMonRfUsb" 0x2091035c u8
    ∷ item "MsgoutUbxMonRxbufi2C" 0x209101a0 u8
    ∷ item "MsgoutUbxMonRxbufspi" 0x209101a4 u8
    ∷ item "MsgoutUbxMonRxbufuart1" 0x209101a1 u8
    ∷ item "MsgoutUbxMonRxbufuart2" 0x209101a2 u8
    ∷ item "MsgoutUbxMonRxbufusb" 0x209101a3 u8
    ∷ item "MsgoutUbxMonRxri2C" 0x20910187 u8
    ∷ item "MsgoutUbxMonRxrSpi" 0x2091018b u8
    ∷ item "MsgoutUbxMonRxruart1" 0x20910188 u8
    ∷ item "MsgoutUbxMonRxruart2" 0x20910189 u8
    ∷ item "MsgoutUbxMonRxrusb" 0x2091018a u8
    ∷ item "MsgoutUbxMonTxbufi2C" 0x2091019b u8
    ∷ item "MsgoutUbxMonTxbufspi" 0x2091019f u8
    ∷ item "MsgoutUbxMonTxbufuart1" 0x2091019c u8
    ∷ item "MsgoutUbxMonTxbufuart2" 0x2091019d u8
    ∷ item "MsgoutUbxMonTxbufusb" 0x2091019e u8
    ∷ item "MsgoutUbxNavClocki2C" 0x20910065 u8
    ∷ item "MsgoutUbxNavClockspi" 0x20910069 u8
    ∷ item "MsgoutUbxNavClockuart1" 0x20910066 u8
    ∷ item "MsgoutUbxNavClockuart2" 0x20910067 u8
    ∷ item "MsgoutUbxNavClockusb" 0x20910068 u8
    ∷ item "MsgoutUbxNavDopI2C" 0x20910038 u8
    ∷ item "MsgoutUbxNavDopSpi" 0x2091003c u8
    ∷ item "MsgoutUbxNavDopuart1" 0x20910039 u8
    ∷ item "MsgoutUbxNavDopuart2" 0x2091003a u8
    ∷ item "MsgoutUbxNavDopusb" 0x2091003b u8
    ∷ item "MsgoutUbxNavEoeI2C" 0x2091015f u8
    ∷ item "MsgoutUbxNavEoeSpi" 0x20910163 u8
    ∷ item "MsgoutUbxNavEoeuart1" 0x20910160 u8
    ∷ item "MsgoutUbxNavEoeuart2" 0x20910161 u8
    ∷ item "MsgoutUbxNavEoeusb" 0x20910162 u8
    ∷ item "MsgoutUbxNavgeofenceI2C" 0x209100a1 u8
    ∷ item "MsgoutUbxNavgeofenceSpi" 0x209100a5 u8
    ∷ item "MsgoutUbxNavgeofenceUart1" 0x209100a2 u8
    ∷ item "MsgoutUbxNavgeofenceUart2" 0x209100a3 u8
    ∷ item "MsgoutUbxNavgeofenceUsb" 0x209100a4 u8
    ∷ item "MsgoutUbxNavhpposecefI2C" 0x2091002e u8
    ∷ item "MsgoutUbxNavhpposecefSpi" 0x20910032 u8
    ∷ item "MsgoutUbxNavhpposecefUart1" 0x2091002f u8
    ∷ item "MsgoutUbxNavhpposecefUart2" 0x20910030 u8
    ∷ item "MsgoutUbxNavhpposecefUsb" 0x20910031 u8
    ∷ []
