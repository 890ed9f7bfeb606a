-- ===== src/Cfg/Table/Messages5.antt =====
-- Configuration items (ublox/src/ubx_packets/cfg_val.rs, `cfg_val!`): part 5 of CFG-MSGOUT.
use ublox.Prelude.{List, [], ◌∷◌}
use ublox.Cfg.Value.{u8}
use ublox.Cfg.Item.{CfgItem, item}

abbrev pub messages_5 : List CfgItem
messages_5 =
    item "MsgoutUbxNavtimegpsI2C" 0x20910047 u8
    ∷ item "MsgoutUbxNavtimegpsSpi" 0x2091004b u8
    ∷ item "MsgoutUbxNavtimegpsUart1" 0x20910048 u8
    ∷ item "MsgoutUbxNavtimegpsUart2" 0x20910049 u8
    ∷ item "MsgoutUbxNavtimegpsUsb" 0x2091004a u8
    ∷ item "MsgoutUbxNavTimelsi2C" 0x20910060 u8
    ∷ item "MsgoutUbxNavTimelsspi" 0x20910064 u8
    ∷ item "MsgoutUbxNavTimelsuart1" 0x20910061 u8
    ∷ item "MsgoutUbxNavTimelsuart2" 0x20910062 u8
    ∷ item "MsgoutUbxNavTimelsusb" 0x20910063 u8
    ∷ item "MsgoutUbxNavtimeutcI2C" 0x2091005b u8
    ∷ item "MsgoutUbxNavtimeutcSpi" 0x2091005f u8
    ∷ item "MsgoutUbxNavtimeutcUart1" 0x2091005c u8
    ∷ item "MsgoutUbxNavtimeutcUart2" 0x2091005d u8
    ∷ item "MsgoutUbxNavtimeutcUsb" 0x2091005e u8
    ∷ item "MsgoutUbxNavvelecefI2C" 0x2091003d u8
    ∷ item "MsgoutUbxNavvelecefSpi" 0x20910041 u8
    ∷ item "MsgoutUbxNavvelecefUart1" 0x2091003e u8
    ∷ item "MsgoutUbxNavvelecefUart2" 0x2091003f u8
    ∷ item "MsgoutUbxNavvelecefUsb" 0x20910040 u8
    ∷ item "MsgoutUbxNavvelnedI2C" 0x20910042 u8
    ∷ item "MsgoutUbxNavvelnedSpi" 0x20910046 u8
    ∷ item "MsgoutUbxNavvelnedUart1" 0x20910043 u8
    ∷ item "MsgoutUbxNavvelnedUart2" 0x20910044 u8
    ∷ item "MsgoutUbxNavvelnedUsb" 0x20910045 u8
    ∷ item "MsgoutUbxRxmMeasxi2C" 0x20910204 u8
    ∷ item "MsgoutUbxRxmMeasxspi" 0x20910208 u8
    ∷ item "MsgoutUbxRxmMeasxuart1" 0x20910205 u8
    ∷ item "MsgoutUbxRxmMeasxuart2" 0x20910206 u8
    ∷ item "MsgoutUbxRxmMeasxusb" 0x20910207 u8
    ∷ item "MsgoutUbxRxmRawxi2C" 0x209102a4 u8
    ∷ item "MsgoutUbxRxmRawxspi" 0x209102a8 u8
    ∷ item "MsgoutUbxRxmRawxuart1" 0x209102a5 u8
    ∷ item "MsgoutUbxRxmRawxuart2" 0x209102a6 u8
    ∷ item "MsgoutUbxRxmRawxusb" 0x209102a7 u8
    ∷ item "MsgoutUbxRxmRlmi2C" 0x2091025e u8
    ∷ item "MsgoutUbxRxmRlmSpi" 0x20910262 u8
    ∷ item "MsgoutUbxRxmRlmuart1" 0x2091025f u8
    ∷ item "MsgoutUbxRxmRlmuart2" 0x20910260 u8
    ∷ item "MsgoutUbxRxmRlmusb" 0x20910261 u8
    ∷ item "MsgoutUbxRxmRtcmi2C" 0x20910268 u8
    ∷ item "MsgoutUbxRxmRtcmspi" 0x2091026c u8
    ∷ item "MsgoutUbxRxmRtcmuart1" 0x20910269 u8
    ∷ item "MsgoutUbxRxmRtcmuart2" 0x2091026a u8
    ∷ item "MsgoutUbxRxmRtcmusb" 0x2091026b u8
    ∷ item "MsgoutUbxRxmSfrbxi2C" 0x20910231 u8
    ∷ item "MsgoutUbxRxmSfrbxspi" 0x20910235 u8
    ∷ item "MsgoutUbxRxmSfrbxuart1" 0x20910232 u8
    ∷ item "MsgoutUbxRxmSfrbxuart2" 0x20910233 u8
    ∷ item "MsgoutUbxRxmSfrbxusb" 0x20910234 u8
    ∷ item "MsgoutUbxTimTm2I2C" 0x20910178 u8
    ∷ item "MsgoutUbxTimTm2Spi" 0x2091017c u8
    ∷ item "MsgoutUbxTimTm2Uart1" 0x20910179 u8
    ∷ item "MsgoutUbxTimTm2Uart2" 0x2091017a u8
    ∷ item "MsgoutUbxTimTm2Usb" 0x2091017b u8
    ∷ item "MsgoutUbxTimTpI2C" 0x2091017d u8
    ∷ item "MsgoutUbxTimTpSpi" 0x20910181 u8
    ∷ item "MsgoutUbxTimTpuart1" 0x2091017e u8
    ∷ item "MsgoutUbxTimTpuart2" 0x2091017f u8
    ∷ item "MsgoutUbxTimTpUsb" 0x20910180 u8
    ∷ item "MsgoutUbxTimVrfyI2C" 0x20910092 u8
    ∷ item "MsgoutUbxTimVrfySpi" 0x20910096 u8
    ∷ item "MsgoutUbxTimVrfyuart1" 0x20910093 u8
    ∷ item "MsgoutUbxTimVrfyuart2" 0x20910094 u8
    ∷ item "MsgoutUbxTimVrfyusb" 0x20910095 u8
    ∷ []
