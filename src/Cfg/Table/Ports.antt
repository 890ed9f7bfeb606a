-- ===== src/Cfg/Table/Ports.antt =====
-- Configuration items (ublox/src/ubx_packets/cfg_val.rs, `cfg_val!`): the ports: CFG-UART1, CFG-UART2, CFG-USB and what each takes in and sends.
use ublox.Prelude.{List, [], ◌∷◌}
use ublox.Cfg.Value.{bool, data_bits, parity, stop_bits, u16, u32, u64}
use ublox.Cfg.Item.{CfgItem, item}

abbrev pub ports : List CfgItem
ports =
    item "Uart1Baudrate" 0x40520001 u32
    ∷ item "Uart1StopBits" 0x20520002 stop_bits
    ∷ item "Uart1DataBits" 0x20520003 data_bits
    ∷ item "Uart1Parity" 0x20520004 parity
    ∷ item "Uart1Enabled" 0x10520005 bool
    ∷ item "Uart1InProtUbx" 0x10730001 bool
    ∷ item "Uart1InProtNmea" 0x10730002 bool
    ∷ item "Uart1InProtRtcm3x" 0x10730004 bool
    ∷ item "Uart1OutProtUbx" 0x10740001 bool
    ∷ item "Uart1OutProtNmea" 0x10740002 bool
    ∷ item "Uart1OutProtRtcm3x" 0x10740004 bool
    ∷ item "Uart2Baudrate" 0x40530001 u32
    ∷ item "Uart2StopBits" 0x20530002 stop_bits
    ∷ item "Uart2DataBits" 0x20530003 data_bits
    ∷ item "Uart2Parity" 0x20530004 parity
    ∷ item "Uart2Enabled" 0x10530005 bool
    ∷ item "Uart2Remap" 0x10530006 bool
    ∷ item "Uart2InProtUbx" 0x10750001 bool
    ∷ item "Uart2InProtNmea" 0x10750002 bool
    ∷ item "Uart2InProtRtcm3x" 0x10750004 bool
    ∷ item "Uart2OutProtUbx" 0x10760001 bool
    ∷ item "Uart2OutProtNmea" 0x10760002 bool
    ∷ item "Uart2OutProtRtcm3x" 0x10760004 bool
    ∷ item "UsbEnabled" 0x10650001 bool
    ∷ item "UsbSelfpow" 0x10650002 bool
    ∷ item "UsbVendorId" 0x3065000a u16
    ∷ item "UsbProductId" 0x3065000b u16
    ∷ item "UsbPower" 0x3065000c u16
    ∷ item "UsbVendorStr0" 0x5065000d u64
    ∷ item "UsbVendorStr1" 0x5065000e u64
    ∷ item "UsbVendorStr2" 0x5065000f u64
    ∷ item "UsbVendorStr3" 0x50650010 u64
    ∷ item "UsbProductStr0" 0x50650011 u64
    ∷ item "UsbProductStr1" 0x50650012 u64
    ∷ item "UsbProductStr2" 0x50650013 u64
    ∷ item "UsbProductStr3" 0x50650014 u64
    ∷ item "UsbSerialNoStr0" 0x50650015 u64
    ∷ item "UsbSerialNoStr1" 0x50650016 u64
    ∷ item "UsbSerialNoStr2" 0x50650017 u64
    ∷ item "UsbSerialNoStr3" 0x50650018 u64
    ∷ item "UsbinprotUbx" 0x10770001 bool
    ∷ item "UsbinprotNmea" 0x10770002 bool
    ∷ item "UsbinprotRtcm3X" 0x10770004 bool
    ∷ item "UsbOutProtUbx" 0x10780001 bool
    ∷ item "UsbOutProtNmea" 0x10780002 bool
    ∷ item "UsbOutProtRtcm3x" 0x10780004 bool
    ∷ []
