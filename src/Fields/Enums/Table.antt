-- ===== src/Fields/Enums/Table.antt =====
-- The enums with `#[ubx_extend]` (ublox/src/ubx_packets/packets.rs).
use ublox.Prelude.{some, List, [], ◌∷◌}
use ublox.Fields.Enums.{UbxExtendEnum, named, from, from_unchecked, rest_reserved, rest_error}

abbrev pub gps_fix : UbxExtendEnum
gps_fix = record {
  name = "GpsFix";
  from_fn = some from;
  rest_handling = some rest_reserved;
  variants =
      named "NoFix" 0
      ∷ named "DeadReckoningOnly" 1
      ∷ named "Fix2D" 2
      ∷ named "Fix3D" 3
      ∷ named "GPSPlusDeadReckoning" 4
      ∷ named "TimeOnlyFix" 5
      ∷ [];
}

abbrev nav_status_flags2 : UbxExtendEnum
nav_status_flags2 = record {
  name = "NavStatusFlags2";
  from_fn = some from;
  rest_handling = some rest_reserved;
  variants =
      named "Acquisition" 0
      ∷ named "Tracking" 1
      ∷ named "PowerOptimizedTracking" 2
      ∷ named "Inactive" 3
      ∷ [];
}

abbrev pub odo_profile : UbxExtendEnum
odo_profile = record {
  name = "OdoProfile";
  from_fn = some from_unchecked;
  rest_handling = some rest_error;
  variants =
      named "Running" 0
      ∷ named "Cycling" 1
      ∷ named "Swimming" 2
      ∷ named "Car" 3
      ∷ named "Custom" 4
      ∷ [];
}

abbrev cfg_itfm_antenna_settings : UbxExtendEnum
cfg_itfm_antenna_settings = record {
  name = "CfgItfmAntennaSettings";
  from_fn = some from_unchecked;
  rest_handling = some rest_error;
  variants = named "Unknown" 0 ∷ named "Active" 1 ∷ named "Passive" 2 ∷ [];
}

abbrev cfg_tp5_time_pulse_mode : UbxExtendEnum
cfg_tp5_time_pulse_mode = record {
  name = "CfgTp5TimePulseMode";
  from_fn = some from_unchecked;
  rest_handling = some rest_error;
  variants = named "TimePulse" 0 ∷ named "TimePulse2" 1 ∷ [];
}

abbrev cfg_tmode2_time_xfer_modes : UbxExtendEnum
cfg_tmode2_time_xfer_modes = record {
  name = "CfgTmode2TimeXferModes";
  from_fn = some from_unchecked;
  rest_handling = some rest_error;
  variants = named "Disabled" 0 ∷ named "SurveyIn" 1 ∷ named "FixedMode" 2 ∷ [];
}

abbrev i2c_port_id : UbxExtendEnum
i2c_port_id = record {
  name = "I2cPortId";
  from_fn = some from_unchecked;
  rest_handling = some rest_error;
  variants = named "I2c" 0 ∷ [];
}

abbrev uart_port_id : UbxExtendEnum
uart_port_id = record {
  name = "UartPortId";
  from_fn = some from_unchecked;
  rest_handling = some rest_error;
  variants = named "Uart1" 1 ∷ named "Uart2" 2 ∷ named "Usb" 3 ∷ [];
}

abbrev spi_port_id : UbxExtendEnum
spi_port_id = record {
  name = "SpiPortId";
  from_fn = some from_unchecked;
  rest_handling = some rest_error;
  variants = named "Spi" 4 ∷ [];
}

abbrev cfg_nav5_dyn_model : UbxExtendEnum
cfg_nav5_dyn_model = record {
  name = "CfgNav5DynModel";
  from_fn = some from_unchecked;
  rest_handling = some rest_error;
  variants =
      named "Portable" 0
      ∷ named "Stationary" 2
      ∷ named "Pedestrian" 3
      ∷ named "Automotive" 4
      ∷ named "Sea" 5
      ∷ named "AirborneWithLess1gAcceleration" 6
      ∷ named "AirborneWithLess2gAcceleration" 7
      ∷ named "AirborneWith4gAcceleration" 8
      ∷ named "WristWornWatch" 9
      ∷ named "Bike" 10
      ∷ [];
}

abbrev cfg_nav5_fix_mode : UbxExtendEnum
cfg_nav5_fix_mode = record {
  name = "CfgNav5FixMode";
  from_fn = some from_unchecked;
  rest_handling = some rest_error;
  variants = named "Only2D" 1 ∷ named "Only3D" 2 ∷ named "Auto2D3D" 3 ∷ [];
}

abbrev cfg_nav5_utc_standard : UbxExtendEnum
cfg_nav5_utc_standard = record {
  name = "CfgNav5UtcStandard";
  from_fn = some from_unchecked;
  rest_handling = some rest_error;
  variants = named "Automatic" 0 ∷ named "Usno" 3 ∷ named "UtcSu" 6 ∷ named "UtcChina" 7 ∷ [];
}

abbrev msg_ack_info_code : UbxExtendEnum
msg_ack_info_code = record {
  name = "MsgAckInfoCode";
  from_fn = some from;
  rest_handling = some rest_reserved;
  variants =
      named "Accepted" 0
      ∷ named "RejectedNoTime" 1
      ∷ named "RejectedBadVersion" 2
      ∷ named "RejectedBadSize" 3
      ∷ named "RejectedDBStoreFailed" 4
      ∷ named "RejectedNotReady" 5
      ∷ named "RejectedUnknownType" 6
      ∷ [];
}

abbrev antenna_status : UbxExtendEnum
antenna_status = record {
  name = "AntennaStatus";
  from_fn = some from;
  rest_handling = some rest_reserved;
  variants =
      named "Init" 0 ∷ named "DontKnow" 1 ∷ named "Ok" 2 ∷ named "Short" 3 ∷ named "Open" 4 ∷ [];
}

abbrev antenna_power : UbxExtendEnum
antenna_power = record {
  name = "AntennaPower";
  from_fn = some from;
  rest_handling = some rest_reserved;
  variants = named "Off" 0 ∷ named "On" 1 ∷ named "DontKnow" 2 ∷ [];
}

abbrev pub all_enums : List UbxExtendEnum
all_enums =
    gps_fix ∷ nav_status_flags2 ∷ odo_profile ∷ cfg_itfm_antenna_settings ∷ cfg_tp5_time_pulse_mode
    ∷ cfg_tmode2_time_xfer_modes ∷ i2c_port_id ∷ uart_port_id ∷ spi_port_id ∷ cfg_nav5_dyn_model
    ∷ cfg_nav5_fix_mode ∷ cfg_nav5_utc_standard ∷ msg_ack_info_code ∷ antenna_status ∷ antenna_power
    ∷ []
