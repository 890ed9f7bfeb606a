-- ===== src/Cfg/Table.antt =====
-- The table of `cfg_val!` (ublox/src/ubx_packets/cfg_val.rs), in the order of the source.
mod Ports
mod Rates
mod Messages1
mod Messages2
mod Messages3
mod Messages4
mod Messages5
mod Signals
use ublox.Prelude.{List, ◌++◌}
use ublox.Cfg.Item.{CfgItem}
use ublox.Cfg.Table.Ports.{ports}
use ublox.Cfg.Table.Rates.{rates}
use ublox.Cfg.Table.Messages1.{messages_1}
use ublox.Cfg.Table.Messages2.{messages_2}
use ublox.Cfg.Table.Messages3.{messages_3}
use ublox.Cfg.Table.Messages4.{messages_4}
use ublox.Cfg.Table.Messages5.{messages_5}
use ublox.Cfg.Table.Signals.{signals}

abbrev pub items : List CfgItem
items =
    ports
    ++ (rates
        ++ (messages_1
            ++ (messages_2 ++ (messages_3 ++ (messages_4 ++ (messages_5 ++ (signals)))))))
