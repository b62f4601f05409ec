-- ===== src/Tests/SystemWide.antt =====
-- The theorems on pypsutil/_system.py and the Linux sensors, at concrete inputs.
use mathlib.Core.List.Perm
use pypsutil.Prelude.{
  ℕ, ◌+◌, ◌*◌, ◌≡◌, refl, ◌⊎◌, true, none, some, List, [], ◌∷◌, arith, string_eq,
}
use pypsutil.Prelude.Int.{pos}
use pypsutil.Prelude.Text.{codes}
use pypsutil.Prelude.Dict.{lookup}
use pypsutil.Util.NetIoCounts.{NetIoCounts, nowrap, Le, nowrap_repeated}
use pypsutil.System.NetIo.{
  Cache, IsTotal, pernic_net_io_counters, net_io_counters, pernic_net_io_counters_grow,
  net_io_counters-IsTotal,
}
use pypsutil.Util.Power.{BatteryStatus, BatteryInfo, PowerSupplySensorInfo}
use pypsutil.Linux.Supply.{Supply, get}
use pypsutil.Linux.Supply.View.{view, get-view}
use pypsutil.Linux.Power.{SupplyInfo, sensors_power, sensors_is_on_ac_power}
use pypsutil.Linux.Power.Agree.{asked, sensors_is_on_ac_power-sensors_power}

abbrev sent : ℕ → NetIoCounts
sent n = record {
  bytes_sent = n;
  bytes_recv = 5;
  packets_sent = 1;
  packets_recv = 1;
  errin = 0;
  errout = 0;
  dropin = 0;
  dropout = 0;
}

abbrev cached : Cache
cached = ("eth0", sent 100) ∷ ("lo", sent 7) ∷ []

abbrev reading : Cache
reading = ("eth0", sent 10) ∷ []

nowrap_repeated_example :
    let once = (nowrap (sent 10) (some (sent 100))).1 in
    (once.bytes_sent ≡ 100 + 10) × ((nowrap (sent 10) (some once)).0.bytes_sent ≡ 100 + 2 * 10)
nowrap_repeated_example = nowrap_repeated (sent 10) (sent 100) (omega arith)

pernic_net_io_counters_grow_example :
    let (result, cache') = pernic_net_io_counters true reading cached in
    (r : NetIoCounts) × (lookup "eth0" result ≡ some r)
    × (lookup "eth0" cache' ≡ some r)
    × Le (sent 100) r
pernic_net_io_counters_grow_example =
    pernic_net_io_counters_grow "eth0" reading cached (refl, tt) refl refl

net_io_counters-IsTotal_example :
    let (result, cache') = pernic_net_io_counters true reading cached in
    ((net_io_counters true reading cached).1 ≡ cache')
    × (((result ≡ []) × ((net_io_counters true reading cached).0 ≡ none))
        ⊎ ((t : NetIoCounts) × ((net_io_counters true reading cached).0 ≡ some t)
            × IsTotal t result))
net_io_counters-IsTotal_example = net_io_counters-IsTotal true reading cached

abbrev bat : BatteryStatus → ℕ → BatteryInfo
bat status energy = record {
  name = codes "BAT";
  status = status;
  percent = record { num = pos 50; den = 1 };
  energy_full = some 100;
  energy_now = some energy;
  power_now = some 9;
  temperature = none;
  power_plugged_field = none;
  secsleft_field = none;
}

abbrev powered_by : List BatteryInfo → PowerSupplySensorInfo
powered_by batteries = record { batteries = batteries; ac_supplies = [] }

abbrev supply : Supply
supply = record {
  name = codes "AC";
  data_values = (codes "name", some (codes "AC")) ∷ [];
  files = λ key. some (codes "1");
}

get-view_example :
    ((get (codes "online") supply).0 ≡ view supply (codes "online"))
    × (view (get (codes "online") supply).1 (codes "type") ≡ view supply (codes "type"))
get-view_example = get-view supply (codes "online") (codes "type")

abbrev items : List SupplyInfo
items =
    SupplyInfo.battery (bat BatteryStatus.discharging 20)
    ∷ SupplyInfo.mains (record { name = codes "AC"; is_online = true })
    ∷ []

sensors_is_on_ac_power-sensors_power_example :
    sensors_is_on_ac_power (items, none) ≡ asked (sensors_power (items, none))
sensors_is_on_ac_power-sensors_power_example = sensors_is_on_ac_power-sensors_power items
