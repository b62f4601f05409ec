-- ===== src/System/Battery/Order.antt =====
-- The order of the batteries does not matter for `sensors_battery_total`.
use pypsutil.Prelude.{Option, none, List, [], ◌∷◌}
use pypsutil.Util.Power.{BatteryInfo, AcPowerInfo, PowerSupplySensorInfo}

-- A battery without what it says of the mains.
abbrev pub forget_plugged : BatteryInfo → BatteryInfo
forget_plugged b = record b { power_plugged_field = none }

-- The first battery, or a given one.
abbrev first_or : BatteryInfo → List BatteryInfo → BatteryInfo
first_or d [] = d
first_or d (b ∷ _) = b

abbrev info_of : List BatteryInfo → List AcPowerInfo → PowerSupplySensorInfo
info_of batteries ac_supplies = record { batteries = batteries; ac_supplies = ac_supplies }
