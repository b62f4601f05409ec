-- ===== src/System/Battery.antt =====
-- `sensors_battery` and `sensors_battery_total` of pypsutil/_system.py, on a platform without
-- `sensors_battery_total_alt`. What `sensors_power` returns is an argument.
pub mod Order
use pypsutil.Prelude.{
  ℕ, ◌+◌, ◌*◌, Bool, true, false, ◌||◌, ◌&&◌, Option, none, some, List, [], ◌∷◌, ◌==◌,
  if◌then◌else◌, any, every,
}
use pypsutil.Prelude.Int.{pos}
use pypsutil.Prelude.Text.{codes}
use pypsutil.Util.Power.{
  BatteryStatus, BatteryInfo, PowerSupplySensorInfo, is_charging, is_discharging, is_full,
  power_plugged, is_on_ac_power,
}

-- `if battery.power_plugged is None: battery._power_plugged = psinfo.is_on_ac_power`
unfoldable pub fill_plugged : PowerSupplySensorInfo → BatteryInfo → BatteryInfo
fill_plugged info b = elim (power_plugged b) [
  | none ↦ record b { power_plugged_field = is_on_ac_power info }
  | some _ ↦ b
]

unfoldable pub sensors_battery : PowerSupplySensorInfo → Option BatteryInfo
unfolding fill_plugged
sensors_battery info = elim info.batteries [ [] ↦ none | b ∷ _ ↦ some (fill_plugged info b) ]

-- `value or 0`
abbrev pub or_zero : Option ℕ → ℕ
or_zero none = 0
or_zero (some n) = n

-- The sums of the loop over the batteries.
pub record Totals : Type 0 where
  pub energy_full : ℕ
  pub energy_now : ℕ
  pub discharge_rate : ℕ
  pub charge_rate : ℕ

abbrev pub add_battery : Totals → BatteryInfo → Totals
add_battery t b = record {
  energy_full = t.energy_full + or_zero b.energy_full;
  energy_now = t.energy_now + or_zero b.energy_now;
  discharge_rate = t.discharge_rate + (if is_discharging b.status then or_zero b.power_now else 0);
  charge_rate = t.charge_rate + (if is_charging b.status then or_zero b.power_now else 0);
}

unfoldable pub total_up : Totals → List BatteryInfo → Totals
total_up t [] = t
total_up t (b ∷ batteries) = total_up (add_battery t b) batteries

abbrev pub no_totals : Totals
no_totals = record { energy_full = 0; energy_now = 0; discharge_rate = 0; charge_rate = 0 }

-- The status of all batteries together, with the power that belongs to it.
unfoldable pub combined : Totals → List BatteryInfo → BatteryStatus × Option ℕ
combined t batteries =
    if any (λ b. is_charging b.status) batteries
      && every (λ b. is_charging b.status || is_full b.status) batteries
    then (BatteryStatus.charging, some t.charge_rate)
    else if any (λ b. is_discharging b.status) batteries
        && every (λ b. is_discharging b.status || is_full b.status) batteries
    then (BatteryStatus.discharging, some t.discharge_rate)
    else if every (λ b. is_full b.status) batteries
    then (BatteryStatus.full, none)
    else (BatteryStatus.unknown, none)

-- From the loop on, for two batteries or more.
unfoldable pub total_of_many : Option Bool → List BatteryInfo → Option BatteryInfo
unfolding total_up combined
total_of_many plugged batteries =
    let t = total_up no_totals batteries in
    let (status, power_now) = combined t batteries in
    if t.energy_full == 0
    then none
    else some (record {
      name = codes "Combined";
      status = status;
      percent = record { num = pos (t.energy_now * 100); den = t.energy_full };
      energy_full = some t.energy_full;
      energy_now = some t.energy_now;
      power_now = power_now;
      temperature = none;
      power_plugged_field = plugged;
      secsleft_field = none;
    })

unfoldable pub sensors_battery_total : PowerSupplySensorInfo → Option BatteryInfo
unfolding fill_plugged total_of_many
sensors_battery_total info = by_count info.batteries
  where
    by_count : List BatteryInfo → Option BatteryInfo
    by_count [] = none
    by_count (b ∷ []) = some (fill_plugged info b)
    by_count (b ∷ c ∷ rest) = total_of_many (is_on_ac_power info) (b ∷ c ∷ rest)
