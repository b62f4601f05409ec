-- ===== src/Util/Power.antt =====
-- `BatteryInfo`, `ACPowerInfo` and `PowerSupplySensorInfo` of pypsutil/_util.py.
-- Energies, powers and capacities are numbers in the units of the system, not negative. A float
-- that the code gets by a division is kept as the division, `Quotient num den`.
use pypsutil.Prelude.{
  ℕ, ◌*◌, Bool, true, false, not, ◌||◌, ◌&&◌, Option, none, some, List, [], ◌∷◌, ltb, if◌then◌else◌,
  any, is_empty,
}
use pypsutil.Prelude.Text.{Text}
use pypsutil.Prelude.Int.{ℤ, pos, sub_ℕ}

pub data BatteryStatus : Type 0 where
  charging discharging full unknown : BatteryStatus

pub record Quotient : Type 0 where
  pub num : ℤ
  pub den : ℕ

-- A number of seconds, or `float("inf")`.
pub data Seconds : Type 0 where
  inf : Seconds
  secs : Quotient → Seconds

pub record BatteryInfo : Type 0 where
  pub name : Text
  pub status : BatteryStatus
  pub percent : Quotient
  pub energy_full : Option ℕ
  pub energy_now : Option ℕ
  pub power_now : Option ℕ
  pub temperature : Option Quotient
  pub power_plugged_field : Option Bool
  pub secsleft_field : Option Seconds

abbrev pub is_charging : BatteryStatus → Bool
is_charging BatteryStatus.charging = true
is_charging _ = false

abbrev pub is_discharging : BatteryStatus → Bool
is_discharging BatteryStatus.discharging = true
is_discharging _ = false

abbrev pub is_full : BatteryStatus → Bool
is_full BatteryStatus.full = true
is_full _ = false

-- The property `power_plugged`.
unfoldable pub power_plugged : BatteryInfo → Option Bool
power_plugged b =
    if is_charging b.status
    then some true
    else if is_discharging b.status
    then some false
    else b.power_plugged_field

-- An `Optional[bool]` as a condition.
abbrev pub truthy : Option Bool → Bool
truthy none = false
truthy (some b) = b

-- `a * 3600 / power_now` where the powers and energies are there and the power is positive.
abbrev time_left : Option ℕ → Option ℤ → Option Quotient
time_left none energy = none
time_left (some power) none = none
time_left (some power) (some energy) =
    if ltb 0 power then some (record { num = energy; den = power }) else none

-- The property `secsleft`.
unfoldable pub secsleft : BatteryInfo → Option Seconds
unfolding power_plugged
secsleft b =
    if (is_full b.status || is_charging b.status) || truthy (power_plugged b)
    then some Seconds.inf
    else if is_discharging b.status
    then from_rate (time_left b.power_now (energy b.energy_now))
    else b.secsleft_field
  where
    energy : Option ℕ → Option ℤ
    energy none = none
    energy (some e) = some (pos (e * 3600))

    from_rate : Option Quotient → Option Seconds
    from_rate none = b.secsleft_field
    from_rate (some q) = some (Seconds.secs q)

-- `(energy_full - energy_now) * 3600`
abbrev missing_energy : Option ℕ → Option ℕ → Option ℤ
missing_energy none now = none
missing_energy (some capacity) none = none
missing_energy (some capacity) (some now) = some (sub_ℕ (capacity * 3600) (now * 3600))

-- The property `secsleft_full`.
unfoldable pub secsleft_full : BatteryInfo → Option Quotient
secsleft_full b =
    if is_full b.status
    then some (record { num = pos 0; den = 1 })
    else if is_charging b.status
    then time_left b.power_now (missing_energy b.energy_full b.energy_now)
    else none

pub record AcPowerInfo : Type 0 where
  pub name : Text
  pub is_online : Bool

pub record PowerSupplySensorInfo : Type 0 where
  pub batteries : List BatteryInfo
  pub ac_supplies : List AcPowerInfo

-- The end of `is_on_ac_power`, behind the loop over the batteries.
after_batteries : Bool → PowerSupplySensorInfo → Option Bool
after_batteries all_full info =
    if not (is_empty info.batteries) && all_full
    then some true
    else if is_empty info.ac_supplies
    then none
    else some false

-- The loop over the batteries, with `all_batteries_full`.
battery_loop : PowerSupplySensorInfo → List BatteryInfo → Bool → Option Bool
battery_loop info [] all_full = after_batteries all_full info
battery_loop info (b ∷ batteries) all_full = elim b.status [
  | BatteryStatus.charging ↦ some true
  | BatteryStatus.discharging ↦ some false
  | BatteryStatus.full ↦ battery_loop info batteries all_full
  | BatteryStatus.unknown ↦ battery_loop info batteries false
]

-- The property `is_on_ac_power`.
unfoldable pub is_on_ac_power : PowerSupplySensorInfo → Option Bool
unfolding battery_loop after_batteries
is_on_ac_power info =
    if any (λ (s : AcPowerInfo). s.is_online) info.ac_supplies
    then some true
    else battery_loop info info.batteries true
