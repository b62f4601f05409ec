-- ===== src/Linux/Power.antt =====
-- `_iter_sensors_power`, `sensors_power` and `sensors_is_on_ac_power` of pypsutil/_pslinux.py.
-- A product of a charge or a current with a voltage is rounded down exactly; the code goes by way of
-- a float. Numbers are not negative: a text with a sign, which `int` takes, is a ValueError here.
pub mod Agree
use pypsutil.Prelude.{
  ℕ, ◌*◌, ◌/◌, Bool, true, false, not, Option, none, some, List, [], ◌∷◌, ◌++◌, ◌==◌, if◌then◌else◌,
  any,
}
use pypsutil.Prelude.Int.{pos}
use pypsutil.Prelude.Text.{Text, codes, lower, parse_int, text_eq, text_keys}
use pypsutil.Prelude.Dict
use pypsutil.Prelude.Dict.{Dict, lookup}
use pypsutil.Prelude.Exn.{Exn, Result, ok, err}
use pypsutil.Util.Power.{
  BatteryStatus, BatteryInfo, AcPowerInfo, PowerSupplySensorInfo, Quotient, is_on_ac_power,
}
use pypsutil.Linux.Supply.{Supply, get}

-- Reading values of one supply, with exceptions.
abbrev Reads : Type 0 → Type 0
Reads A = Supply → Result A × Supply

infixl 5 ◌>>=◌
abbrev ◌>>=◌ : {A B : Type 0} → Reads A → (A → Reads B) → Reads B
◌>>=◌ m f s = let (r, s') = m s in elim r [ ok a ↦ f a s' | err e ↦ (err e, s') ]

abbrev pure : {A : Type 0} → A → Reads A
pure a s = (ok a, s)

abbrev raise : {A : Type 0} → Exn → Reads A
raise e s = (err e, s)

-- `supply.get(key, default)`
abbrev value_or : Text → Text → Reads Text
value_or key default s =
    let (v, s') = get key s in (ok (elim v [ none ↦ default | some t ↦ t ]), s')

-- `key in supply`
abbrev has : Text → Reads Bool
has key s = let (v, s') = get key s in (ok (elim v [ none ↦ false | some _ ↦ true ]), s')

-- `int(supply[key])`
abbrev as_int : Option Text → Result ℕ
as_int none = err Exn.key_error
as_int (some t) = elim (parse_int 10 t) [ none ↦ err Exn.value_error | some n ↦ ok n ]

abbrev number : Text → Reads ℕ
number key s = let (v, s') = get key s in (as_int v, s')

when_true : {A : Type 0} → Bool → Reads A → Reads (Option A)
when_true true m = m >>= λ a. pure (some a)
when_true false m = pure none

-- `int(supply[key])` if the key is there.
opt_number : Text → Reads (Option ℕ)
unfolding when_true
opt_number key = do there ← has key; when_true there (number key)

-- The first of some values that is there: the voltage, in units of a millionth.
first_number : List Text → Reads (Option ℕ)
unfolding opt_number
first_number [] = pure none
first_number (key ∷ keys) = do
  n ← opt_number key
  elim n [ none ↦ first_number keys | some v ↦ pure (some v) ]

-- A value in units of energy: the one under `key`, or else the one under `alt` times the voltage.
scaled : Option ℕ → ℕ → Option ℕ
scaled none n = none
scaled (some voltage) n = some (n * voltage / 1_000_000)

by_voltage : Option ℕ → Text → Reads (Option ℕ)
unfolding opt_number scaled
by_voltage none alt = pure none
by_voltage (some voltage) alt = do
  n ← opt_number alt
  pure (elim n [ none ↦ none | some m ↦ scaled (some voltage) m ])

number_or : Text → Option ℕ → Text → Reads (Option ℕ)
unfolding opt_number by_voltage
number_or key voltage alt = do
  n ← opt_number key
  elim n [ none ↦ by_voltage voltage alt | some m ↦ pure (some m) ]

status_of : Text → BatteryStatus
status_of text =
    if text_eq text (codes "full")
    then BatteryStatus.full
    else if text_eq text (codes "charging")
    then BatteryStatus.charging
    else if text_eq text (codes "discharging")
    then BatteryStatus.discharging
    else BatteryStatus.unknown

-- The capacity in percent; none where the supply tells too little.
percent_of : Option ℕ → Option ℕ → Reads (Option Quotient)
unfolding opt_number
percent_of (some now) (some capacity) =
    if capacity == 0
    then raise Exn.zero_division_error
    else pure (some (record { num = pos (now * 100); den = capacity }))
percent_of _ _ = do
  n ← opt_number (codes "capacity")
  pure (elim n [ none ↦ none | some c ↦ some (record { num = pos c; den = 1 }) ])

-- A battery or a mains supply.
pub data SupplyInfo : Type 0 where
  battery : BatteryInfo → SupplyInfo
  mains : AcPowerInfo → SupplyInfo

tenth : Option ℕ → Option Quotient
tenth none = none
tenth (some t) = some (record { num = pos t; den = 10 })

battery_info :
    Text
    → BatteryStatus
    → Option Quotient
    → Option ℕ
    → Option ℕ
    → Option ℕ
    → Option Quotient
    → Option SupplyInfo
battery_info name status temperature power energy capacity none = none
battery_info name status temperature power energy capacity (some percent) = some (
    SupplyInfo.battery (record {
      name = name;
      status = status;
      percent = percent;
      energy_full = capacity;
      energy_now = energy;
      power_now = power;
      temperature = temperature;
      power_plugged_field = none;
      secsleft_field = none;
    }))

-- One round for a supply of type "battery".
read_battery : Text → Reads (Option SupplyInfo)
unfolding status_of first_number number_or percent_of battery_info tenth
read_battery name = do
  status ← value_or (codes "status") (codes "unknown")
  voltage ← first_number (
      codes "voltage_min_design"
      ∷ codes "voltage_min"
      ∷ codes "voltage_now"
      ∷ codes "voltage_boot"
      ∷ [])
  temperature ← opt_number (codes "temp")
  power_now ← number_or (codes "power_now") voltage (codes "current_now")
  energy_now ← number_or (codes "energy_now") voltage (codes "charge_now")
  energy_full ← number_or (codes "energy_full") voltage (codes "charge_full")
  percent ← percent_of energy_now energy_full
  pure (
      battery_info name (status_of (lower status)) (tenth temperature) power_now energy_now
        energy_full percent)

read_mains : Text → Reads (Option SupplyInfo)
unfolding opt_number
read_mains name = do
  online ← opt_number (codes "online")
  pure (elim online [
    | none ↦ none
    | some n ↦ some (SupplyInfo.mains (record { name = name; is_online = not (n == 0) }))
  ])

-- One round of `_iter_sensors_power`: nothing, or one item.
unfoldable pub read_supply : Supply → Result (Option SupplyInfo)
unfolding read_battery read_mains
read_supply s = (read_type s).0
  where
    by_type : Text → Reads (Option SupplyInfo)
    by_type type =
        if text_eq type (codes "battery")
        then read_battery s.name
        else if text_eq type (codes "mains")
        then read_mains s.name
        else pure none

    read_type : Reads (Option SupplyInfo)
    read_type = do type ← value_or (codes "type") []; by_type (lower type)

-- `_iter_sensors_power`: the items yielded, and the exception that ends it.
abbrev item : Option SupplyInfo → List SupplyInfo → List SupplyInfo
item none rest = rest
item (some i) rest = i ∷ rest

unfoldable pub iter_sensors_power : List Supply → List SupplyInfo × Option Exn
unfolding read_supply
iter_sensors_power [] = ([], none)
iter_sensors_power (s ∷ supplies) = elim (read_supply s) [
  | err e ↦ ([], some e)
  | ok i ↦ let (items, ended) = iter_sensors_power supplies in (item i items, ended)
]

abbrev pub empty_info : PowerSupplySensorInfo
empty_info = record { batteries = []; ac_supplies = [] }

-- The loop of `sensors_power`.
sort_items : List SupplyInfo → PowerSupplySensorInfo → PowerSupplySensorInfo
sort_items [] info = info
sort_items (SupplyInfo.battery b ∷ items) info =
    sort_items items (record info { batteries = info.batteries ++ (b ∷ []) })
sort_items (SupplyInfo.mains m ∷ items) info =
    sort_items items (record info { ac_supplies = info.ac_supplies ++ (m ∷ []) })

or_raise : {A : Type 0} → A → Option Exn → Result A
or_raise a none = ok a
or_raise a (some e) = err e

-- `sensors_power`, on what `_iter_sensors_power` yields.
unfoldable pub sensors_power : List SupplyInfo × Option Exn → Result PowerSupplySensorInfo
unfolding sort_items or_raise
sensors_power (items, ended) = or_raise (sort_items items empty_info) ended

-- The loop of `sensors_is_on_ac_power`, which returns at the first supply that is online.
ac_loop : List SupplyInfo → Option Exn → PowerSupplySensorInfo → Result (Option Bool)
unfolding or_raise
ac_loop [] ended info = or_raise (is_on_ac_power info) ended
ac_loop (SupplyInfo.battery b ∷ items) ended info =
    ac_loop items ended (record info { batteries = info.batteries ++ (b ∷ []) })
ac_loop (SupplyInfo.mains m ∷ items) ended info =
    let rest = ac_loop items ended (record info { ac_supplies = info.ac_supplies ++ (m ∷ []) }) in
    if m.is_online then ok (some true) else rest

-- `sensors_is_on_ac_power`
unfoldable pub sensors_is_on_ac_power : List SupplyInfo × Option Exn → Result (Option Bool)
unfolding ac_loop
sensors_is_on_ac_power (items, ended) = ac_loop items ended empty_info
