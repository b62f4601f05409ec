-- ===== src/Linux/Temperatures.antt =====
-- `sensors_temperatures` of pypsutil/_pslinux.py. What the directories under class/hwmon hold is an
-- argument. A temperature is in thousandths of a degree: the code divides it by 1000.
pub mod Scan
use pypsutil.Prelude.{
  ℕ, ◌+◌, Bool, true, false, ◌&&◌, Option, none, some, List, [], ◌∷◌, ◌++◌, ◌==◌, if◌then◌else◌,
  any, drop, is_empty, leb,
}
use pypsutil.Prelude.Int.{ℤ, pos, neg_ℕ}
use pypsutil.Prelude.Exn.{Exn, Result, ok, err, ◌>>=◌}
use pypsutil.Prelude.Text.{
  Text, codes, is_space, strip, parse_int, text_eq, text_keys, starts_with, ends_with, cut_at,
}
use pypsutil.Prelude.Dict.{Dict, insert}
use pypsutil.Linux.Stat.{or_value_error}

-- One directory: the names in it, and for a name the first line of that file.
pub record Hwmon : Type 0 where
  pub names : Result (List Text)
  pub first_line : Text → Result Text

pub record TempSensorInfo : Type 0 where
  pub label : Text
  pub current : ℤ
  pub high : Option ℤ
  pub critical : Option ℤ

-- `int(text)` for a number that may be negative.
abbrev after_minus : Text → Option ℤ
after_minus [] = none
after_minus (c ∷ s) =
    if is_space c
    then none
    else elim (parse_int 10 (c ∷ s)) [ none ↦ none | some n ↦ some (neg_ℕ n) ]

abbrev signed : Text → Option ℤ
signed [] = none
signed (c ∷ s) =
    if c == 45
    then after_minus s
    else elim (parse_int 10 (c ∷ s)) [ none ↦ none | some n ↦ some (pos n) ]

abbrev read_int : Result Text → Result ℤ
read_int file = do line ← file; or_value_error (signed (strip line))

-- `except FileNotFoundError: … = default`
abbrev unless_missing : {A : Type 0} → A → Result A → Result A
unless_missing default (ok a) = ok a
unless_missing default (err Exn.file_not_found_error) = ok default
unless_missing default (err ex) = err ex

abbrev just : {A : Type 0} → Result A → Result (Option A)
just r = do a ← r; ok (some a)

-- `name.split("_")[0]`
abbrev front : Text → Text
front name = elim (cut_at 95 name) [ none ↦ name | some (a, _) ↦ a ]

abbrev is_input : Text → Bool
is_input name = starts_with name (codes "temp") && ends_with name (codes "_input")

-- The set of sensors, every one once.
abbrev sensor_names : List Text → List Text
sensor_names [] = []
sensor_names (name ∷ names) =
    let rest = sensor_names names in
    if is_input name
    then (if any (text_eq (front name)) rest then rest else front name ∷ rest)
    else rest

-- `sorted(names, key=lambda name: int(name[4:]))`
abbrev insert_by : ℕ → Text → List (ℕ × Text) → List (ℕ × Text)
insert_by n name [] = (n, name) ∷ []
insert_by n name ((m, other) ∷ l) =
    let rest = insert_by n name l in
    if leb n m then (n, name) ∷ (m, other) ∷ l else (m, other) ∷ rest

sorted_names : List Text → Result (List (ℕ × Text))
sorted_names [] = ok []
sorted_names (name ∷ names) = do
  n ← or_value_error (parse_int 10 (drop 4 name))
  rest ← sorted_names names
  ok (insert_by n name rest)

-- One sensor.
read_sensor : Hwmon → Text → Result TempSensorInfo
read_sensor h name = do
  label ← unless_missing [] (h.first_line (name ++ codes "_label"))
  current ← read_int (h.first_line (name ++ codes "_input"))
  critical ← unless_missing none (just (read_int (h.first_line (name ++ codes "_crit"))))
  high ← unless_missing critical (just (read_int (h.first_line (name ++ codes "_max"))))
  ok (record { label = strip label; current = current; high = high; critical = critical })

read_sensors : Hwmon → List (ℕ × Text) → Result (List TempSensorInfo)
unfolding read_sensor
read_sensors h [] = ok []
read_sensors h ((_, name) ∷ names) = do
  info ← read_sensor h name
  infos ← read_sensors h names
  ok (info ∷ infos)

-- One round of the loop: nothing for a directory without sensors.
unfoldable pub read_hwmon : Hwmon → Result (Option (Text × List TempSensorInfo))
unfolding sorted_names read_sensors
read_hwmon h = do
  name ← h.first_line (codes "name")
  names ← h.names
  if is_empty (sensor_names names) then ok none else (do
    sorted ← sorted_names (sensor_names names)
    infos ← read_sensors h sorted
    ok (some (name, infos)))

abbrev pub Temperatures : Type 0
Temperatures = Dict Text (List TempSensorInfo)

-- `results`, and the exception that ends the loop.
unfoldable pub scan : List Hwmon → Temperatures → Temperatures × Option Exn
scan [] results = (results, none)
scan (h ∷ hs) results = elim (read_hwmon h) [
  | err ex ↦ (results, some ex)
  | ok none ↦ scan hs results
  | ok (some (name, infos)) ↦ scan hs (insert name infos results)
]

-- The `except FileNotFoundError: pass` around it all.
abbrev pub caught : Temperatures × Option Exn → Result Temperatures
caught (results, none) = ok results
caught (results, some Exn.file_not_found_error) = ok results
caught (results, some ex) = err ex

unfoldable pub sensors_temperatures : Result (List Hwmon) → Result Temperatures
unfolding scan
sensors_temperatures (ok hs) = caught (scan hs [])
sensors_temperatures (err Exn.file_not_found_error) = ok []
sensors_temperatures (err ex) = err ex
