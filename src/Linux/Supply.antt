-- ===== src/Linux/Supply.antt =====
-- `PowerSupplyInfo` of pypsutil/_pslinux.py: a supply's values, from its "uevent" file or read one
-- by one and remembered.
pub mod View
use pypsutil.Prelude.{
  ℕ, Bool, true, false, Option, none, some, List, [], ◌∷◌, ◌==◌, if◌then◌else◌, contains, drop,
}
use pypsutil.Prelude.Text.{Text, codes, cut_at, starts_with, strip, lower, text_keys}
use pypsutil.Prelude.Dict
use pypsutil.Prelude.Dict.{Dict, lookup, insert}
use pypsutil.Prelude.Exn.{Exn, Result, ok, err}

-- `files` is the first line of the file with a name in the supply's directory, or none where
-- reading it raises an OSError. A remembered failure (`_empty`) is `some none` in `data`.
pub record Supply : Type 0 where
  pub name : Text
  pub data_values : Dict Text (Option Text)
  pub files : Text → Option Text

-- `line.strip().split("=")` unpacked into two.
abbrev key_value : Text → Result (Text × Text)
key_value line = elim (cut_at 61 (strip line)) [
  | none ↦ err Exn.value_error
  | some (key, value) ↦ if contains 61 value then err Exn.value_error else ok (key, value)
]

abbrev keep_value : Text → Text → Dict Text (Option Text) → Dict Text (Option Text)
keep_value key value values =
    if starts_with key (codes "POWER_SUPPLY_")
    then insert (lower (drop 13 key)) (some value) values
    else values

-- The loop over the lines of "uevent".
read_uevent : List Text → Dict Text (Option Text) → Result (Dict Text (Option Text))
read_uevent [] values = ok values
read_uevent (line ∷ lines) values = elim (key_value line) [
  | err e ↦ err e
  | ok (key, value) ↦ read_uevent lines (keep_value key value values)
]

-- `PowerSupplyInfo(name, path)`; `uevent` is none where opening it raises an OSError.
unfoldable pub init : Text → Option (List Text) → (Text → Option Text) → Result Supply
unfolding read_uevent
init name none files =
    ok (record { name = name; data_values = (codes "name", some name) ∷ []; files = files })
init name (some lines) files = elim (read_uevent lines ((codes "name", some name) ∷ [])) [
  | err e ↦ err e
  | ok values ↦ ok (record { name = name; data_values = values; files = files })
]

-- `get(key, default)`, with none for the default.
unfoldable pub get : Text → Supply → Option Text × Supply
get key s = if contains 47 key then (none, s) else found (lookup key s.data_values)
  where
    found : Option (Option Text) → Option Text × Supply
    found (some value) = (value, s)
    found none = (s.files key, record s { data_values = insert key (s.files key) s.data_values })
