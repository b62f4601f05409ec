-- ===== src/Linux/Temperatures/Scan.antt =====
-- What the scan for temperatures leaves out.
use pypsutil.Prelude.{◌≡◌, refl, inl, inr, none, some, List, [], ◌∷◌, ◌++◌}
use pypsutil.Prelude.Exn.{Exn, ok, err, Result-cases}
use pypsutil.Prelude.Text.{Text, text_eq_iff}
use pypsutil.Linux.Temperatures.{
  Hwmon, TempSensorInfo, Temperatures, read_hwmon, scan, caught, sensors_temperatures,
}

scan-missing :
    (before after : List Hwmon) (bad : Hwmon) (results : Temperatures)
    → read_hwmon bad ≡ err Exn.file_not_found_error
    → caught (scan (before ++ bad ∷ after) results) ≡ caught (scan before results)
unfolding scan
scan-missing [] after bad results e = rw (e, scan) refl
scan-missing (h ∷ before) after bad results e = elim (Result-cases (read_hwmon h)) [
  | inr (ex, raised) ↦ rw (raised, scan) refl
  | inl (none, nothing) ↦ rw (nothing, scan) (scan-missing before after bad results e)
  | inl (some (name, infos), read) ↦ rw (read, scan) (scan-missing before after bad _ e)
]

-- A file that is missing in one directory, where its absence is not provided for, ends the whole scan
-- without an exception: what stands behind that directory is left out.
pub sensors_temperatures-missing :
    (before after : List Hwmon) (bad : Hwmon)
    → read_hwmon bad ≡ err Exn.file_not_found_error
    → sensors_temperatures (ok (before ++ bad ∷ after)) ≡ sensors_temperatures (ok before)
unfolding sensors_temperatures
sensors_temperatures-missing before after bad e = scan-missing before after bad [] e

-- Of two directories with the same name only the second one's sensors are returned.
pub sensors_temperatures-same_name :
    (a b : Hwmon) (name : Text) (first second : List TempSensorInfo)
    → read_hwmon a ≡ ok (some (name, first))
    → read_hwmon b ≡ ok (some (name, second))
    → sensors_temperatures (ok (a ∷ b ∷ [])) ≡ ok ((name, second) ∷ [])
unfolding sensors_temperatures
sensors_temperatures-same_name a b name first second ea eb =
    rw (ea, scan) (rw (eb, scan) (rw ((text_eq_iff name name).1 refl)))
