-- ===== src/Tests/Readers.antt =====
-- The theorems on memory, temperatures and /proc/net/dev at concrete inputs.
use pypsutil.Prelude.{
  ℕ, ◌+◌, ◌≡◌, refl, true, false, Option, none, some, List, [], ◌∷◌, ◌++◌, arith, if◌then◌else◌,
}
use pypsutil.Prelude.Int.{pos}
use pypsutil.Prelude.Exn.{Exn, ok, err}
use pypsutil.Prelude.Text.{Text, codes, text_eq}
use pypsutil.Linux.Status.{Entries}
use pypsutil.Linux.Maps.{
  SizeName, ProcessMemoryMap, ProcessMemoryMapGrouped, memory_maps_grouped, same_name,
}
use pypsutil.Linux.Memory.{ProcessMemoryFullInfo, proc_memory_full_info}
use pypsutil.Linux.Memory.Sums.{group_total, proc_memory_full_info-group_total}
use pypsutil.Linux.Temperatures.{Hwmon, TempSensorInfo, sensors_temperatures}
use pypsutil.Linux.Temperatures.Scan.{sensors_temperatures-missing, sensors_temperatures-same_name}
use pypsutil.Linux.NetDev.Padded.{padded}
use pypsutil.Linux.NetDev.{dev_row}
use pypsutil.Linux.NetDev.Row.{dev_row-line}

abbrev lib_map : ProcessMemoryMap
lib_map = record {
  path = codes "lib";
  addr_start = 0;
  addr_end = 1;
  perms = codes "r";
  offset = 0;
  dev = 1;
  ino = 5;
  sizes = λ name. if same_name name SizeName.pss then 7 else 2;
}

abbrev status : Entries
status = (
  (codes "VmRSS", codes " 3 kB") ∷ (codes "VmLib", codes "4") ∷ (codes "Name", codes "x") ∷ [],
  none,
)

abbrev full : ProcessMemoryFullInfo
full = record {
  rss = 3072;
  vms = 0;
  shared = 0;
  text = 0;
  data_size = 0;
  lib = 4;
  dirty = 8;
  uss = 8;
  pss = 14;
  swap = 0;
}

full_read : proc_memory_full_info status (ok (lib_map ∷ lib_map ∷ [])) ≡ ok full
unfolding proc_memory_full_info pypsutil.Prelude.Text.ends_with pypsutil.Prelude.Text.strip
    pypsutil.Prelude.Text.parse_int
full_read = refl

proc_memory_full_info-group_total_example :
    (groups : List ProcessMemoryMapGrouped) × (memory_maps_grouped (lib_map ∷ lib_map ∷ [])
      ≡ ok groups)
    × (14 ≡ group_total SizeName.pss groups)
    × (8 ≡ group_total SizeName.private_clean groups + group_total SizeName.private_dirty groups)
    × (8 ≡ group_total SizeName.private_dirty groups + group_total SizeName.shared_dirty groups)
proc_memory_full_info-group_total_example =
    proc_memory_full_info-group_total status (lib_map ∷ lib_map ∷ []) {info = full} full_read

-- A directory with one sensor, which has no label and no limits.
abbrev with_sensor : Text → Hwmon
with_sensor millis = record {
  names = ok (codes "name" ∷ codes "temp1_input" ∷ []);
  first_line = λ file.
      if text_eq file (codes "name")
      then ok (codes "nvme")
      else if text_eq file (codes "temp1_input")
      then ok millis
      else err Exn.file_not_found_error;
}

-- A directory without a name.
abbrev nameless : Hwmon
nameless = record { names = ok []; first_line = λ file. err Exn.file_not_found_error }

abbrev at : ℕ → TempSensorInfo
at n = record { label = []; current = pos n; high = none; critical = none }

sensors_temperatures-missing_example :
    sensors_temperatures (ok (nameless ∷ with_sensor (codes "300") ∷ []))
    ≡ sensors_temperatures (ok [])
unfolding pypsutil.Linux.Temperatures.read_hwmon
sensors_temperatures-missing_example =
    sensors_temperatures-missing [] (with_sensor (codes "300") ∷ []) nameless refl

sensors_temperatures-same_name_example :
    sensors_temperatures (ok (with_sensor (codes "300") ∷ with_sensor (codes "400") ∷ []))
    ≡ ok ((codes "nvme", at 400 ∷ []) ∷ [])
unfolding pypsutil.Linux.Temperatures.read_hwmon pypsutil.Prelude.Text.starts_with
    pypsutil.Prelude.Text.ends_with pypsutil.Prelude.Text.parse_int pypsutil.Prelude.Text.cut_at
sensors_temperatures-same_name_example =
    sensors_temperatures-same_name (with_sensor (codes "300")) (with_sensor (codes "400"))
      (codes "nvme") (at 300 ∷ []) (at 400 ∷ []) refl refl

-- Gaps of four spaces and of one.
abbrev far : Text
far = 32 ∷ 32 ∷ 32 ∷ 32 ∷ []

abbrev near : Text
near = 32 ∷ []

abbrev columns : List (Text × Text)
columns =
    (far, codes "1")
    ∷ (near, codes "2")
    ∷ (far, codes "3")
    ∷ (near, codes "4")
    ∷ (far, codes "5")
    ∷ (near, codes "6")
    ∷ (far, codes "7")
    ∷ (near, codes "8")
    ∷ (far, codes "11")
    ∷ (near, codes "12")
    ∷ (far, codes "13")
    ∷ (near, codes "14")
    ∷ (far, codes "15")
    ∷ (near, codes "16")
    ∷ (far, codes "17")
    ∷ (near, codes "18")
    ∷ []

dev_row-line_example :
    dev_row (far ++ ((codes "lo" ++ 58 ∷ []) ++ padded columns (10 ∷ [])))
    ≡ ok (
      codes "lo",
      record {
        bytes_sent = 11;
        bytes_recv = 1;
        packets_sent = 12;
        packets_recv = 2;
        errin = 3;
        errout = 13;
        dropin = 4;
        dropout = 14;
      },
    )
unfolding pypsutil.Prelude.Text.parse_int
dev_row-line_example =
    dev_row-line far (codes "lo") (10 ∷ []) columns 1 2 3 4 5 6 7 8 11 12 13 14 15 16 17 18
      (refl, (refl, (refl, (refl, tt)))) (omega arith, (omega arith, tt))
      (refl, (refl, (refl, (refl, tt))))
      (
        ((refl, (refl, (refl, (refl, (refl, tt))))), (refl, (refl, tt))),
        (
          ((refl, (refl, tt)), (refl, (refl, tt))),
          (
            ((refl, (refl, (refl, (refl, (refl, tt))))), (refl, (refl, tt))),
            (
              ((refl, (refl, tt)), (refl, (refl, tt))),
              (
                ((refl, (refl, (refl, (refl, (refl, tt))))), (refl, (refl, tt))),
                (
                  ((refl, (refl, tt)), (refl, (refl, tt))),
                  (
                    ((refl, (refl, (refl, (refl, (refl, tt))))), (refl, (refl, tt))),
                    (
                      ((refl, (refl, tt)), (refl, (refl, tt))),
                      (
                        ((refl, (refl, (refl, (refl, (refl, tt))))), (refl, (refl, (refl, tt)))),
                        (
                          ((refl, (refl, tt)), (refl, (refl, (refl, tt)))),
                          (
                            (
                              (refl, (refl, (refl, (refl, (refl, tt))))),
                              (refl, (refl, (refl, tt))),
                            ),
                            (
                              ((refl, (refl, tt)), (refl, (refl, (refl, tt)))),
                              (
                                (
                                  (refl, (refl, (refl, (refl, (refl, tt))))),
                                  (refl, (refl, (refl, tt))),
                                ),
                                (
                                  ((refl, (refl, tt)), (refl, (refl, (refl, tt)))),
                                  (
                                    (
                                      (refl, (refl, (refl, (refl, (refl, tt))))),
                                      (refl, (refl, (refl, tt))),
                                    ),
                                    (((refl, (refl, tt)), (refl, (refl, (refl, tt)))), tt),
                                  ),
                                ),
                              ),
                            ),
                          ),
                        ),
                      ),
                    ),
                  ),
                ),
              ),
            ),
          ),
        ),
      )
      (refl, tt)
      (
        refl,
        (
          refl,
          (
            refl,
            (
              refl,
              (
                refl,
                (
                  refl,
                  (
                    refl,
                    (refl, (refl, (refl, (refl, (refl, (refl, (refl, (refl, (refl, tt))))))))),
                  ),
                ),
              ),
            ),
          ),
        ),
      )
