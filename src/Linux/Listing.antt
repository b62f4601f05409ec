-- ===== src/Linux/Listing.antt =====
-- `iter_pid_raw_create_time` of pypsutil/_pslinux.py. What reading `/proc/<pid>/stat` gives is an
-- argument: for each numeric name in the procfs directory the parent's PID and the start time.
use pypsutil.Prelude.{
  ℕ, Bool, true, false, Option, none, some, List, [], ◌∷◌, if◌then◌else◌, contains,
}
use pypsutil.Prelude.Int.{pos}
use pypsutil.Prelude.Exn.{Exn, Result, ok, err}
use pypsutil.Prelude.Dict.{Dict}

-- Fields 3 and 21 of the line.
pub record StatFields : Type 0 where
  pub ppid : ℕ
  pub ctime : ℕ

abbrev pub Scan : Type 0
Scan = List (ℕ × Result StatFields)

-- `ppids is not None and int(stat_fields[3]) not in ppids`
abbrev pub is_filtered : Option (List ℕ) → ℕ → Bool
is_filtered none ppid = false
is_filtered (some ppids) ppid = if contains ppid ppids then false else true

abbrev pub cons_pid : ℕ → ℕ → Dict ℕ ℕ × Option Exn → Dict ℕ ℕ × Option Exn
cons_pid pid time (listing, ended) = ((pid, time) ∷ listing, ended)

-- What the generator yields, and the exception that ends it.
unfoldable pub iter_pid_raw_create_time : Option (List ℕ) → Bool → Scan → Dict ℕ ℕ × Option Exn
iter_pid_raw_create_time ppids skip [] = ([], none)
iter_pid_raw_create_time ppids skip ((pid, ok fields) ∷ scan) =
    let rest = iter_pid_raw_create_time ppids skip scan in
    if is_filtered ppids fields.ppid then rest else cons_pid pid fields.ctime rest
iter_pid_raw_create_time ppids skip ((pid, err Exn.process_lookup_error) ∷ scan) =
    iter_pid_raw_create_time ppids skip scan
iter_pid_raw_create_time ppids skip ((pid, err Exn.permission_error) ∷ scan) =
    let rest = iter_pid_raw_create_time ppids skip scan in
    if skip then rest else ([], some (Exn.access_denied (pos pid)))
iter_pid_raw_create_time ppids skip ((pid, err e) ∷ scan) = ([], some e)
