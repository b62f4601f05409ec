-- ===== src/Linux/Stat.antt =====
-- `_parse_procfs_stat_fields` of pypsutil/_pslinux.py and the functions that read one field of
-- `/proc/<pid>/stat`. What opening the file and reading its first line gives is an argument.
pub mod RoundTrip
use pypsutil.Prelude.{
  ℕ, zero, suc, ◌+◌, ◌-◌, true, false, Option, none, some, List, [], ◌∷◌, ◌++◌, ◌==◌, if◌then◌else◌,
  take, drop, get_elem?,
}
use pypsutil.Prelude.Exn.{Exn, Result, ok, err, ◌>>=◌, missing_as_lookup}
use pypsutil.Prelude.Text.{Text, codes, split, strip, parse_int, text_eq}

-- `line.index(c)` and `line.rindex(c)`; none where they raise ValueError.
unfoldable pub index : ℕ → Text → Option ℕ
index c [] = none
index c (d ∷ s) = elim (d == c) [
  | true ↦ some 0
  | false ↦ elim (index c s) [ none ↦ none | some i ↦ some (suc i) ]
]

unfoldable pub rindex : ℕ → Text → Option ℕ
rindex c [] = none
rindex c (d ∷ s) = elim (rindex c s) [
  | some i ↦ some (suc i)
  | none ↦ if d == c then some 0 else none
]

abbrev pub or_value_error : {A : Type 0} → Option A → Result A
or_value_error none = err Exn.value_error
or_value_error (some a) = ok a

-- `line[i:j]`
abbrev pub slice : ℕ → ℕ → Text → Text
slice i j line = take (j - i) (drop i line)

-- 40 and 41 are the parentheses.
unfoldable pub parse_procfs_stat_fields : Text → Result (List Text)
unfolding index rindex
parse_procfs_stat_fields line = do
  lparen ← or_value_error (index 40 line)
  rparen ← or_value_error (rindex 41 line)
  ok (split (take lparen line) ++ (slice (lparen + 1) rparen line ∷ split (drop (rparen + 1) line)))

-- `_get_pid_stat_fields`
unfoldable pub get_pid_stat_fields : Result Text → Result (List Text)
unfolding parse_procfs_stat_fields
get_pid_stat_fields first_line = do
  line ← missing_as_lookup first_line
  parse_procfs_stat_fields (strip line)

-- `fields[i]` and `int(fields[i])`
abbrev pub field : ℕ → List Text → Result Text
field i fields = elim (get_elem? fields i) [ none ↦ err Exn.index_error | some text ↦ ok text ]

abbrev pub int_field : ℕ → List Text → Result ℕ
int_field i fields = do text ← field i fields; or_value_error (parse_int 10 text)

-- The members of `ProcessStatus`.
pub data ProcessStatus : Type 0 where
  running sleeping disk_sleep zombie stopped tracing_stop dead wake_kill waking parked idle :
      ProcessStatus

-- `_PROC_STATUSES[letter]`
proc_statuses : Text → Result ProcessStatus
proc_statuses letter =
    if text_eq letter (codes "R")
    then ok ProcessStatus.running
    else if text_eq letter (codes "S")
    then ok ProcessStatus.sleeping
    else if text_eq letter (codes "D")
    then ok ProcessStatus.disk_sleep
    else if text_eq letter (codes "Z")
    then ok ProcessStatus.zombie
    else if text_eq letter (codes "T")
    then ok ProcessStatus.stopped
    else if text_eq letter (codes "t")
    then ok ProcessStatus.tracing_stop
    else if text_eq letter (codes "X")
    then ok ProcessStatus.dead
    else if text_eq letter (codes "x")
    then ok ProcessStatus.dead
    else if text_eq letter (codes "K")
    then ok ProcessStatus.wake_kill
    else if text_eq letter (codes "W")
    then ok ProcessStatus.waking
    else if text_eq letter (codes "P")
    then ok ProcessStatus.parked
    else if text_eq letter (codes "I")
    then ok ProcessStatus.idle
    else err Exn.key_error

-- `proc_status`, on the fields of the line.
unfoldable pub proc_status : List Text → Result ProcessStatus
unfolding proc_statuses
proc_status fields = do letter ← field 2 fields; proc_statuses letter

-- `proc_name` while the cache of `oneshot` is on.
abbrev pub proc_name : List Text → Result Text
proc_name = field 1

abbrev pub proc_ppid : List Text → Result ℕ
proc_ppid = int_field 3

-- In clock ticks.
abbrev pub extract_create_time : List Text → Result ℕ
extract_create_time = int_field 21

unfoldable pub proc_tty_rdev : List Text → Result (Option ℕ)
proc_tty_rdev fields = do rdev ← int_field 6 fields; ok (if rdev == 0 then none else some rdev)

-- While the cache of `oneshot` is on.
abbrev pub proc_num_threads : List Text → Result ℕ
proc_num_threads = int_field 19

abbrev pub proc_cpu_num : List Text → Result ℕ
proc_cpu_num = int_field 38

-- In clock ticks: the code divides every time by their number in a second.
pub record CpuTimes : Type 0 where
  pub user : ℕ
  pub system : ℕ
  pub children_user : ℕ
  pub children_system : ℕ

unfoldable pub proc_cpu_times : List Text → Result CpuTimes
proc_cpu_times fields = do
  user ← int_field 13 fields
  system ← int_field 14 fields
  children_user ← int_field 15 fields
  children_system ← int_field 16 fields
  ok (record {
    user = user;
    system = system;
    children_user = children_user;
    children_system = children_system;
  })
