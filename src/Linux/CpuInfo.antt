-- ===== src/Linux/CpuInfo.antt =====
-- `/proc/cpuinfo` and `/proc/stat` in pypsutil/_pslinux.py: `physical_cpu_count`, `cpu_stats`,
-- `cpu_times`, `percpu_times`. The lines of the files are arguments, or the exception of opening them;
-- times are kept in clock ticks.
pub mod Count
use pypsutil.Prelude.{
  ℕ, zero, suc, ◌+◌, Bool, true, false, Option, none, some, List, [], ◌∷◌, ◌==◌, ◌&&◌, ltb, drop,
  take, length, is_empty, map, if◌then◌else◌, any,
}
use pypsutil.Prelude.Dict.{Dict, lookup, insert}
use pypsutil.Prelude.Exn.{Exn, Result, ok, err, ◌>>=◌}
use pypsutil.Prelude.Text.{
  Text, codes, starts_with, strip, split, cut_at, parse_int, text_eq, text_keys,
}
use pypsutil.Linux.Stat.{or_value_error}

-- `_iter_procfs_cpuinfo_entries`
unfoldable pub cpuinfo_entry : Text → Text × Text
cpuinfo_entry line = elim (cut_at 58 line) [
  | none ↦ ([], [])
  | some (name, value) ↦ (strip name, strip value)
]

abbrev pub CpuEntry : Type 0
CpuEntry = Dict Text Text

-- `cpu_infos`, from the entries and `cur_info`.
unfoldable pub cpu_infos : List (Text × Text) → CpuEntry → List CpuEntry
cpu_infos [] cur = if is_empty cur then [] else cur ∷ []
cpu_infos ((name, value) ∷ entries) cur =
    let started = cpu_infos entries [] in
    let further = cpu_infos entries (insert name value cur) in
    if is_empty name then (if is_empty cur then started else cur ∷ started) else further

-- `(info["physical id"], info["core id"])`
abbrev pub core_of : CpuEntry → Result (Text × Text)
core_of info = elim (lookup (codes "physical id") info) [
  | none ↦ err Exn.key_error
  | some a ↦ elim (lookup (codes "core id") info) [ none ↦ err Exn.key_error | some b ↦ ok (a, b) ]
]

abbrev pub same_core : Text × Text → Text × Text → Bool
same_core (a, b) (c, d) = text_eq a c && text_eq b d

-- The set of these pairs.
unfoldable pub cores : List CpuEntry → Result (List (Text × Text))
cores [] = ok []
cores (info ∷ infos) =
    core_of info >>= λ c. cores infos >>= λ cs. ok (if any (same_core c) cs then cs else c ∷ cs)

-- `len(...) or None`
abbrev pub count_of : List (Text × Text) → Option ℕ
count_of [] = none
count_of (c ∷ cs) = some (length (c ∷ cs))

abbrev pub no_count : Result (Option ℕ) → Result (Option ℕ)
no_count (err Exn.file_not_found_error) = ok none
no_count (err Exn.key_error) = ok none
no_count r = r

unfoldable pub physical_cpu_count : Result (List Text) → Result (Option ℕ)
physical_cpu_count file =
    no_count
      (file >>= λ lines. cores (cpu_infos (map cpuinfo_entry lines) []) >>= λ cs. ok (count_of cs))

-- `_iter_procfs_stat_entries`
abbrev stat_entries : List Text → List (List Text)
stat_entries lines = map split lines

-- `entry[0]` and `int(entry[1])`
abbrev first_of : List Text → Result Text
first_of [] = err Exn.index_error
first_of (name ∷ _) = ok name

abbrev second_of : List Text → Result ℕ
second_of (_ ∷ value ∷ _) = or_value_error (parse_int 10 value)
second_of _ = err Exn.index_error

-- `ctx_switches`, `interrupts` and `soft_interrupts`.
pub record CpuStats : Type 0 where
  pub ctx_switches : ℕ
  pub interrupts : ℕ
  pub soft_interrupts : ℕ

abbrev stats_entry : List Text → CpuStats → Result CpuStats
stats_entry entry s = first_of entry >>= λ name.
    if text_eq name (codes "ctxt")
    then (second_of entry >>= λ n. ok (record s { ctx_switches = n }))
    else if text_eq name (codes "intr")
    then (second_of entry >>= λ n. ok (record s { interrupts = n }))
    else if text_eq name (codes "softirq")
    then (second_of entry >>= λ n. ok (record s { soft_interrupts = n }))
    else ok s

abbrev stats_loop : List (List Text) → CpuStats → Result CpuStats
stats_loop [] s = ok s
stats_loop (entry ∷ entries) s = stats_entry entry s >>= stats_loop entries

cpu_stats : List Text → Result CpuStats
cpu_stats lines =
    stats_loop (stat_entries lines)
      (record { ctx_switches = 0; interrupts = 0; soft_interrupts = 0 })

-- `CPUTimes(*(int(item) / CLK_TCK for item in entry[1:11]))` in ticks: it wants ten.
abbrev ints_of : List Text → Result (List ℕ)
ints_of [] = ok []
ints_of (item ∷ items) = do n ← or_value_error (parse_int 10 item); ns ← ints_of items; ok (n ∷ ns)

abbrev ticks_of : List Text → Result (List ℕ)
ticks_of entry =
    ints_of (take 10 (drop 1 entry)) >>= λ ns. if length ns == 10 then ok ns else err Exn.type_error

abbrev times_loop : List (List Text) → Result (List ℕ)
times_loop [] = err Exn.runtime_error
times_loop (entry ∷ entries) = first_of entry >>= λ name.
    if text_eq name (codes "cpu") then ticks_of entry else times_loop entries

cpu_times : List Text → Result (List ℕ)
cpu_times lines = times_loop (stat_entries lines)

abbrev percpu_loop : List (List Text) → Result (List (List ℕ))
percpu_loop [] = ok []
percpu_loop (entry ∷ entries) = first_of entry >>= λ name.
    if starts_with name (codes "cpu") && ltb 3 (length name)
    then (ticks_of entry >>= λ t. percpu_loop entries >>= λ ts. ok (t ∷ ts))
    else percpu_loop entries

percpu_times : List Text → Result (List (List ℕ))
percpu_times lines = percpu_loop (stat_entries lines)
