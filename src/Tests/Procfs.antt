-- ===== src/Tests/Procfs.antt =====
-- The theorems on the readers of procfs, and on addresses and kinds of connections, at concrete inputs.
use pypsutil.Prelude.{
  ℕ, ◌+◌, ◌<◌, ◌^◌, ◌≡◌, ◌≢◌, refl, Bool, true, false, ◌||◌, ◌&&◌, Option, none, some, List, [],
  ◌∷◌, ◌++◌, arith, All, String, map, if◌then◌else◌,
}
use pypsutil.Prelude.Exn.{Exn, Result, ok, err}
use pypsutil.Prelude.Text.{Text, codes}
use pypsutil.Linux.Stat.{parse_procfs_stat_fields, proc_ppid, proc_status, ProcessStatus}
use pypsutil.Linux.Stat.RoundTrip.{stat_line, parse_procfs_stat_fields-stat_line}
use pypsutil.Linux.Status.{
  iter_proc_status_entries, get_proc_status_entry, proc_ids, proc_fsid, proc_umask,
}
use pypsutil.Linux.Status.Entries.{
  IsPlain, status_text, status_line, iter_proc_status_entries-status_text,
  iter_proc_status_entries-broken,
}
use pypsutil.Linux.Status.Ids.{proc_ids-status_text}
use pypsutil.Linux.Maps.{
  SizeName, ProcessMemoryMap, ProcessMemoryMapGrouped, proc_memory_maps, memory_maps_grouped,
  sum_of, same_name, smaps_lines,
}
use pypsutil.Linux.Maps.Totals.{memory_maps_grouped-sum_of}

abbrev others : List Text
others = codes "S" ∷ codes "1" ∷ []

parse_procfs_stat_fields-stat_line_example :
    parse_procfs_stat_fields (stat_line (codes "7") (codes "a) (b") others)
    ≡ ok (codes "7" ∷ codes "a) (b" ∷ others)
parse_procfs_stat_fields-stat_line_example =
    parse_procfs_stat_fields-stat_line (codes "7") (codes "a) (b") others (refl, (refl, tt))
      (omega arith, tt) ((refl, (refl, tt)), ((refl, (refl, tt)), tt))
      ((omega arith, tt), ((omega arith, tt), tt))

abbrev fields : List Text
fields = codes "7" ∷ codes "a b" ∷ codes "Z" ∷ codes "1" ∷ []

read_fields : (proc_ppid fields ≡ ok 1) × (proc_status fields ≡ ok ProcessStatus.zombie)
unfolding proc_status pypsutil.Prelude.Text.parse_int
read_fields = (refl, refl)

abbrev entries : List (Text × Text)
entries = (codes "a", codes "x y") ∷ (codes "Uid", codes "1\t2\t3\t4") ∷ []

entries-IsPlain : All IsPlain entries
entries-IsPlain = (
  ((omega arith, tt), (refl, tt), (refl, (refl, (refl, tt)))),
  (
    (
      (omega arith, (omega arith, (omega arith, tt))),
      (refl, (refl, (refl, tt))),
      (refl, (refl, (refl, (refl, (refl, (refl, (refl, tt))))))),
    ),
    tt,
  ),
)

iter_proc_status_entries-status_text_example :
    iter_proc_status_entries (status_text entries) ≡ (entries, none)
iter_proc_status_entries-status_text_example =
    iter_proc_status_entries-status_text entries entries-IsPlain

proc_ids-status_text_example :
    (proc_ids (codes "Uid") (status_text entries) ≡ ok (1, 2, 3))
    × (proc_fsid (codes "Uid") (status_text entries) ≡ ok 4)
unfolding pypsutil.Prelude.Text.parse_int
proc_ids-status_text_example =
    proc_ids-status_text (codes "Uid") entries (codes "1") (codes "2") (codes "3") (codes "4")
      entries-IsPlain refl
      ((refl, (refl, tt)), ((refl, (refl, tt)), ((refl, (refl, tt)), ((refl, (refl, tt)), tt))))
      refl refl refl refl

-- A process that has set its name to "a", a vertical tab, "b".
iter_proc_status_entries-broken_example :
    iter_proc_status_entries (
      status_text []
      ++ (status_line (codes "Name", codes "a") ++ 11 ∷ (codes "b" ++ 10 ∷ status_text entries)))
    ≡ ((codes "Name", codes "a") ∷ [], some Exn.value_error)
iter_proc_status_entries-broken_example =
    iter_proc_status_entries-broken [] (codes "Name") (codes "a") (codes "b") (status_text entries)
      11 tt
      (
        (omega arith, (omega arith, (omega arith, (omega arith, tt)))),
        (refl, (refl, (refl, (refl, tt)))),
        (refl, tt),
      )
      refl (omega arith) (refl, tt) (omega arith, tt)

abbrev smaps : List Text
smaps =
    codes "0a-1f r-xp 0 08:01 5 /lib/a b\n"
    ∷ codes "Size:  4 kB\n"
    ∷ codes "Rss:  1 kB\n"
    ∷ codes "20-30 rw-p 0 00:00 0\n"
    ∷ codes "Size:  8 kB\n"
    ∷ codes "VmFlags: rd\n"
    ∷ []

abbrev mapped : Text → SizeName → ℕ → ProcessMemoryMap
mapped path name n = record {
  path = path;
  addr_start = 10;
  addr_end = 31;
  perms = codes "r-xp";
  offset = 0;
  dev = 1;
  ino = 5;
  sizes = λ other. if same_name name other then n else 0;
}

abbrev sizes_of : Result (List ProcessMemoryMap) → List (Text × ℕ × ℕ)
sizes_of (ok maps) =
    map (λ (m : ProcessMemoryMap). (m.path, m.sizes SizeName.size, m.addr_end)) maps
sizes_of (err _) = []

read_smaps :
    sizes_of (proc_memory_maps (λ major minor. major) smaps)
    ≡ (codes "/lib/a b", 4096, 31) ∷ (codes "[anon]", 8192, 48) ∷ []
unfolding smaps_lines pypsutil.Linux.Status.rstrip_newlines pypsutil.Prelude.Text.lstrip
    pypsutil.Prelude.Text.cut_at pypsutil.Prelude.Text.parse_int pypsutil.Prelude.Text.ends_with
read_smaps = refl

abbrev three_maps : List ProcessMemoryMap
three_maps =
    mapped (codes "a") SizeName.rss 3
    ∷ mapped (codes "b") SizeName.rss 5
    ∷ mapped (codes "a") SizeName.rss 7
    ∷ []

memory_maps_grouped-sum_of_example :
    (groups : List ProcessMemoryMapGrouped) × (memory_maps_grouped three_maps ≡ ok groups)
    × ((n : SizeName)
        → sum_of (λ (g : ProcessMemoryMapGrouped). g.sizes n) groups
          ≡ sum_of (λ (m : ProcessMemoryMap). m.sizes n) three_maps)
memory_maps_grouped-sum_of_example = memory_maps_grouped-sum_of three_maps
