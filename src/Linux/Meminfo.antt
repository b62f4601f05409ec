-- ===== src/Linux/Meminfo.antt =====
-- `/proc/meminfo` and `/proc/vmstat` in pypsutil/_pslinux.py: `_get_raw_meminfo`, `virtual_memory`,
-- `virtual_memory_total`, `swap_memory`. The lines of the two files are arguments.
pub mod Lines
use pypsutil.Prelude.{
  ℕ, ◌+◌, ◌-◌, ◌*◌, Bool, true, false, Option, none, some, List, [], ◌∷◌, drop, take, length,
  if◌then◌else◌,
}
use pypsutil.Prelude.Int.{ℤ, sub_ℕ}
use pypsutil.Prelude.Dict.{Dict, lookup, insert}
use pypsutil.Prelude.Exn.{Exn, Result, ok, err, ◌>>=◌}
use pypsutil.Prelude.Text.{Text, codes, starts_with, ends_with, strip, split, parse_int, text_keys}
use pypsutil.Linux.Stat.{or_value_error}
use pypsutil.Linux.NetDev.{rstrip_colons}

abbrev pub RawMeminfo : Type 0
RawMeminfo = Dict Text ℕ

-- `key, value = line[:-3].split()` and the entry.
abbrev entry : List Text → RawMeminfo → Result RawMeminfo
entry (key ∷ value ∷ []) raw =
    or_value_error (parse_int 10 value) >>= λ n. ok (insert (rstrip_colons key) (n * 1024) raw)
entry _ raw = err Exn.value_error

-- The body of the loop over the lines.
unfoldable pub meminfo_line : Text → RawMeminfo → Result RawMeminfo
meminfo_line line raw =
    let s = strip line in
    if ends_with s (codes " kB") then entry (split (take (length s - 3) s)) raw else ok raw

unfoldable pub meminfo_lines : List Text → RawMeminfo → Result RawMeminfo
meminfo_lines [] raw = ok raw
meminfo_lines (line ∷ lines) raw = meminfo_line line raw >>= meminfo_lines lines

-- `_get_raw_meminfo`, and `raw_meminfo[name]`.
abbrev pub get_raw_meminfo : List Text → Result RawMeminfo
get_raw_meminfo lines = meminfo_lines lines []

abbrev pub at_name : Text → RawMeminfo → Result ℕ
at_name name raw = elim (lookup name raw) [ none ↦ err Exn.key_error | some n ↦ ok n ]

pub record VirtualMemoryInfo : Type 0 where
  pub total : ℕ
  pub available : ℕ
  pub used : ℤ
  pub free : ℕ
  pub active : ℕ
  pub inactive : ℕ
  pub buffers : ℕ
  pub cached : ℕ
  pub shared : ℕ
  pub slab : ℕ

unfoldable pub virtual_memory_total : List Text → Result ℕ
virtual_memory_total lines = get_raw_meminfo lines >>= at_name (codes "MemTotal")

-- The sum for `used`, which looks the four figures up by their names.
abbrev pub used_of : RawMeminfo → Result ℤ
used_of raw = do
  total ← at_name (codes "MemTotal") raw
  free ← at_name (codes "MemFree") raw
  buffers ← at_name (codes "Buffers") raw
  cached ← at_name (codes "Cached") raw
  ok (sub_ℕ total (free + buffers + cached))

-- `info_dict`, in the order of VMEM_NAME_MAPPINGS, and behind it `used`.
abbrev pub memory_of : RawMeminfo → Result VirtualMemoryInfo
memory_of raw = do
  total ← at_name (codes "MemTotal") raw
  available ← at_name (codes "MemAvailable") raw
  free ← at_name (codes "MemFree") raw
  active ← at_name (codes "Active") raw
  inactive ← at_name (codes "Inactive") raw
  buffers ← at_name (codes "Buffers") raw
  cached ← at_name (codes "Cached") raw
  shared ← at_name (codes "Shmem") raw
  slab ← at_name (codes "Slab") raw
  used ← used_of raw
  ok (record {
    total = total;
    available = available;
    used = used;
    free = free;
    active = active;
    inactive = inactive;
    buffers = buffers;
    cached = cached;
    shared = shared;
    slab = slab;
  })

unfoldable pub virtual_memory : List Text → Result VirtualMemoryInfo
virtual_memory lines = get_raw_meminfo lines >>= memory_of

-- `SwapInfo` (pypsutil/_util.py); its property `percent` as a fraction, the second number being 0 for
-- 0.0.
pub record SwapInfo : Type 0 where
  pub total : ℕ
  pub used : ℤ
  pub sin : ℕ
  pub sout : ℕ

-- The loop over the lines of vmstat.
abbrev pub vmstat_line : Text → ℕ × ℕ → Result (ℕ × ℕ)
vmstat_line line (sin, sout) =
    if starts_with line (codes "pswpin ")
    then (or_value_error (parse_int 10 (drop 7 line)) >>= λ n. ok (n * 4096, sout))
    else if starts_with line (codes "pswpout ")
    then (or_value_error (parse_int 10 (drop 8 line)) >>= λ n. ok (sin, n * 4096))
    else ok (sin, sout)

unfoldable pub vmstat_lines : List Text → ℕ × ℕ → Result (ℕ × ℕ)
vmstat_lines [] s = ok s
vmstat_lines (line ∷ lines) s = vmstat_line line s >>= vmstat_lines lines

abbrev pub swap_of : RawMeminfo → ℕ × ℕ → Result SwapInfo
swap_of raw (sin, sout) = do
  total ← at_name (codes "SwapTotal") raw
  free ← at_name (codes "SwapFree") raw
  ok (record { total = total; used = sub_ℕ total free; sin = sin; sout = sout })

unfoldable pub swap_memory : List Text → List Text → Result SwapInfo
swap_memory meminfo vmstat = do
  raw ← get_raw_meminfo meminfo
  s ← vmstat_lines vmstat (0, 0)
  swap_of raw s
