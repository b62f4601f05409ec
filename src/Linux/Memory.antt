-- ===== src/Linux/Memory.antt =====
-- `proc_memory_full_info` of pypsutil/_pslinux.py, on the entries of the status file and the memory
-- maps, and `proc_sigmasks`, which goes through the same entries.
pub mod Sums
use pypsutil.Prelude.{
  ℕ, ◌+◌, ◌*◌, ◌-◌, Bool, true, false, Option, none, some, List, [], ◌∷◌, ◌==◌, if◌then◌else◌, any,
  take, length, String,
}
use pypsutil.Prelude.Exn.{Exn, Result, ok, err, ◌>>=◌}
use pypsutil.Prelude.Text.{Text, codes, strip, parse_int, text_eq, text_keys, ends_with}
use pypsutil.Prelude.Dict.{Dict, lookup, insert}
use pypsutil.Linux.Stat.{or_value_error}
use pypsutil.Linux.Status.{Entries}
use pypsutil.Linux.Maps.{SizeName, ProcessMemoryMap}
use pypsutil.Util.Signals.{Signals, expand_sig_bitmask}

pub record ProcessMemoryFullInfo : Type 0 where
  pub rss : ℕ
  pub vms : ℕ
  pub shared : ℕ
  pub text : ℕ
  pub data_size : ℕ
  pub lib : ℕ
  pub dirty : ℕ
  pub uss : ℕ
  pub pss : ℕ
  pub swap : ℕ

-- The names that the loop over the entries asks for. Its local variables are a dict by these names,
-- with 0 for a name that has not come yet.
abbrev pub asked : List String
asked =
    "VmRSS" ∷ "VmSize" ∷ "RssFile" ∷ "RssShmem" ∷ "VmExe" ∷ "VmData" ∷ "VmStk" ∷ "VmLib" ∷ "VmSwap"
    ∷ []

abbrev is_asked : Text → Bool
is_asked name = any (λ a. text_eq name (codes a)) asked

-- `val`: a number of bytes, or the text.
abbrev kilobytes : Text → Result (Option ℕ)
kilobytes value =
    if ends_with value (codes " kB")
    then (do
      n ← or_value_error (parse_int 10 (take (length value - 3) value))
      ok (some (n * 1024)))
    else ok none

-- `int(val)`
abbrev int_of : Option ℕ → Text → Result ℕ
int_of (some n) value = ok n
int_of none value = or_value_error (parse_int 10 value)

memory_loop : Dict Text ℕ → List (Text × Text) → Option Exn → Result (Dict Text ℕ)
memory_loop vals [] (some ex) = err ex
memory_loop vals [] none = ok vals
memory_loop vals ((name, raw) ∷ entries) ended = do
  val ← kilobytes (strip raw)
  elim (is_asked name) [
    | false ↦ memory_loop vals entries ended
    | true ↦ do n ← int_of val (strip raw); memory_loop (insert name n vals) entries ended
  ]

abbrev value_of : String → Dict Text ℕ → ℕ
value_of name vals = elim (lookup (codes name) vals) [ none ↦ 0 | some n ↦ n ]

-- `pss`, `uss` and `dirty` in the loop over the maps.
unfoldable pub add_maps : ℕ × ℕ × ℕ → List ProcessMemoryMap → ℕ × ℕ × ℕ
add_maps sums [] = sums
add_maps (pss, uss, dirty) (m ∷ maps) =
    add_maps
      (
        pss + m.sizes SizeName.pss,
        uss + (m.sizes SizeName.private_clean + m.sizes SizeName.private_dirty),
        dirty + (m.sizes SizeName.private_dirty + m.sizes SizeName.shared_dirty),
      )
      maps

-- The object at the end, from the local variables of the first loop.
abbrev full_of : Dict Text ℕ → List ProcessMemoryMap → ProcessMemoryFullInfo
full_of vals maps =
    let (pss, uss, dirty) = add_maps (0, 0, 0) maps in
    record {
      rss = value_of "VmRSS" vals;
      vms = value_of "VmSize" vals;
      shared = value_of "RssFile" vals + value_of "RssShmem" vals;
      text = value_of "VmExe" vals;
      data_size = value_of "VmData" vals + value_of "VmStk" vals;
      lib = value_of "VmLib" vals;
      dirty = dirty;
      uss = uss;
      pss = pss;
      swap = value_of "VmSwap" vals;
    }

-- `proc_memory_full_info`, from the entries and from what `proc_memory_maps` returns.
unfoldable pub proc_memory_full_info :
    Entries → Result (List ProcessMemoryMap) → Result ProcessMemoryFullInfo
unfolding memory_loop add_maps
proc_memory_full_info (entries, ended) maps_read = do
  vals ← memory_loop [] entries ended
  maps ← maps_read
  ok (full_of vals maps)

-- A set of signals as a list without repetition.
pub record ProcessSignalMasks : Type 0 where
  pub process_pending : List ℕ
  pub pending : List ℕ
  pub blocked : List ℕ
  pub ignored : List ℕ
  pub caught : List ℕ

-- `parse_sigmask`
abbrev pub parse_sigmask : Signals → Bool → Text → Result (List ℕ)
parse_sigmask signals include_internal raw = do
  mask ← or_value_error (parse_int 16 raw)
  ok (expand_sig_bitmask signals mask include_internal)

-- The assignment for one entry.
abbrev set_mask : Signals → Bool → Text → Text → ProcessSignalMasks → Result ProcessSignalMasks
set_mask signals include_internal name value masks =
    if text_eq name (codes "ShdPnd")
    then (do
      s ← parse_sigmask signals include_internal value
      ok (record masks { process_pending = s }))
    else if text_eq name (codes "SigPnd")
    then (do s ← parse_sigmask signals include_internal value; ok (record masks { pending = s }))
    else if text_eq name (codes "SigBlk")
    then (do s ← parse_sigmask signals include_internal value; ok (record masks { blocked = s }))
    else if text_eq name (codes "SigIgn")
    then (do s ← parse_sigmask signals include_internal value; ok (record masks { ignored = s }))
    else if text_eq name (codes "SigCgt")
    then (do s ← parse_sigmask signals include_internal value; ok (record masks { caught = s }))
    else ok masks

masks_loop :
    Signals
    → Bool
    → ProcessSignalMasks
    → List (Text × Text)
    → Option Exn
    → Result ProcessSignalMasks
masks_loop signals include_internal masks [] (some ex) = err ex
masks_loop signals include_internal masks [] none = ok masks
masks_loop signals include_internal masks ((name, value) ∷ entries) ended = do
  masks' ← set_mask signals include_internal name value masks
  masks_loop signals include_internal masks' entries ended

unfoldable pub proc_sigmasks : Signals → Bool → Entries → Result ProcessSignalMasks
unfolding masks_loop
proc_sigmasks signals include_internal (entries, ended) =
    masks_loop signals include_internal
      (record { process_pending = []; pending = []; blocked = []; ignored = []; caught = [] })
      entries ended
