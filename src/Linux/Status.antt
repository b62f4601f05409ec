-- ===== src/Linux/Status.antt =====
-- The readers of `/proc/<pid>/status` in pypsutil/_pslinux.py. The text of the file is an argument.
pub mod Entries
pub mod Ids
use mathlib.Core.List.{reverse}
use pypsutil.Prelude.{
  ℕ, zero, suc, ◌+◌, ◌*◌, ◌-◌, Bool, true, false, ◌&&◌, ◌||◌, Option, none, some, List, [], ◌∷◌,
  ◌++◌, ◌==◌, leb, if◌then◌else◌, take, drop, length,
}
use pypsutil.Prelude.Int.{pos}
use pypsutil.Prelude.Exn.{Exn, Result, ok, err, ◌>>=◌}
use pypsutil.Prelude.Text.{
  Text, codes, put, word, split, strip, rstrip, parse_int, text_eq, starts_with, ends_with,
}
use pypsutil.Linux.Stat.{or_value_error}
use pypsutil.Util.Signals.{Signals, expand_sig_bitmask}

-- Where `str.splitlines` ends a line.
abbrev pub is_break : ℕ → Bool
is_break c =
    (leb 10 c && leb c 13)
    || ((leb 28 c && leb c 30) || ((c == 0x85) || ((c == 0x2028) || (c == 0x2029))))

-- `s.splitlines()`, with the line so far, and whether a carriage return has just ended a line.
unfoldable pub lines_from : Bool → Text → Text → List Text
lines_from after_cr [] line = word line []
lines_from after_cr (c ∷ s) line = elim (after_cr && (c == 10)) [
  | true ↦ lines_from false s line
  | false ↦ elim (is_break c) [
    | true ↦ line ∷ lines_from (c == 13) s []
    | false ↦ lines_from false s (line ++ (c ∷ []))
  ]
]

unfoldable pub splitlines : Text → List Text
unfolding lines_from
splitlines s = lines_from false s []

-- `line.split(":\t", maxsplit=1)`, where the separator is there.
unfoldable pub cut_entry : Text → Option (Text × Text)
cut_entry [] = none
cut_entry (c ∷ s) = elim ((c == 58) && starts_with s (9 ∷ [])) [
  | true ↦ some ([], drop 1 s)
  | false ↦ put c (cut_entry s)
]

-- `value.rstrip("\n")`
unfoldable pub drop_newlines : Text → Text
drop_newlines [] = []
drop_newlines (c ∷ s) = elim (c == 10) [ true ↦ drop_newlines s | false ↦ c ∷ s ]

unfoldable pub rstrip_newlines : Text → Text
unfolding drop_newlines
rstrip_newlines s = reverse (drop_newlines (reverse s))

-- What the generator `_iter_proc_status_entries` yields, and the exception that ends it.
abbrev pub Entries : Type 0
Entries = List (Text × Text) × Option Exn

abbrev cons_entry : Option (Text × Text) → Entries → Entries
cons_entry none rest = ([], some Exn.value_error)
cons_entry (some (name, value)) (entries, ended) = ((name, rstrip_newlines value) ∷ entries, ended)

unfoldable pub entries_of : List Text → Entries
entries_of [] = ([], none)
entries_of (line ∷ lines) = cons_entry (cut_entry line) (entries_of lines)

unfoldable pub iter_proc_status_entries : Text → Entries
unfolding splitlines entries_of
iter_proc_status_entries text = entries_of (splitlines text)

-- `_get_proc_status_entry`: the generator is left at the first match.
unfoldable pub find_entry : Text → List (Text × Text) → Option Exn → Result Text
find_entry name [] none = err Exn.key_error
find_entry name [] (some ex) = err ex
find_entry name ((entry_name, value) ∷ entries) ended = elim (text_eq name entry_name) [
  | true ↦ ok value
  | false ↦ find_entry name entries ended
]

unfoldable pub get_proc_status_entry : Text → Text → Result Text
unfolding iter_proc_status_entries find_entry
get_proc_status_entry name text =
    let (entries, ended) = iter_proc_status_entries text in find_entry name entries ended

-- `list(map(int, words))`
unfoldable pub ints : List Text → Result (List ℕ)
ints [] = ok []
ints (w ∷ ws) = do n ← or_value_error (parse_int 10 w); ns ← ints ws; ok (n ∷ ns)

-- `r, e, s, _ = map(int, value.split())`
abbrev four : List ℕ → Result (ℕ × ℕ × ℕ)
four (r ∷ e ∷ s ∷ _ ∷ []) = ok (r, e, s)
four _ = err Exn.value_error

-- `proc_uids` with "Uid", `proc_gids` with "Gid".
unfoldable pub proc_ids : Text → Text → Result (ℕ × ℕ × ℕ)
unfolding ints
proc_ids name text = do value ← get_proc_status_entry name text; ids ← ints (split value); four ids

-- `value.rsplit(maxsplit=1)[1]`: the last of two words or more.
abbrev pub last_word : List Text → Result Text
last_word [] = err Exn.index_error
last_word (w ∷ []) = err Exn.index_error
last_word (w ∷ v ∷ []) = ok v
last_word (w ∷ v ∷ u ∷ ws) = last_word (v ∷ u ∷ ws)

-- `proc_fsuid` with "Uid", `proc_fsgid` with "Gid".
unfoldable pub proc_fsid : Text → Text → Result ℕ
proc_fsid name text = do
  value ← get_proc_status_entry name text
  w ← last_word (split value)
  or_value_error (parse_int 10 w)

unfoldable pub proc_getgroups : Text → Result (List ℕ)
proc_getgroups text = do value ← get_proc_status_entry (codes "Groups") text; ints (split value)

-- The loop of `proc_umask`, with `zombie`.
unfoldable pub umask_loop : ℕ → Bool → List (Text × Text) → Option Exn → Result (Option ℕ)
umask_loop pid zombie [] (some ex) = err ex
umask_loop pid zombie [] none = if zombie then err (Exn.zombie_process (pos pid)) else ok none
umask_loop pid zombie ((name, value) ∷ entries) ended = elim (text_eq name (codes "State")) [
  | true ↦ umask_loop pid (starts_with value (codes "Z")) entries ended
  | false ↦ elim (text_eq name (codes "Umask")) [
    | true ↦ elim (parse_int 8 value) [ none ↦ err Exn.value_error | some mask ↦ ok (some mask) ]
    | false ↦ umask_loop pid zombie entries ended
  ]
]

unfoldable pub proc_umask : ℕ → Text → Result (Option ℕ)
unfolding umask_loop
proc_umask pid text =
    let (entries, ended) = iter_proc_status_entries text in umask_loop pid false entries ended

-- The loop of `proc_num_ctx_switches`, with `vctxt` and `nvctxt`.
unfoldable pub ctx_loop : Option ℕ → Option ℕ → List (Text × Text) → Option Exn → Result ℕ
ctx_loop v n [] (some ex) = err ex
ctx_loop (some v) (some n) [] none = ok (v + n)
ctx_loop _ _ [] none = err Exn.assertion_error
ctx_loop v n ((name, value) ∷ entries) ended =
    elim (text_eq name (codes "voluntary_ctxt_switches")) [
      | true ↦ elim (parse_int 10 value) [
        | none ↦ err Exn.value_error
        | some m ↦ ctx_loop (some m) n entries ended
      ]
      | false ↦ elim (text_eq name (codes "nonvoluntary_ctxt_switches")) [
        | true ↦ elim (parse_int 10 value) [
          | none ↦ err Exn.value_error
          | some m ↦ ctx_loop v (some m) entries ended
        ]
        | false ↦ ctx_loop v n entries ended
      ]
    ]

unfoldable pub proc_num_ctx_switches : Text → Result ℕ
unfolding ctx_loop
proc_num_ctx_switches text =
    let (entries, ended) = iter_proc_status_entries text in ctx_loop none none entries ended
