-- ===== src/Linux/Files.antt =====
-- `proc_open_files` and `proc_iter_fds` of pypsutil/_pslinux.py. What the system answers for each entry
-- of `/proc/<pid>/fd` is an argument, with `fdinfo` as its lines; so are the regular expression's
-- `findall` and the signals of the machine.
pub mod Info
pub mod Fds
pub mod Agree
use pypsutil.Prelude.{
  ℕ, zero, suc, ◌+◌, ◌-◌, ◌*◌, ◌/◌, ◌%◌, ◌^◌, Bool, true, false, Option, none, some, List, [], ◌∷◌,
  ◌++◌, ◌==◌, not, drop, if◌then◌else◌,
}
use pypsutil.Prelude.Exn.{Exn, Result, ok, err, ◌>>=◌, missing_as_lookup}
use pypsutil.Prelude.Text.{Text, codes, starts_with, parse_int}
use pypsutil.Linux.Stat.{or_value_error}

-- `os.stat_result`
pub record FdStat : Type 0 where
  pub nlink : ℕ
  pub mode : ℕ
  pub dev : ℕ
  pub rdev : ℕ
  pub ino : ℕ
  pub size : ℕ

-- What the system answers for one file descriptor.
pub record FdEntry : Type 0 where
  pub fd : ℕ
  pub target : Result Text
  pub is_file : Bool
  pub stat : Result FdStat
  pub fdinfo : Result (List Text)

pub record ProcessOpenFile : Type 0 where
  pub fd : ℕ
  pub path : Text
  pub flags : ℕ
  pub position : ℕ

-- `int(line[n:].strip(), base)`
abbrev pub int_behind : ℕ → ℕ → Text → Result ℕ
int_behind base n line = or_value_error (parse_int base (drop n line))

-- `flags & ~O_LARGEFILE`, where O_LARGEFILE is a bit, or 0.
abbrev pub clear_bit : Option ℕ → ℕ → ℕ
clear_bit none flags = flags
clear_bit (some k) flags = if flags / 2 ^ k % 2 == 1 then flags - 2 ^ k else flags

abbrev pub both {ℓ} : {A : Type ℓ} → Option ℕ → Option ℕ → A → (ℕ → ℕ → A) → A
both (some position) (some flags) otherwise found = found position flags
both _ _ otherwise found = otherwise

-- `except FileNotFoundError: continue`
abbrev pub or_skip {ℓ} : {A : Type ℓ} → Result (Option A) → Result (Option A)
or_skip (err Exn.file_not_found_error) = ok none
or_skip r = r

abbrev pub with_found {ℓ} : {A : Type ℓ} → Option A → List A → List A
with_found none rest = rest
with_found (some a) rest = a ∷ rest

module _ (large : Option ℕ) where
  -- `position` and `flags` after a line.
  unfoldable pub scan_line : Text → Option ℕ × Option ℕ → Result (Option ℕ × Option ℕ)
  scan_line line (position, flags) =
      if starts_with line (codes "pos:")
      then (int_behind 10 4 line >>= λ n. ok (some n, flags))
      else if starts_with line (codes "flags:")
      then (int_behind 8 6 line >>= λ n. ok (position, some (clear_bit large n)))
      else ok (position, flags)

  -- The loop over the lines of `fdinfo` in `proc_open_files`, which stops when it has both.
  unfoldable pub scan : List Text → Option ℕ × Option ℕ → Result (Option (ℕ × ℕ))
  scan [] s = ok none
  scan (line ∷ lines) s =
      scan_line line s >>= λ t. both t.0 t.1 (scan lines t) (λ p f. ok (some (p, f)))

  -- The body of its loop over the entries: none where the entry is skipped.
  abbrev pub found_file : FdEntry → Text → Option (ℕ × ℕ) → Option ProcessOpenFile
  found_file e path none = none
  found_file e path (some (position, flags)) =
      some (record { fd = e.fd; path = path; flags = flags; position = position })

  abbrev pub look_at_path : FdEntry → Text → Result (Option ProcessOpenFile)
  look_at_path e [] = err Exn.index_error
  look_at_path e (c ∷ path) =
      if c == 47
      then (if e.is_file
          then (e.fdinfo >>= λ lines.
              scan lines (none, none) >>= λ r. ok (found_file e (c ∷ path) r))
          else ok none)
      else ok none

  unfoldable pub open_file : FdEntry → Result (Option ProcessOpenFile)
  open_file e = or_skip (e.target >>= look_at_path e)

  open_files : List FdEntry → Result (List ProcessOpenFile)
  unfolding open_file
  open_files [] = ok []
  open_files (e ∷ entries) =
      open_file e >>= λ r. open_files entries >>= λ rest. ok (with_found r rest)

  -- `proc_open_files`
  unfoldable pub proc_open_files : Result (List FdEntry) → Result (List ProcessOpenFile)
  unfolding open_files
  proc_open_files listing = missing_as_lookup listing >>= open_files
