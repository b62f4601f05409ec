-- ===== src/Linux/Files/Info.antt =====
-- The lines of `fdinfo` as `proc_iter_fds` of pypsutil/_pslinux.py reads them. Seconds with a fraction
-- are kept as the two numbers that they are computed from.
use pypsutil.Prelude.{
  ℕ, ◌+◌, ◌-◌, ◌*◌, false, Option, some, List, [], ◌∷◌, ◌++◌, ◌||◌, ◌&&◌, drop, take, length,
  if◌then◌else◌, nat_eq,
}
use pypsutil.Prelude.Dict.{Dict, lookup, insert}
use pypsutil.Prelude.Exn.{Exn, Result, ok, err, ◌>>=◌}
use pypsutil.Prelude.Text.{
  Text, codes, starts_with, ends_with, strip, cut_at, parse_int, text_eq, text_keys,
}
use pypsutil.Util.Signals.{Signals}
use pypsutil.Linux.Stat.{or_value_error}
use pypsutil.Linux.Memory.{parse_sigmask}
use pypsutil.Linux.Maps.{split_max, two_parts}
use pypsutil.Linux.Files.{int_behind, clear_bit}

abbrev pub Tfds : Type 0
Tfds = Dict ℕ (Dict Text ℕ)

-- A value of `extra_info`.
pub data Extra : Type 0 where
  number : ℕ → Extra
  signals : List ℕ → Extra
  seconds : ℕ → ℕ → Extra
  tfds : Tfds → Extra

-- The local variables of the loop over the lines.
pub record FdInfo : Type 0 where
  pub position : ℕ
  pub flags : Option ℕ
  pub extra_info : Dict Text Extra

abbrev pub set_extra : Text → Extra → FdInfo → FdInfo
set_extra key value s = record s { extra_info = insert key value s.extra_info }

abbrev tfds_of : Option Extra → Tfds
tfds_of (some (Extra.tfds d)) = d
tfds_of _ = []

module _ (large : Option ℕ) (sigs : Signals) (findall : Text → List (Text × Text)) where
  -- One pair that the regular expression finds.
  abbrev tfd_field : Dict Text ℕ → Text × Text → Result (Dict Text ℕ)
  tfd_field d (key, value) =
      if text_eq key (codes "pos")
      then (or_value_error (parse_int 10 value) >>= λ n. ok (insert key n d))
      else if text_eq key (codes "events")
          || (text_eq key (codes "data")
              || (text_eq key (codes "ino") || text_eq key (codes "sdev")))
      then (or_value_error (parse_int 16 value) >>= λ n. ok (insert key n d))
      else ok d

  abbrev tfd_fields : Dict Text ℕ → List (Text × Text) → Result (Dict Text ℕ)
  tfd_fields d [] = ok d
  tfd_fields d (pair ∷ pairs) = tfd_field d pair >>= λ d'. tfd_fields d' pairs

  -- The branch for `tfd:`.
  abbrev pub tfd_words : List Text → FdInfo → Result FdInfo
  tfd_words (tfd ∷ rest ∷ []) s = do
    n ← or_value_error (parse_int 10 tfd)
    d ← tfd_fields [] (findall rest)
    ok (
        set_extra (codes "tfds")
          (Extra.tfds (insert n d (tfds_of (lookup (codes "tfds") s.extra_info)))) s)
  tfd_words _ s = err Exn.value_error

  -- The branch for `it_value:` and `it_interval`.
  abbrev pub interval : Text → Text → FdInfo → Result FdInfo
  interval name value s =
      if starts_with value (codes "(") && ends_with value (codes ")")
      then (do
        (a, b) ← two_parts 44 (take (length value - 2) (drop 1 value))
        secs ← or_value_error (parse_int 10 a)
        subsec ← or_value_error (parse_int 10 b)
        ok (
            set_extra (name ++ codes "_ns") (Extra.number (secs * 1_000_000_000 + subsec))
              (set_extra name (Extra.seconds secs subsec) s)))
      else err Exn.assertion_error

  -- The branches behind those for `pos:` and `flags:`.
  unfoldable pub other_line : Text → FdInfo → Result FdInfo
  other_line line s =
      if starts_with line (codes "mnt_id:")
        || (starts_with line (codes "scm_fds:") || starts_with line (codes "eventfd-count:"))
      then (do
        (key, value) ← or_value_error (cut_at 58 line)
        n ← or_value_error (parse_int 10 value)
        ok (set_extra key (Extra.number n) s))
      else if starts_with line (codes "tfd:")
      then tfd_words (split_max 1 (strip (drop 4 line))) s
      else if starts_with line (codes "sigmask:")
      then (parse_sigmask sigs false (drop 8 line) >>= λ m.
          ok (set_extra (codes "sigmask") (Extra.signals m) s))
      else if starts_with line (codes "Pid:")
      then (int_behind 10 4 line >>= λ n. ok (set_extra (codes "pid") (Extra.number n) s))
      else if starts_with line (codes "clockid:")
      then (int_behind 10 8 line >>= λ n. ok (set_extra (codes "clockid") (Extra.number n) s))
      else if starts_with line (codes "ticks:")
      then (int_behind 10 6 line >>= λ n. ok (set_extra (codes "ticks") (Extra.number n) s))
      else if starts_with line (codes "settime flags:")
      then (int_behind 8 14 line >>= λ n. ok (set_extra (codes "settime_flags") (Extra.number n) s))
      else if starts_with line (codes "it_value:")
      then interval (codes "it_value") (strip (drop 9 line)) s
      else if starts_with line (codes "it_interval")
      then interval (codes "it_interval") (strip (drop 12 line)) s
      else ok s

  unfoldable pub info_line : Text → FdInfo → Result FdInfo
  info_line line s =
      if starts_with line (codes "pos:")
      then (int_behind 10 4 line >>= λ n. ok (record s { position = n }))
      else if starts_with line (codes "flags:")
      then (int_behind 8 6 line >>= λ n. ok (record s { flags = some (clear_bit large n) }))
      else other_line line s

  -- `for line in fdinfo.splitlines()`
  unfoldable pub info_lines : List Text → FdInfo → Result FdInfo
  info_lines [] s = ok s
  info_lines (line ∷ lines) s = info_line line s >>= info_lines lines
