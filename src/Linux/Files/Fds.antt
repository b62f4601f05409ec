-- ===== src/Linux/Files/Fds.antt =====
-- `proc_iter_fds` of pypsutil/_pslinux.py: what it yields for an entry, and the loop over the entries.
use pypsutil.Prelude.{
  ℕ, ◌-◌, ◌/◌, ◌%◌, ◌^◌, Bool, Option, none, some, List, [], ◌∷◌, ◌==◌, ◌&&◌, drop, take, length,
  if◌then◌else◌,
}
use pypsutil.Prelude.Dict.{Dict, lookup}
use pypsutil.Prelude.Exn.{Exn, Result, ok, err, ◌>>=◌, missing_as_lookup}
use pypsutil.Prelude.Text.{Text, codes, starts_with, ends_with, text_keys}
use pypsutil.Util.Signals.{Signals}
use pypsutil.Linux.Files.{FdStat, FdEntry, with_found, or_skip}
use pypsutil.Linux.Files.Info.{Extra, FdInfo, info_lines}

pub data FdType : Type 0 where
  file socket pipe fifo inotify signalfd epoll timerfd pidfd eventfd unknown : FdType

pub record ProcessFd : Type 0 where
  pub path : Text
  pub fd : ℕ
  pub fdtype : FdType
  pub flags : ℕ
  pub position : ℕ
  pub stat : FdStat
  pub extra_info : Dict Text Extra

-- `_ANON_FD_TYPES`
abbrev anon_fd_types : Dict Text FdType
anon_fd_types =
    (codes "[eventpoll]", FdType.epoll)
    ∷ (codes "[eventfd]", FdType.eventfd)
    ∷ (codes "[signalfd]", FdType.signalfd)
    ∷ (codes "[timerfd]", FdType.timerfd)
    ∷ (codes "[pidfd]", FdType.pidfd)
    ∷ (codes "inotify", FdType.inotify)
    ∷ []

-- `_ANON_FD_TYPES.get(name, ProcessFdType.UNKNOWN)`
abbrev anon_type : Text → FdType
anon_type name = elim (lookup name anon_fd_types) [ none ↦ FdType.unknown | some t ↦ t ]

-- `stat.S_ISFIFO(mode)`
abbrev is_fifo : ℕ → Bool
is_fifo mode = mode / 2 ^ 12 % 16 == 1

-- The type for a link's target.
unfoldable pub fd_type : Text → FdStat → FdType
fd_type target st =
    if starts_with target (codes "/")
    then (if is_fifo st.mode then FdType.fifo else FdType.file)
    else if starts_with target (codes "pipe:")
    then FdType.pipe
    else if starts_with target (codes "socket:")
    then FdType.socket
    else if starts_with target (codes "anon_inode:")
    then anon_type (drop 11 target)
    else FdType.unknown

-- The path: without the kernel's mark where no link to the file is left.
unfoldable pub fd_path : Text → FdStat → Text
fd_path target st =
    if starts_with target (codes "/")
    then (if ends_with target (codes " (deleted)") && st.nlink == 0
        then take (length target - 10) target
        else target)
    else []

module _ (large : Option ℕ) (sigs : Signals) (findall : Text → List (Text × Text)) where
  abbrev pub first_info : FdStat → FdInfo
  first_info st = record {
    position = 0;
    flags = none;
    extra_info = (codes "nlink", Extra.number st.nlink) ∷ [];
  }

  -- `assert flags is not None` and what is yielded.
  abbrev pub yielded : FdEntry → Text → FdStat → FdInfo → Result (Option ProcessFd)
  yielded e target st info = elim info.flags [
    | none ↦ err Exn.assertion_error
    | some flags ↦ ok (
        some (record {
          path = fd_path target st;
          fd = e.fd;
          fdtype = fd_type target st;
          flags = flags;
          position = info.position;
          stat = st;
          extra_info = info.extra_info;
        }))
  ]

  -- What is read for an entry; none where one of the three files is missing.
  abbrev pub three_files : FdEntry → Result (Option (Text × FdStat × List Text))
  three_files e = do target ← e.target; st ← e.stat; lines ← e.fdinfo; ok (some (target, st, lines))

  abbrev pub from_files : FdEntry → Option (Text × FdStat × List Text) → Result (Option ProcessFd)
  from_files e none = ok none
  from_files e (some (target, st, lines)) =
      info_lines large sigs findall lines (first_info st) >>= yielded e target st

  unfoldable pub iter_fd : FdEntry → Result (Option ProcessFd)
  iter_fd e = or_skip (three_files e) >>= from_files e

  -- The generator's items, and the exception that ends it, if one does.
  iter_fds : List FdEntry → List ProcessFd × Option Exn
  unfolding iter_fd
  iter_fds [] = ([], none)
  iter_fds (e ∷ entries) =
      let rest = iter_fds entries in
      elim (iter_fd e) [ err ex ↦ ([], some ex) | ok item ↦ (with_found item rest.0, rest.1) ]

  -- `proc_iter_fds`; a FileNotFoundError of the directory is one of a process that does not exist.
  unfoldable pub proc_iter_fds : Result (List FdEntry) → List ProcessFd × Option Exn
  unfolding iter_fds
  proc_iter_fds listing = elim (missing_as_lookup listing) [
    | err ex ↦ ([], some ex)
    | ok entries ↦ iter_fds entries
  ]
