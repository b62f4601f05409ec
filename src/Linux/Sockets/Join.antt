-- ===== src/Linux/Sockets/Join.antt =====
-- `proc_connections` and `net_connections` of pypsutil/_pslinux.py: sockets of the tables joined with
-- file descriptors by inode. What listing a process's descriptors gives is an argument.
use pypsutil.Prelude.{
  ℕ, Bool, true, false, Option, none, some, List, [], ◌∷◌, ◌++◌, if◌then◌else◌, is_empty, map,
  nat_eq,
}
use pypsutil.Prelude.Exn.{Exn, Result, ok, err, ◌>>=◌}
use pypsutil.Prelude.Dict.{Dict, lookup, insert, erase, values}
use pypsutil.Linux.Sockets.{Info, Items}

-- `pid` is none for a socket without a process, and then `fd` is none for -1.
pub record Connection : Type 0 where
  pub fd : Option ℕ
  pub pid : Option ℕ
  pub info : Info

-- The entries of a "fd" directory: the number, and whether it is a socket, with its inode.
abbrev pub FdEntries : Type 0
FdEntries = List (ℕ × Result (Bool × ℕ))

-- The `for entry in dir_it` loop: `fds_by_inode`.
collect_fds : FdEntries → Dict ℕ ℕ → Result (Dict ℕ ℕ)
collect_fds [] fds = ok fds
collect_fds ((fd, ok (true, inode)) ∷ entries) fds = collect_fds entries (insert inode fd fds)
collect_fds ((fd, ok (false, inode)) ∷ entries) fds = collect_fds entries fds
collect_fds ((fd, err Exn.file_not_found_error) ∷ entries) fds = collect_fds entries fds
collect_fds ((fd, err ex) ∷ entries) fds = err ex

abbrev yield : {A : Type 0} → A → Items A → Items A
yield a (rest, ended) = (a ∷ rest, ended)

-- The loop over the tables: a socket is popped when it is found, and none left ends the loop.
unfoldable pub join : ℕ → List (Info × ℕ) → Option Exn → Dict ℕ ℕ → Items Connection
join pid [] ended fds = ([], ended)
join pid ((info, inode) ∷ rows) ended fds = elim (lookup inode fds) [
  | none ↦ join pid rows ended fds
  | some fd ↦
      let rest = join pid rows ended (erase inode fds) in
      yield (record { fd = some fd; pid = some pid; info = info })
        (if is_empty (erase inode fds) then ([], none) else rest)
]

-- After the directory is read.
abbrev with_fds : ℕ → Items (Info × ℕ) → Result (Dict ℕ ℕ) → Items Connection
with_fds pid (rows, ended) (err Exn.file_not_found_error) = ([], some Exn.process_lookup_error)
with_fds pid (rows, ended) (err ex) = ([], some ex)
with_fds pid (rows, ended) (ok fds) = if is_empty fds then ([], none) else join pid rows ended fds

unfoldable pub proc_connections : ℕ → Result FdEntries → Items (Info × ℕ) → Items Connection
unfolding collect_fds join
proc_connections pid listing rows = with_fds pid rows (do entries ← listing; collect_fds entries [])

-- `infos[inode] = …` for every row.
unfoldable pub infos_of : List (Info × ℕ) → Dict ℕ Info → Dict ℕ Info
infos_of [] infos = infos
infos_of ((info, inode) ∷ rows) infos = infos_of rows (insert inode info infos)

-- What the walk over a process's descriptors leaves: what it has yielded, and `infos`.
abbrev pub Walk : Type 0
Walk = List Connection × Dict ℕ Info × Option Exn

abbrev found : Connection → Walk → Walk
found c (cs, infos, ended) = (c ∷ cs, infos, ended)

-- The loop over the entries of one process. An entry that is gone is passed over, a
-- PermissionError leaves the process. With no `infos` left the walk ends.
unfoldable pub walk_fds : ℕ → FdEntries → Dict ℕ Info → Walk
walk_fds pid [] infos = ([], infos, none)
walk_fds pid ((fd, ok (true, inode)) ∷ entries) infos = elim (lookup inode infos) [
  | none ↦ walk_fds pid entries infos
  | some info ↦
      let rest = walk_fds pid entries (erase inode infos) in
      found (record { fd = some fd; pid = some pid; info = info })
        (if is_empty (erase inode infos) then ([], [], none) else rest)
]
walk_fds pid ((fd, ok (false, inode)) ∷ entries) infos = walk_fds pid entries infos
walk_fds pid ((fd, err Exn.file_not_found_error) ∷ entries) infos = walk_fds pid entries infos
walk_fds pid ((fd, err Exn.permission_error) ∷ entries) infos = ([], infos, none)
walk_fds pid ((fd, err ex) ∷ entries) infos = ([], infos, some ex)

-- One process: the directory may be gone or closed to this user.
unfoldable pub walk_process : ℕ → Result FdEntries → Dict ℕ Info → Walk
unfolding walk_fds
walk_process pid (ok entries) infos = walk_fds pid entries infos
walk_process pid (err Exn.file_not_found_error) infos = ([], infos, none)
walk_process pid (err Exn.permission_error) infos = ([], infos, none)
walk_process pid (err ex) infos = ([], infos, some ex)

abbrev pub after : List Connection → Walk → Walk
after cs (ds, infos, ended) = (cs ++ ds, infos, ended)

-- The loop over the PIDs.
unfoldable pub walk_all : List (ℕ × Result FdEntries) → Dict ℕ Info → Walk
unfolding walk_process
walk_all [] infos = ([], infos, none)
walk_all ((pid, listing) ∷ procs) infos =
    let (cs, infos', ended) = walk_process pid listing infos in
    let rest = walk_all procs infos' in
    elim ended [
      | some ex ↦ (cs, infos', some ex)
      | none ↦ if is_empty infos' then (cs, [], none) else after cs rest
    ]

-- A socket that no process has.
abbrev pub unowned : Info → Connection
unowned info = record { fd = none; pid = none; info = info }

-- After the walk: the sockets that are left, unless an exception passes through.
abbrev pub finish : Walk → Items Connection
finish (cs, infos, some ex) = (cs, some ex)
finish (cs, infos, none) = (cs ++ map unowned (values infos), none)

unfoldable pub net_connections : List (ℕ × Result FdEntries) → Items (Info × ℕ) → Items Connection
unfolding infos_of walk_all
net_connections procs (rows, some ex) = ([], some ex)
net_connections procs (rows, none) =
    let infos = infos_of rows [] in
    if is_empty infos then ([], none) else finish (walk_all procs infos)
