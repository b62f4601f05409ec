-- ===== src/Tests/Files.antt =====
-- The theorem on open files, at a concrete input.
use pypsutil.Prelude.{
  ◌≡◌, refl, ◌/◌, ◌-◌, Option, none, some, List, [], ◌∷◌, ◌++◌, true, false, Bool,
}
use pypsutil.Prelude.Exn.{ok}
use pypsutil.Prelude.Text.{Text, codes, parse_int}
use pypsutil.Util.Signals.{Signals}
use pypsutil.Linux.Files.{FdStat, FdEntry, ProcessOpenFile, clear_bit, open_file}
use pypsutil.Linux.Files.Info.{Extra}
use pypsutil.Linux.Files.Fds.{FdType, ProcessFd, iter_fd}
use pypsutil.Linux.Files.Agree.{open_file-iter_fd}

abbrev machine : Signals
machine = record { is_signal = λ n. true; sigrtmin = none; sigrtmax = none }

abbrev nothing : Text → List (Text × Text)
nothing s = []

abbrev status : FdStat
status = record { nlink = 1; mode = 33188; dev = 8; rdev = 0; ino = 1234; size = 10 }

-- Descriptor 3 on a file, opened with O_RDWR and O_LARGEFILE.
abbrev entry : FdEntry
entry = record {
  fd = 3;
  target = ok (codes "/tmp/a");
  is_file = true;
  stat = ok status;
  fdinfo = ok (codes "pos:\t17" ∷ codes "flags:\t0100002" ∷ codes "mnt_id:\t29" ∷ []);
}

abbrev descriptor : ProcessFd
descriptor = record {
  path = codes "/tmp/a";
  fd = 3;
  fdtype = FdType.file;
  flags = 2;
  position = 17;
  stat = status;
  extra_info = (codes "nlink", Extra.number 1) ∷ (codes "mnt_id", Extra.number 29) ∷ [];
}

is_yielded : iter_fd (some 15) machine nothing entry ≡ ok (some descriptor)
unfolding iter_fd pypsutil.Linux.Files.Info.info_lines pypsutil.Linux.Files.Fds.fd_path
    pypsutil.Linux.Files.Fds.fd_type pypsutil.Linux.Files.Info.info_line
    pypsutil.Prelude.Text.starts_with parse_int pypsutil.Linux.Files.Info.other_line
    pypsutil.Prelude.Text.cut_at pypsutil.Prelude.Text.ends_with
is_yielded = refl

seventeen : parse_int 10 (codes "\t17") ≡ some 17
unfolding parse_int
seventeen = refl

octal : parse_int 8 (codes "\t0100002") ≡ some 32770
unfolding parse_int
octal = refl

open_file-iter_fd_example :
    (open_file (some 15) entry
      ≡ ok (some (record { fd = 3; path = codes "/tmp/a"; flags = 2; position = 17 })))
    × (descriptor.position ≡ 17)
    × (descriptor.flags ≡ clear_bit (some 15) 32770)
unfolding pypsutil.Prelude.Text.starts_with
open_file-iter_fd_example =
    open_file-iter_fd (some 15) machine nothing entry (codes "tmp/a") (codes "\t17")
      (codes "\t0100002") (codes "mnt_id:\t29" ∷ []) status 17 32770 descriptor refl refl refl refl
      ((refl, refl), tt) seventeen octal is_yielded
