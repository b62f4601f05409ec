-- ===== src/Linux/Files/Agree.antt =====
-- `proc_open_files` and `proc_iter_fds` of pypsutil/_pslinux.py agree.
use mathlib.Core.Path.{subst}
use pypsutil.Prelude.{
  ℕ, ◌≡◌, refl, sym, ap, ◌∙◌, inl, inr, Bool, true, false, Option, none, some, List, [], ◌∷◌, ◌++◌,
  All, if◌then◌else◌, some-inj,
}
use pypsutil.Prelude.Exn.{Exn, Result, ok, err, ◌>>=◌, bind_ok, ok-inj, Result-cases}
use pypsutil.Prelude.Text.{Text, codes, starts_with, parse_int}
use pypsutil.Linux.Stat.{or_value_error}
use pypsutil.Util.Signals.{Signals}
use pypsutil.Linux.Files.{
  FdStat, FdEntry, ProcessOpenFile, scan, scan_line, open_file, clear_bit, int_behind,
}
use pypsutil.Linux.Files.Info.{
  Extra, set_extra, FdInfo, info_line, info_lines, other_line, interval, tfd_words,
}
use pypsutil.Linux.Files.Fds.{ProcessFd, iter_fd, first_info, yielded}

-- A line that tells neither the position nor the flags.
abbrev pub IsOther : Text → Type 0
IsOther line =
    (starts_with line (codes "pos:") ≡ false) × (starts_with line (codes "flags:") ≡ false)

-- Position and flags of `s` are kept by what a line came to.
abbrev Keeps : FdInfo → Result FdInfo → Type 0
Keeps s (ok s') = (s'.position ≡ s.position) × (s'.flags ≡ s.flags)
Keeps s (err ex) = Unit

bind-Keeps :
    {A : Type 0} (s : FdInfo) (r : Result A) (f : A → Result FdInfo)
    → ((a : A) → Keeps s (f a))
    → Keeps s (r >>= f)
bind-Keeps s (ok a) f h = h a
bind-Keeps s (err ex) f h = tt

if-Keeps :
    (s : FdInfo) (c : Bool) (a b : Result FdInfo)
    → Keeps s a
    → Keeps s b
    → Keeps s (if c then a else b)
if-Keeps s true a b ha hb = ha
if-Keeps s false a b ha hb = hb

set-Keeps : (s : FdInfo) (key : Text) (value : Extra) → Keeps s (ok (set_extra key value s))
set-Keeps s key value = (refl, refl)

err-Keeps : (s : FdInfo) (ex : Exn) → Keeps s (err ex)
err-Keeps s ex = tt

onward :
    (s t : FdInfo) (r : Result FdInfo)
    → t.position ≡ s.position
    → t.flags ≡ s.flags
    → Keeps t r
    → Keeps s r
onward s t (ok u) p f (p', f') = (p' ∙ p, f' ∙ f)
onward s t (err ex) p f h = tt

module _ (large : Option ℕ) (sigs : Signals) (findall : Text → List (Text × Text)) where
  interval-Keeps :
      (name value : Text) (s : FdInfo) → Keeps s (interval large sigs findall name value s)
  interval-Keeps name value s = search (bind-Keeps, if-Keeps, err-Keeps)

  tfd_words-Keeps :
      (words : List Text) (s : FdInfo) → Keeps s (tfd_words large sigs findall words s)
  tfd_words-Keeps [] s = tt
  tfd_words-Keeps (tfd ∷ []) s = tt
  tfd_words-Keeps (tfd ∷ rest ∷ []) s = search (bind-Keeps, set-Keeps)
  tfd_words-Keeps (tfd ∷ rest ∷ more ∷ words) s = tt

  other_line-Keeps : (line : Text) (s : FdInfo) → Keeps s (other_line large sigs findall line s)
  unfolding other_line
  other_line-Keeps line s =
      search (bind-Keeps, if-Keeps, set-Keeps, tfd_words-Keeps, interval-Keeps) depth 16

  info_line-Keeps :
      (line : Text) (s : FdInfo) → IsOther line → Keeps s (info_line large sigs findall line s)
  unfolding info_line
  info_line-Keeps line s (p, f) = rw (p, f) (other_line-Keeps line s)

  info_lines-Keeps :
      (lines : List Text) (s : FdInfo)
      → All IsOther lines
      → Keeps s (info_lines large sigs findall lines s)
  unfolding info_lines
  info_lines-Keeps [] s h = (refl, refl)
  info_lines-Keeps (line ∷ lines) s (hl, h) =
      elim (Result-cases (info_line large sigs findall line s)) [
        | inr (ex, e) ↦ rw e tt
        | inl (t, e) ↦
            let (p, f) : Keeps s (ok t) = subst (Keeps s) e (info_line-Keeps line s hl) in
            rw e
              (onward s t (info_lines large sigs findall lines t) p f (info_lines-Keeps lines t h))
      ]

  -- A line of a name and a number, and the files of an entry.
  abbrev pub pos_line : Text → Text
  pos_line text = codes "pos:" ++ text

  abbrev pub flags_line : Text → Text
  flags_line text = codes "flags:" ++ text

  scan-two :
      (p f : Text) (rest : List Text) (n m : ℕ)
      → int_behind 10 4 (pos_line p) ≡ ok n
      → int_behind 8 6 (flags_line f) ≡ ok m
      → scan large (pos_line p ∷ flags_line f ∷ rest) (none, none)
        ≡ ok (some (n, clear_bit large m))
  unfolding scan scan_line starts_with
  scan-two p f rest n m en em = rw (en, em) refl

  info-two :
      (p f : Text) (rest : List Text) (n m : ℕ) (s : FdInfo)
      → int_behind 10 4 (pos_line p) ≡ ok n
      → int_behind 8 6 (flags_line f) ≡ ok m
      → info_lines large sigs findall (pos_line p ∷ flags_line f ∷ rest) s
        ≡ info_lines large sigs findall rest
            (record s { position = n; flags = some (clear_bit large m) })
  unfolding info_lines info_line starts_with
  info-two p f rest n m s en em = rw (en, em) refl

  found-one :
      (e : FdEntry) (path p f : Text) (rest : List Text) (n m : ℕ)
      → e.target ≡ ok (47 ∷ path)
      → e.is_file ≡ true
      → e.fdinfo ≡ ok (pos_line p ∷ flags_line f ∷ rest)
      → int_behind 10 4 (pos_line p) ≡ ok n
      → int_behind 8 6 (flags_line f) ≡ ok m
      → open_file large e
        ≡ ok
            (some (record { fd = e.fd; path = 47 ∷ path; flags = clear_bit large m; position = n }))
  unfolding open_file
  found-one e path p f rest n m target file info en em =
      simp (target, file, info, scan-two p f rest n m en em) refl

  from_lines :
      (e : FdEntry) (path : Text) (st : FdStat) (lines : List Text) (d : ProcessFd)
      → e.target ≡ ok path
      → e.stat ≡ ok st
      → e.fdinfo ≡ ok lines
      → iter_fd large sigs findall e ≡ ok (some d)
      → (info_lines large sigs findall lines (first_info large sigs findall st)
          >>= yielded large sigs findall e path st)
        ≡ ok (some d)
  unfolding iter_fd
  from_lines e path st lines d target stat info h = simp (target, stat, info) at h

  told :
      (e : FdEntry) (path : Text) (st : FdStat) (s : FdInfo) (d : ProcessFd) (flags : ℕ)
      → s.flags ≡ some flags
      → yielded large sigs findall e path st s ≡ ok (some d)
      → (d.fd ≡ e.fd) × (d.flags ≡ flags) × (d.position ≡ s.position)
  told e path st s d flags known h =
      let same = some-inj (ok-inj (simp (known, yielded) at h)) in
      (sym (ap (λ x. x.fd) same), sym (ap (λ x. x.flags) same), sym (ap (λ x. x.position) same))

  -- For a file that is open under an absolute path, with `fdinfo` as the kernel writes it, the position
  -- first, then the flags, and then lines of other names: if `proc_iter_fds` yields the descriptor,
  -- then `proc_open_files` lists it under the path of its link, with the same number, position and
  -- flags; they are those of the two lines, without the bit of O_LARGEFILE.
  pub open_file-iter_fd :
      (e : FdEntry) (path p f : Text) (rest : List Text) (st : FdStat) (n m : ℕ) (d : ProcessFd)
      → e.target ≡ ok (47 ∷ path)
      → e.is_file ≡ true
      → e.stat ≡ ok st
      → e.fdinfo ≡ ok (pos_line p ∷ flags_line f ∷ rest)
      → All IsOther rest
      → parse_int 10 p ≡ some n
      → parse_int 8 f ≡ some m
      → iter_fd large sigs findall e ≡ ok (some d)
      → (open_file large e
          ≡ ok (
              some
                (record { fd = d.fd; path = 47 ∷ path; flags = d.flags; position = d.position })))
        × (d.position ≡ n)
        × (d.flags ≡ clear_bit large m)
  open_file-iter_fd e path p f rest st n m d target file stat info other en em h =
      let pos : int_behind 10 4 (pos_line p) ≡ ok n = ap or_value_error en in
      let flg : int_behind 8 6 (flags_line f) ≡ ok m = ap or_value_error em in
      let start = first_info large sigs findall st in
      let s : FdInfo = record start { position = n; flags = some (clear_bit large m) } in
      let (t, read, made) =
        bind_ok (info_lines large sigs findall (pos_line p ∷ flags_line f ∷ rest) start)
          (yielded large sigs findall e (47 ∷ path) st) (some d)
          (from_lines e (47 ∷ path) st (pos_line p ∷ flags_line f ∷ rest) d target stat info h) in
      let kept : Keeps s (ok t) =
        subst (Keeps s) (sym (info-two p f rest n m start pos flg) ∙ read)
          (info_lines-Keeps rest s other) in
      let (fd, flags, position) = told e (47 ∷ path) st t d (clear_bit large m) kept.1 made in
      let here : d.position ≡ n = position ∙ kept.0 in
      let same : ◌≡◌ {A = Result (Option ProcessOpenFile)}
          (ok (
            some (record { fd = e.fd; path = 47 ∷ path; flags = clear_bit large m; position = n })))
          (ok (
            some
              (record { fd = d.fd; path = 47 ∷ path; flags = d.flags; position = d.position }))) =
        λ i. ok (
          some (record {
            fd = (sym fd) i;
            path = 47 ∷ path;
            flags = (sym flags) i;
            position = (sym here) i;
          })) in
      (found-one e path p f rest n m target file info pos flg ∙ same, here, flags)
