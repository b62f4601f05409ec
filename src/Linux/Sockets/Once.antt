-- ===== src/Linux/Sockets/Once.antt =====
-- Every socket of the tables is reported once.
use mathlib.Core.Bool.{false≢true}
use mathlib.Core.Option.{none-ne-some}
use pypsutil.Prelude.{
  ℕ, ◌+◌, ◌≡◌, refl, sym, ◌∙◌, inl, inr, true, false, Option, none, some, List, [], ◌∷◌, ◌++◌,
  arith, ◌==◌, ==_iff, Bool-cases, Option-cases, is_empty, map, nat_eq, some-inj,
}
use pypsutil.Prelude.Exn.{Exn, Result, ok, err}
use pypsutil.Prelude.Dict.{
  Dict, lookup, insert, erase, values, NodupKeys, erase-NodupKeys, insert-NodupKeys,
}
use pypsutil.Linux.Maps.{sum_of}
use pypsutil.Linux.Sockets.{Info}
use pypsutil.Linux.Sockets.Join.{
  Connection, FdEntries, Walk, finish, unowned, infos_of, walk_fds, walk_process, walk_all,
  net_connections,
}
use pypsutil.Linux.Sockets.LastRows.{last_rows, infos_of-last_rows}

sum-append :
    {A : Type 0} (f : A → ℕ) (xs ys : List A) → sum_of f (xs ++ ys) ≡ sum_of f xs + sum_of f ys
sum-append f [] ys = omega arith
sum-append f (x ∷ xs) ys = omega (arith, sum-append f xs ys)

erase-absent : (k : ℕ) (d : Dict ℕ Info) → lookup k d ≡ none → erase k d ≡ d
erase-absent k [] h = refl
erase-absent k ((j, v) ∷ d) h = elim (Bool-cases (k == j)) [
  | inl e ↦ absurd (none-ne-some v (sym h ∙ rw e))
  | inr e ↦ rw (e, erase-absent k d (rw e at h))
]

-- A value that is popped leaves the rest of the sum.
sum-erase :
    (f : Info → ℕ) (k : ℕ) (d : Dict ℕ Info) {v : Info}
    → NodupKeys d
    → lookup k d ≡ some v
    → sum_of f (values d) ≡ f v + sum_of f (values (erase k d))
sum-erase f k [] u h = absurd (none-ne-some _ h)
sum-erase f k ((j, w) ∷ d) {v} (new, u) h = elim (Bool-cases (k == j)) [
  | inl e ↦
      let same : k ≡ j = (==_iff k j).0 e in
      let value : w ≡ v = some-inj (rw e at h) in
      rw (e, value, erase-absent k d (rw (← same) at new))
  | inr e ↦ rw e (omega (arith, sum-erase f k d u (rw e at h)))
]

is_empty-nil : {A : Type 0} (l : List A) → is_empty l ≡ true → l ≡ []
is_empty-nil [] h = refl
is_empty-nil (x ∷ l) h = absurd (false≢true h)

module _ (f : Info → ℕ) where
  abbrev reported : List Connection → ℕ
  reported cs = sum_of (λ (c : Connection). f c.info) cs

  -- A walk moves sockets from `infos` to the connections and loses none.
  record Keeps (infos : Dict ℕ Info) (w : Walk) : Type 0 where
    unique : NodupKeys w.1
    total : sum_of f (values infos) ≡ reported w.0 + sum_of f (values w.1)

  stays :
      (infos : Dict ℕ Info) (ended : Option Exn) → NodupKeys infos → Keeps infos ([], infos, ended)
  stays infos ended u = record { unique = u; total = omega arith }

  walk_fds-Keeps :
      (pid : ℕ) (entries : FdEntries) (infos : Dict ℕ Info)
      → NodupKeys infos
      → Keeps infos (walk_fds pid entries infos)
  unfolding walk_fds
  walk_fds-Keeps pid [] infos u = stays infos none u
  walk_fds-Keeps pid ((fd, ok (true, inode)) ∷ entries) infos u =
      elim (Option-cases (lookup inode infos)) [
        | inl absent ↦ rw (absent, walk_fds) (walk_fds-Keeps pid entries infos u)
        | inr (info, there) ↦
            let popped = sum-erase f inode infos u there in
            let ih =
              walk_fds-Keeps pid entries (erase inode infos) (erase-NodupKeys inode infos u) in
            elim (Bool-cases (is_empty (erase inode infos))) [
              | inl last ↦
                  let nothing : sum_of f (values (erase inode infos)) ≡ 0 =
                    rw (is_empty-nil (erase inode infos) last) refl in
                  rw (there, last, walk_fds)
                    (record { unique = tt; total = omega (arith, popped, nothing) })
              | inr more ↦
                  rw (there, more, walk_fds)
                    (record { unique = ih.unique; total = omega (arith, popped, ih.total) })
            ]
      ]
  walk_fds-Keeps pid ((fd, ok (false, inode)) ∷ entries) infos u =
      walk_fds-Keeps pid entries infos u
  walk_fds-Keeps pid ((fd, err Exn.file_not_found_error) ∷ entries) infos u =
      walk_fds-Keeps pid entries infos u
  walk_fds-Keeps pid ((fd, err Exn.permission_error) ∷ entries) infos u = stays infos none u
  walk_fds-Keeps pid ((fd, err ex) ∷ entries) infos u = stays infos (some ex) u

  walk_process-Keeps :
      (pid : ℕ) (listing : Result FdEntries) (infos : Dict ℕ Info)
      → NodupKeys infos
      → Keeps infos (walk_process pid listing infos)
  unfolding walk_process
  walk_process-Keeps pid (ok entries) infos u = walk_fds-Keeps pid entries infos u
  walk_process-Keeps pid (err Exn.file_not_found_error) infos u = stays infos none u
  walk_process-Keeps pid (err Exn.permission_error) infos u = stays infos none u
  walk_process-Keeps pid (err ex) infos u = stays infos (some ex) u

  walk_all-Keeps :
      (procs : List (ℕ × Result FdEntries)) (infos : Dict ℕ Info)
      → NodupKeys infos
      → Keeps infos (walk_all procs infos)
  unfolding walk_all
  walk_all-Keeps [] infos u = stays infos none u
  walk_all-Keeps ((pid, listing) ∷ procs) infos u =
      let first = walk_process-Keeps pid listing infos u in
      let w = walk_process pid listing infos in
      let rest = walk_all-Keeps procs w.1 first.unique in
      elim (Option-cases w.2) [
        | inr (ex, raised) ↦
            rw (raised, walk_all) (record { unique = first.unique; total = first.total })
        | inl fine ↦ elim (Bool-cases (is_empty w.1)) [
          | inl last ↦
              let nothing : sum_of f (values w.1) ≡ 0 = rw (is_empty-nil w.1 last) refl in
              rw (fine, last, walk_all)
                (record { unique = tt; total = omega (arith, first.total, nothing) })
          | inr more ↦
              rw (fine, more, walk_all)
                (record {
                  unique = rest.unique;
                  total = omega (
                    arith,
                    first.total,
                    rest.total,
                    sum-append (λ (c : Connection). f c.info) w.0 (walk_all procs w.1).0,
                  );
                })
        ]
      ]

  unowned-sum : (l : List Info) → reported (map unowned l) ≡ sum_of f l
  unowned-sum [] = refl
  unowned-sum (i ∷ l) = omega (arith, unowned-sum l)

  finish-sum :
      (infos : Dict ℕ Info) (w : Walk)
      → Keeps infos w
      → (finish w).1 ≡ none
      → reported (finish w).0 ≡ sum_of f (values infos)
  finish-sum infos (cs, left, some ex) k e = absurd (none-ne-some ex (sym e))
  finish-sum infos (cs, left, none) k e = omega (
    arith,
    k.total,
    unowned-sum (values left),
    sum-append (λ (c : Connection). f c.info) cs (map unowned (values left)),
  )

infos_of-NodupKeys :
    (rows : List (Info × ℕ)) (infos : Dict ℕ Info)
    → NodupKeys infos
    → NodupKeys (infos_of rows infos)
unfolding infos_of
infos_of-NodupKeys [] infos u = u
infos_of-NodupKeys ((info, inode) ∷ rows) infos u =
    infos_of-NodupKeys rows (insert inode info infos) (insert-NodupKeys inode info infos u)

-- If `net_connections` ends without an exception, it reports the last socket of each inode that
-- stands in the tables exactly once, with a process or without, and nothing else: for any number
-- attached to sockets, the sum over the connections is the sum over the rows behind which no row has
-- the same inode.
pub net_connections-sum_of :
    (f : Info → ℕ) (procs : List (ℕ × Result FdEntries)) (rows : List (Info × ℕ))
    → (net_connections procs (rows, none)).1 ≡ none
    → sum_of (λ (c : Connection). f c.info) (net_connections procs (rows, none)).0
      ≡ sum_of f (last_rows rows)
unfolding net_connections
net_connections-sum_of f procs rows e =
    let kept = infos_of-last_rows f rows [] tt in
    elim (Bool-cases (is_empty (infos_of rows []))) [
      | inl nothing ↦
          let held : sum_of f (values (infos_of rows [])) ≡ 0 =
            rw (is_empty-nil (infos_of rows []) nothing) refl in
          rw nothing (omega (arith, kept, held))
      | inr some' ↦ rw some' (
          let found =
            finish-sum f (infos_of rows []) (walk_all procs (infos_of rows []))
              (walk_all-Keeps f procs (infos_of rows []) (infos_of-NodupKeys rows [] tt))
              (rw some' at e) in
          omega (arith, kept, found))
    ]

abbrev pub two_rows : Info → Info → ℕ → List (Info × ℕ)
two_rows a b inode = (a, inode) ∷ (b, inode) ∷ []
