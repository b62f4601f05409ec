-- ===== src/Linux/Sockets/Found.antt =====
-- What `proc_connections` finds.
use mathlib.Core.Bool.{false≢true}
use pypsutil.Prelude.{
  ℕ, ◌≡◌, refl, sym, ◌∙◌, inl, inr, true, false, Option, none, some, List, [], ◌∷◌, ◌==◌,
  Bool-cases, Option-cases, is_empty, nat_eq,
}
use pypsutil.Prelude.Exn.{Exn}
use pypsutil.Prelude.Dict.{Dict, lookup, erase, lookup-erase}
use pypsutil.Linux.Sockets.{Info}
use pypsutil.Linux.Sockets.Join.{Connection, join}

-- The sockets of the table that the process has, in the order of the table.
abbrev pub owned : ℕ → List (Info × ℕ) → Dict ℕ ℕ → List Connection
owned pid [] fds = []
owned pid ((info, inode) ∷ rows) fds = elim (lookup inode fds) [
  | none ↦ owned pid rows fds
  | some fd ↦ record { fd = some fd; pid = some pid; info = info } ∷ owned pid rows fds
]

-- The inode does not stand in the table.
abbrev pub Absent : ℕ → List (Info × ℕ) → Type 0
Absent inode [] = Unit
Absent inode ((info, i) ∷ rows) = ((i == inode) ≡ false) × Absent inode rows

-- No inode stands twice in the table.
abbrev pub Distinct : List (Info × ℕ) → Type 0
Distinct [] = Unit
Distinct ((info, inode) ∷ rows) = Absent inode rows × Distinct rows

owned-erase :
    (pid inode : ℕ) (rows : List (Info × ℕ)) (fds : Dict ℕ ℕ)
    → Absent inode rows
    → owned pid rows (erase inode fds) ≡ owned pid rows fds
owned-erase pid inode [] fds h = refl
owned-erase pid inode ((info, i) ∷ rows) fds (other, h) =
    let ih = owned-erase pid inode rows fds h in
    let same : lookup i (erase inode fds) ≡ lookup i fds =
      lookup-erase i inode fds ∙ rw other refl in
    elim (Option-cases (lookup i fds)) [
      | inl e ↦ rw (same ∙ e, e, owned) ih
      | inr (fd, e) ↦ rw (same ∙ e, e, owned) (rw ih)
    ]

owned-nil : (pid : ℕ) (rows : List (Info × ℕ)) → owned pid rows [] ≡ []
owned-nil pid [] = refl
owned-nil pid ((info, i) ∷ rows) = owned-nil pid rows

is_empty-nil : (d : Dict ℕ ℕ) → is_empty d ≡ true → d ≡ []
is_empty-nil [] h = refl
is_empty-nil (x ∷ d) h = absurd (false≢true h)

-- On a table in which no inode stands twice, the loop of `proc_connections` yields one connection for
-- every socket of the table that the process has, in the order of the table and with its descriptor,
-- although it stops once all descriptors are found.
pub join-owned :
    (pid : ℕ) (rows : List (Info × ℕ)) (ended : Option Exn) (fds : Dict ℕ ℕ)
    → Distinct rows
    → (join pid rows ended fds).0 ≡ owned pid rows fds
unfolding join
join-owned pid [] ended fds h = refl
join-owned pid ((info, inode) ∷ rows) ended fds (once, h) = elim (Option-cases (lookup inode fds)) [
  | inl e ↦ rw (e, join, owned) (join-owned pid rows ended fds h)
  | inr (fd, e) ↦
      let skip = owned-erase pid inode rows fds once in
      elim (Bool-cases (is_empty (erase inode fds))) [
        | inl last ↦
            let nothing : owned pid rows fds ≡ [] =
              sym skip ∙ rw (is_empty-nil (erase inode fds) last) (owned-nil pid rows) in
            rw (e, last, join, owned) (rw nothing)
        | inr more ↦
            rw (e, more, join, owned) (rw (join-owned pid rows ended (erase inode fds) h, skip))
      ]
]
