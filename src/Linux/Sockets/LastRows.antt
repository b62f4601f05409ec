-- ===== src/Linux/Sockets/LastRows.antt =====
-- What the dictionary that `net_connections` makes of the tables holds, told by the rows alone.
use mathlib.Core.Option.{none-ne-some}
use pypsutil.Prelude.{
  ℕ, ◌+◌, ◌≡◌, refl, sym, ◌∙◌, inl, inr, Bool, true, false, none, List, [], ◌∷◌, arith, ◌==◌,
  ==_iff, ==_refl, Bool-cases, nat_eq, if◌then◌else◌,
}
use pypsutil.Prelude.Dict.{Dict, lookup, insert, values, NodupKeys, insert-NodupKeys}
use pypsutil.Linux.Maps.{sum_of}
use pypsutil.Linux.Sockets.{Info}
use pypsutil.Linux.Sockets.Join.{infos_of}

-- Whether a row of the tables has this inode.
abbrev pub has_inode : ℕ → List (Info × ℕ) → Bool
has_inode inode [] = false
has_inode inode ((_, i) ∷ rows) = if inode == i then true else has_inode inode rows

-- The sockets of the rows behind which no row has the same inode.
abbrev pub last_rows : List (Info × ℕ) → List Info
last_rows [] = []
last_rows ((info, inode) ∷ rows) =
    if has_inode inode rows then last_rows rows else info ∷ last_rows rows

module _ (f : Info → ℕ) where
  -- The sum over what a dictionary holds of inodes that stand in no row.
  abbrev pub untouched : List (Info × ℕ) → Dict ℕ Info → ℕ
  untouched rows [] = 0
  untouched rows ((inode, info) ∷ infos) =
      (if has_inode inode rows then 0 else f info) + untouched rows infos

  untouched-absent :
      (row : Info × ℕ) (rows : List (Info × ℕ)) (infos : Dict ℕ Info)
      → lookup row.1 infos ≡ none
      → untouched (row ∷ rows) infos ≡ untouched rows infos
  untouched-absent row rows [] h = refl
  untouched-absent (a, inode) rows ((i, v) ∷ infos) h = elim (Bool-cases (inode == i)) [
    | inl e ↦ absurd (none-ne-some v (sym h ∙ rw e))
    | inr e ↦
        let other : (i == inode) ≡ false = ground (arith, e) in
        rw (other, untouched-absent (a, inode) rows infos (rw e at h))
  ]

  untouched-insert :
      (info : Info) (inode : ℕ) (rows : List (Info × ℕ)) (infos : Dict ℕ Info)
      → NodupKeys infos
      → untouched rows (insert inode info infos)
        ≡ (if has_inode inode rows then 0 else f info) + untouched ((info, inode) ∷ rows) infos
  untouched-insert info inode rows [] u = refl
  untouched-insert info inode rows ((i, v) ∷ infos) (new, u) = elim (Bool-cases (inode == i)) [
    | inl e ↦
        let same : inode ≡ i = (==_iff inode i).0 e in
        rw
          (e, ← same, ==_refl inode, untouched-absent (info, inode) rows infos (rw (← same) at new))
          (omega arith)
    | inr e ↦
        let other : (i == inode) ≡ false = ground (arith, e) in
        rw (e, other) (omega (arith, untouched-insert info inode rows infos u))
  ]

  pub infos_of-last_rows :
      (rows : List (Info × ℕ)) (infos : Dict ℕ Info)
      → NodupKeys infos
      → sum_of f (values (infos_of rows infos)) ≡ sum_of f (last_rows rows) + untouched rows infos
  unfolding infos_of
  infos_of-last_rows [] infos u = omega (arith, all_untouched infos)
    where
      all_untouched : (d : Dict ℕ Info) → sum_of f (values d) ≡ untouched [] d
      all_untouched [] = refl
      all_untouched ((i, v) ∷ d) = omega (arith, all_untouched d)
  infos_of-last_rows ((info, inode) ∷ rows) infos u =
      let ih =
        infos_of-last_rows rows (insert inode info infos) (insert-NodupKeys inode info infos u) in
      let moved = untouched-insert info inode rows infos u in
      elim (Bool-cases (has_inode inode rows)) [
        | inl again ↦ rw again (omega (arith, ih, rw again at moved))
        | inr last ↦ rw last (omega (arith, ih, rw last at moved))
      ]
