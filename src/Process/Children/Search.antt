-- ===== src/Process/Children/Search.antt =====
-- The search of `children` on PIDs ends and finds what lies below the root.
use mathlib.Core.Bool.{false≢true}
use pypsutil.Prelude.{
  ap, In, is_empty, or_true, and_true, ==_refl, ◌↔◌, ℕ, zero, suc, ◌+◌, ◌≤◌, ◌<◌, ◌≡◌, refl, sym,
  ◌∙◌, ◌⊎◌, inl, inr, Bool, true, false, ◌||◌, some, List, [], ◌∷◌, arith, ==_iff, if◌then◌else◌,
  Bool-cases, contains, length,
}
use pypsutil.Process.Children.Pids.{
  Parents, below, collect_pids, pid_loop, contains-collect_found, contains-collect_new,
  contains-below, below-contains, Descends,
}
use pypsutil.Process.Children.Pids.Descends.{child, deeper}

module _ (rows : Parents) (root : ℕ) where
  -- What is found lies below the root, and what is searched for is the root or lies below it.
  record Sound (search found : List ℕ) : Type 0 where
    searched : (x : ℕ) → contains x search ≡ true → (x ≡ root) ⊎ Descends rows root x
    found_below : (x : ℕ) → contains x found ≡ true → Descends rows root x

  -- The children of the root and of all that is found are found, but for those still searched for.
  abbrev Closed : List ℕ → List ℕ → Type 0
  Closed search found =
      (pid ppid : ℕ)
      → In (pid, ppid) rows
      → (ppid ≡ root) ⊎ (contains ppid found ≡ true)
      → (contains ppid search ≡ true) ⊎ (contains pid found ≡ true)

  round-Sound :
      (search found : List ℕ)
      → Sound search found
      → let (found', new) = collect_pids (below search rows) found [] in Sound new found'
  round-Sound search found s = record {
    searched = λ x m.
        inr (new_below x (ground (arith, contains-collect_new x (below search rows) found [], m)));
    found_below = λ x m.
        elim (or_true _ _ (sym (contains-collect_found x (below search rows) found []) ∙ m)) [
          | inl old ↦ s.found_below x old
          | inr new ↦ new_below x new
        ];
  }
    where
      new_below : (x : ℕ) → contains x (below search rows) ≡ true → Descends rows root x
      new_below x m =
          let (ppid, listed, wanted) = contains-below x search rows m in
          elim (s.searched ppid wanted) [
            | inl at_root ↦ child (rw at_root at listed)
            | inr lower ↦ deeper lower listed
          ]

  round-Closed :
      (search found : List ℕ)
      → Closed search found
      → let (found', new) = collect_pids (below search rows) found [] in Closed new found'
  round-Closed search found c pid ppid listed reach =
      let new_is = contains-collect_new ppid (below search rows) found [] in
      let parent_is = contains-collect_found ppid (below search rows) found [] in
      let child_is = contains-collect_found pid (below search rows) found [] in
      let from_old : (ppid ≡ root) ⊎ (contains ppid found ≡ true)
          → contains pid (collect_pids (below search rows) found []).0 ≡ true =
        λ old. elim (c pid ppid listed old) [
          | inl wanted ↦ ground (arith, child_is, below-contains pid ppid search rows listed wanted)
          | inr there ↦ ground (arith, child_is, there)
        ] in
      elim reach [
        | inl at_root ↦ inr (from_old (inl at_root))
        | inr found_now ↦ elim (Bool-cases (contains ppid found)) [
          | inl old ↦ inr (from_old (inr old))
          | inr fresh ↦ inl (ground (arith, new_is, parent_is, found_now, fresh))
        ]
      ]

  Closed-complete :
      (found : List ℕ) → Closed [] found → (x : ℕ) → Descends rows root x → contains x found ≡ true
  Closed-complete found c x (child listed) = elim (c x root listed (inl refl)) [
    | inl impossible ↦ absurd (false≢true impossible)
    | inr there ↦ there
  ]
  Closed-complete found c x (deeper {ppid = p} d listed) =
      elim (c x p listed (inr (Closed-complete found c p d))) [
        | inl impossible ↦ absurd (false≢true impossible)
        | inr there ↦ there
      ]

-- The listed processes that are not found yet.
abbrev missing : List ℕ → Parents → ℕ
missing found [] = 0
missing found ((pid, _) ∷ rows) = (if contains pid found then 0 else 1) + missing found rows

abbrev Grows : List ℕ → List ℕ → Type 0
Grows found found' = (x : ℕ) → contains x found ≡ true → contains x found' ≡ true

missing-le :
    (found found' : List ℕ) (rows : Parents)
    → Grows found found'
    → missing found' rows ≤ missing found rows
missing-le found found' [] g = omega arith
missing-le found found' ((pid, p) ∷ rows) g = ground (arith, g pid, missing-le found found' rows g)

missing-lt :
    (found found' : List ℕ) (rows : Parents) (x ppid : ℕ)
    → Grows found found'
    → In (x, ppid) rows
    → contains x found ≡ false
    → contains x found' ≡ true
    → missing found' rows < missing found rows
missing-lt found found' [] x ppid g m old new = elim m [ ]
missing-lt found found' ((pid, p) ∷ rows) x ppid g (inl e) old new =
    let first : x ≡ pid = ap (λ (r : ℕ × ℕ). r.0) e in
    ground (arith, rw first at old, rw first at new, missing-le found found' rows g)
missing-lt found found' ((pid, p) ∷ rows) x ppid g (inr m) old new =
    ground (arith, g pid, missing-lt found found' rows x ppid g m old new)

missing-le-length : (found : List ℕ) (rows : Parents) → missing found rows ≤ length rows
missing-le-length found [] = omega arith
missing-le-length found ((pid, p) ∷ rows) = ground (arith, missing-le-length found rows)

head_of : (l : List ℕ) → is_empty l ≡ false → (x : ℕ) × (contains x l ≡ true)
head_of [] h = absurd (false≢true (sym h))
head_of (x ∷ l) h = (x, rw (==_refl x))

is_empty-eq : (l : List ℕ) → is_empty l ≡ true → l ≡ []
is_empty-eq [] h = refl
is_empty-eq (x ∷ l) h = absurd (false≢true h)

round_missing :
    (rows : Parents) (search found : List ℕ)
    → let (found', new) = collect_pids (below search rows) found [] in
      is_empty new ≡ false → missing found' rows < missing found rows
round_missing rows search found more =
    let pids = below search rows in
    let (x, fresh) = head_of (collect_pids pids found []).1 more in
    let parts = and_true _ _ (sym (contains-collect_new x pids found []) ∙ fresh) in
    let (ppid, listed, wanted) = contains-below x search rows parts.0 in
    missing-lt found (collect_pids pids found []).0 rows x ppid
      (λ y m. ground (arith, contains-collect_found y pids found [], m)) listed
      (ground (arith, parts.1)) (ground (arith, contains-collect_found x pids found [], parts.0))

-- With more rounds than processes to find the search ends, and what it has found is exactly what
-- lies below the root.
pid_loop-Descends :
    (rows : Parents) (root fuel : ℕ) (search found : List ℕ)
    → missing found rows < fuel
    → Sound rows root search found
    → Closed rows root search found
    → (l : List ℕ) × (pid_loop fuel rows search found ≡ some l)
      × ((x : ℕ) → (contains x l ≡ true) ↔ Descends rows root x)
unfolding pid_loop
pid_loop-Descends rows root zero search found h s c = absurd (omega arith)
pid_loop-Descends rows root (suc fuel) search found h s c =
    let (found', new) = collect_pids (below search rows) found [] in
    let s' = round-Sound rows root search found s in
    let c' = round-Closed rows root search found c in
    elim (Bool-cases (is_empty new)) [
      | inl done ↦ (
        found',
        rw done,
        λ x. (
          s'.found_below x,
          Closed-complete rows root found' (rw (is_empty-eq new done) at c') x,
        ),
      )
      | inr more ↦
          let (l, e, both) =
            pid_loop-Descends rows root fuel new found'
              (omega (arith, round_missing rows search found more)) s' c' in
          (l, rw more e, both)
    ]

-- From the root alone, one round more than there are processes is enough.
pub pid_search :
    (rows : Parents) (root fuel : ℕ)
    → length rows < fuel
    → (l : List ℕ) × (pid_loop fuel rows (root ∷ []) [] ≡ some l)
      × ((x : ℕ) → (contains x l ≡ true) ↔ Descends rows root x)
pid_search rows root fuel h =
    pid_loop-Descends rows root fuel (root ∷ []) [] (omega (arith, missing-le-length [] rows, h))
      (record {
        searched = λ x m. inl ((==_iff x root).0 (or_false _ m));
        found_below = λ x m. absurd (false≢true m);
      })
      (λ pid ppid listed reach. elim reach [
        | inl at_root ↦ inl (rw ((==_iff ppid root).1 at_root))
        | inr impossible ↦ absurd (false≢true impossible)
      ])
  where
    or_false : (b : Bool) → (b || false) ≡ true → b ≡ true
    or_false b e = ground arith
