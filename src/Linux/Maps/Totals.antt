-- ===== src/Linux/Maps/Totals.antt =====
-- Grouping memory maps by path loses nothing.
use mathlib.Core.Bool.{false≢true}
use pypsutil.Prelude.{
  ℕ, ◌+◌, ◌*◌, ◌≡◌, refl, sym, ap, ◌∙◌, inl, inr, true, false, List, [], ◌∷◌, arith, if◌then◌else◌,
  Bool-cases, keep, any, map, In, is_empty,
}
use pypsutil.Prelude.Exn.{ok}
use pypsutil.Prelude.Text.{Text, text_eq, text_eq_iff}
use pypsutil.Linux.Maps.{
  SizeName, ProcessMemoryMap, ProcessMemoryMapGrouped, sum_of, group_memory_maps, set_of,
  group_each, memory_maps_grouped,
}

abbrev paths_of : List ProcessMemoryMap → List Text
paths_of maps = map (λ (m : ProcessMemoryMap). m.path) maps

abbrev with_path : Text → List ProcessMemoryMap → List ProcessMemoryMap
with_path path maps = keep (λ (m : ProcessMemoryMap). text_eq path m.path) maps

-- How often a path is listed.
abbrev pub count : Text → List Text → ℕ
count p [] = 0
count p (q ∷ qs) = (if text_eq q p then 1 else 0) + count p qs

any_cong : (p q : Text) (l : List Text) → text_eq q p ≡ true → any (text_eq p) l ≡ any (text_eq q) l
any_cong p q l e = let same : q ≡ p = (text_eq_iff q p).0 e in rw same

text_eq_sym : (p q : Text) → text_eq p q ≡ text_eq q p
text_eq_sym p q = elim (Bool-cases (text_eq q p)) [
  | inl e ↦ let same : q ≡ p = (text_eq_iff q p).0 e in rw same
  | inr e ↦ elim (Bool-cases (text_eq p q)) [
    | inl f ↦ absurd (false≢true (sym e ∙ (text_eq_iff q p).1 (sym ((text_eq_iff p q).0 f))))
    | inr f ↦ f ∙ sym e
  ]
]

count-set_of :
    (p : Text) (l : List Text) → count p (set_of l) ≡ (if any (text_eq p) l then 1 else 0)
count-set_of p [] = refl
count-set_of p (q ∷ l) = elim (Bool-cases (text_eq q p)) [
  | inl same ↦ ground (arith, count-set_of p l, any_cong p q l same, text_eq_sym p q)
  | inr other ↦ ground (arith, count-set_of p l, text_eq_sym p q)
]

sum_each : (ProcessMemoryMap → ℕ) → List Text → List ProcessMemoryMap → ℕ
sum_each f [] maps = 0
sum_each f (p ∷ ps) maps = sum_of f (with_path p maps) + sum_each f ps maps

sum_each-nil : (f : ProcessMemoryMap → ℕ) (ps : List Text) → sum_each f ps [] ≡ 0
unfolding sum_each
sum_each-nil f [] = refl
sum_each-nil f (p ∷ ps) = omega (arith, sum_each-nil f ps)

sum_each-count :
    (f : ProcessMemoryMap → ℕ) (ps : List Text) (m : ProcessMemoryMap)
    (maps : List ProcessMemoryMap)
    → sum_each f ps (m ∷ maps) ≡ count m.path ps * f m + sum_each f ps maps
unfolding sum_each
sum_each-count f [] m maps = ground arith
sum_each-count f (p ∷ ps) m maps = elim (Bool-cases (text_eq p m.path)) [
  | inl same ↦ rw same (one_more (f m) (count m.path ps) _ _ _ (sum_each-count f ps m maps))
  | inr other ↦ rw other (one_less (f m) (count m.path ps) _ _ _ (sum_each-count f ps m maps))
]
  where
    one_more : (x k a b c : ℕ) → b ≡ k * x + c → (x + a) + b ≡ (1 + k) * x + (a + c)
    one_more x k a b c e = rw e (ground arith)

    one_less : (x k a b c : ℕ) → b ≡ k * x + c → a + b ≡ (0 + k) * x + (a + c)
    one_less x k a b c e = rw e (ground arith)

sum_each-sum_of :
    (f : ProcessMemoryMap → ℕ) (ps : List Text) (maps : List ProcessMemoryMap)
    → ((m : ProcessMemoryMap) → In m maps → count m.path ps ≡ 1)
    → sum_each f ps maps ≡ sum_of f maps
sum_each-sum_of f ps [] once = sum_each-nil f ps
sum_each-sum_of f ps (m ∷ maps) once =
    rw
      (
        sum_each-count f ps m maps,
        once m (inl refl),
        sum_each-sum_of f ps maps (λ k h. once k (inr h)),
      )
      (omega arith)

path_listed :
    (m : ProcessMemoryMap) (maps : List ProcessMemoryMap)
    → In m maps
    → any (text_eq m.path) (paths_of maps) ≡ true
path_listed m [] h = elim h [ ]
path_listed m (k ∷ maps) (inl e) =
    let same : m.path ≡ k.path = ap (λ (x : ProcessMemoryMap). x.path) e in
    rw ((text_eq_iff m.path k.path).1 same)
path_listed m (k ∷ maps) (inr h) = ground (arith, path_listed m maps h)

In-set_of : (p : Text) (l : List Text) → In p (set_of l) → In p l
In-set_of p [] h = h
In-set_of p (q ∷ l) h = elim (Bool-cases (any (text_eq q) l)) [
  | inl again ↦ inr (In-set_of p l (rw again at h))
  | inr new ↦ elim (rw new at h) [ inl e ↦ inl e | inr later ↦ inr (In-set_of p l later) ]
]

with_path-full :
    (p : Text) (maps : List ProcessMemoryMap)
    → In p (paths_of maps)
    → is_empty (with_path p maps) ≡ false
with_path-full p [] h = elim h [ ]
with_path-full p (m ∷ maps) h = elim (Bool-cases (text_eq p m.path)) [
  | inl e ↦ rw e
  | inr e ↦ elim h [
    | inl same ↦ absurd (false≢true (sym e ∙ (text_eq_iff p m.path).1 same))
    | inr later ↦ rw e (with_path-full p maps later)
  ]
]

-- The groups of some paths, all with a map.
record Grouped (ps : List Text) (maps : List ProcessMemoryMap) : Type 0 where
  groups : List ProcessMemoryMapGrouped
  ran : group_each ps maps ≡ ok groups
  kept :
      (n : SizeName)
      → sum_of (λ (g : ProcessMemoryMapGrouped). g.sizes n) groups
        ≡ sum_each (λ m. m.sizes n) ps maps

group_memory_maps-full :
    (maps : List ProcessMemoryMap)
    → is_empty maps ≡ false
    → (g : ProcessMemoryMapGrouped) × (group_memory_maps maps ≡ ok g)
      × ((n : SizeName) → g.sizes n ≡ sum_of (λ (m : ProcessMemoryMap). m.sizes n) maps)
unfolding group_memory_maps
group_memory_maps-full [] h = absurd (false≢true (sym h))
group_memory_maps-full (m ∷ maps) h = (_, refl, λ n. refl)

group_each-Grouped :
    (ps : List Text) (maps : List ProcessMemoryMap)
    → ((p : Text) → In p ps → is_empty (with_path p maps) ≡ false)
    → Grouped ps maps
unfolding group_each sum_each
group_each-Grouped [] maps full = record { groups = []; ran = refl; kept = λ n. refl }
group_each-Grouped (p ∷ ps) maps full =
    let (g, made, sums) = group_memory_maps-full (with_path p maps) (full p (inl refl)) in
    let rest = group_each-Grouped ps maps (λ q h. full q (inr h)) in
    record {
      groups = g ∷ rest.groups;
      ran = rw (made, rest.ran);
      kept = λ n. omega (arith, sums n, rest.kept n);
    }

-- Grouping by path succeeds, and for each of the ten sizes the groups add up to what the maps add up
-- to: every map is counted in exactly one group.
pub memory_maps_grouped-sum_of :
    (maps : List ProcessMemoryMap)
    → (groups : List ProcessMemoryMapGrouped) × (memory_maps_grouped maps ≡ ok groups)
      × ((n : SizeName)
          → sum_of (λ (g : ProcessMemoryMapGrouped). g.sizes n) groups
            ≡ sum_of (λ (m : ProcessMemoryMap). m.sizes n) maps)
unfolding memory_maps_grouped
memory_maps_grouped-sum_of maps =
    let ps = set_of (paths_of maps) in
    let all =
      group_each-Grouped ps maps (λ p h. with_path-full p maps (In-set_of p (paths_of maps) h)) in
    (
      all.groups,
      all.ran,
      λ n.
          all.kept n
          ∙ sum_each-sum_of (λ m. m.sizes n) ps maps
              (λ m h. count-set_of m.path (paths_of maps) ∙ rw (path_listed m maps h)),
    )
