-- ===== src/Linux/CpuInfo/Count.antt =====
-- How many cores `physical_cpu_count` of pypsutil/_pslinux.py counts.
use mathlib.Core.Bool.{false≢true}
use mathlib.Core.Option.{none-ne-some}
use mathlib.Core.Path.{subst, ap₂}
use pypsutil.Prelude.{
  ◌<◌, ◌≡◌, refl, sym, ap, ◌∙◌, ◌↔◌, inl, inr, true, false, some, List, [], ◌∷◌, ◌++◌, length,
  is_empty, map, any, arith, Bool-cases, All, In, and_true,
}
use pypsutil.Prelude.Dict.{lookup, insert}
use pypsutil.Prelude.Exn.{ok, ◌>>=◌}
use pypsutil.Prelude.Text.{Text, codes, text_keys, text_eq, text_eq_iff}
use pypsutil.Linux.CpuInfo.{
  CpuEntry, cpuinfo_entry, cpu_infos, core_of, same_core, cores, count_of, physical_cpu_count,
  no_count,
}

-- The entries of one processor, with names, and the dictionary that they make.
abbrev IsNamed : Text × Text → Type 0
IsNamed (name, value) = is_empty name ≡ false

abbrev pub insert_all : List (Text × Text) → CpuEntry → CpuEntry
insert_all [] cur = cur
insert_all ((name, value) ∷ entries) cur = insert_all entries (insert name value cur)

-- A processor: its entries, and the two numbers of its core that they end up with.
abbrev pub Processor : Type 0
Processor = List (Text × Text) × (Text × Text)

abbrev pub IsProcessor : Processor → Type 0
IsProcessor (block, c) =
    All IsNamed block
    × (lookup (codes "physical id") (insert_all block []) ≡ some c.0)
    × (lookup (codes "core id") (insert_all block []) ≡ some c.1)

-- The entries of processors, each with an entry without a name behind it, as a line without a colon
-- gives it.
abbrev pub blocks_of : List Processor → List (Text × Text)
blocks_of [] = []
blocks_of ((block, c) ∷ processors) = block ++ (([], []) ∷ blocks_of processors)

abbrev pub core_ids : List Processor → List (Text × Text)
core_ids processors = map (λ p. p.1) processors

abbrev infos_of : List Processor → List CpuEntry
infos_of processors = map (λ p. insert_all p.0 []) processors

-- No pair stands twice.
abbrev pub Distinct : List (Text × Text) → Type 0
Distinct [] = Unit
Distinct (c ∷ cs) = ¬ In c cs × Distinct cs

cpu_infos-append :
    (block rest : List (Text × Text)) (cur : CpuEntry)
    → All IsNamed block
    → cpu_infos (block ++ rest) cur ≡ cpu_infos rest (insert_all block cur)
unfolding cpu_infos
cpu_infos-append [] rest cur h = refl
cpu_infos-append ((name, value) ∷ block) rest cur (hn, h) =
    rw hn (cpu_infos-append block rest (insert name value cur) h)

has_entries : (info : CpuEntry) (k v : Text) → lookup k info ≡ some v → is_empty info ≡ false
has_entries [] k v h = absurd (none-ne-some v h)
has_entries (e ∷ info) k v h = refl

cpu_infos-blocks_of :
    (processors : List Processor)
    → All IsProcessor processors
    → cpu_infos (blocks_of processors) [] ≡ infos_of processors
unfolding cpu_infos
cpu_infos-blocks_of [] h = refl
cpu_infos-blocks_of ((block, c) ∷ processors) ((named, physical, core), h) =
    let full = has_entries (insert_all block []) (codes "physical id") c.0 physical in
    cpu_infos-append block (([], []) ∷ blocks_of processors) [] named
    ∙ rw full (ap (λ infos. insert_all block [] ∷ infos) (cpu_infos-blocks_of processors h))

same_core_iff : (c d : Text × Text) → (same_core c d ≡ true) ↔ (c ≡ d)
same_core_iff (a, b) (c, d) = (
  (λ e.
      let both = and_true (text_eq a c) (text_eq b d) e in
      ap₂ (λ (x y : Text). (x, y)) ((text_eq_iff a c).0 both.0) ((text_eq_iff b d).0 both.1)),
  (λ e. rw ((text_eq_iff a c).1 (ap (λ p. p.0) e), (text_eq_iff b d).1 (ap (λ p. p.1) e)) refl),
)

any_same-In : (c : Text × Text) (cs : List (Text × Text)) → any (same_core c) cs ≡ true → In c cs
any_same-In c [] h = absurd (false≢true h)
any_same-In c (d ∷ cs) h = elim (Bool-cases (same_core c d)) [
  | inl e ↦ inl ((same_core_iff c d).0 e)
  | inr e ↦ inr (any_same-In c cs (rw e at h))
]

In-any_same : (c : Text × Text) (cs : List (Text × Text)) → In c cs → any (same_core c) cs ≡ true
In-any_same c [] h = absurd h
In-any_same c (d ∷ cs) (inl e) = rw ((same_core_iff c d).1 e) refl
In-any_same c (d ∷ cs) (inr h) = rw (In-any_same c cs h) (ground arith)

core_of_ok :
    (info : CpuEntry) (a b : Text)
    → lookup (codes "physical id") info ≡ some a
    → lookup (codes "core id") info ≡ some b
    → core_of info ≡ ok (a, b)
core_of_ok info a b physical core = rw (core_of, physical, core) refl

-- A list with the same elements as another, each once.
abbrev IsSetOf : List (Text × Text) → List (Text × Text) → Type 0
IsSetOf told cs = Distinct cs × ((c : Text × Text) → In c cs ↔ In c told)

cores-IsSetOf :
    (processors : List Processor)
    → All IsProcessor processors
    → (cs : List (Text × Text)) × (cores (infos_of processors) ≡ ok cs)
      × IsSetOf (core_ids processors) cs
unfolding cores
cores-IsSetOf [] h = ([], refl, (tt, λ c. ((λ i. i), (λ i. i))))
cores-IsSetOf ((block, (a, b)) ∷ processors) ((named, physical, core), h) =
    let told = core_of_ok (insert_all block []) a b physical core in
    let (cs, read, (distinct, same)) = cores-IsSetOf processors h in
    elim (Bool-cases (any (same_core (a, b)) cs)) [
      | inl seen ↦
          let there = any_same-In (a, b) cs seen in
          (
            cs,
            rw (told, read, seen) refl,
            (
              distinct,
              λ c. (
                (λ i. inr ((same c).0 i)),
                (λ i. elim i [
                  | inl e ↦ subst (λ d. In d cs) (sym e) there
                  | inr further ↦ (same c).1 further
                ]),
              ),
            ),
          )
      | inr fresh ↦ (
        (a, b) ∷ cs,
        rw (told, read, fresh) refl,
        (
          ((λ i. absurd (false≢true (sym fresh ∙ In-any_same (a, b) cs i))), distinct),
          λ c. (
            (λ i. elim i [ inl e ↦ inl e | inr further ↦ inr ((same c).0 further) ]),
            (λ i. elim i [ inl e ↦ inl e | inr further ↦ inr ((same c).1 further) ]),
          ),
        ),
      )
    ]

count_of-length :
    (processors : List Processor) (cs : List (Text × Text))
    → 0 < length processors
    → IsSetOf (core_ids processors) cs
    → count_of cs ≡ some (length cs)
count_of-length [] cs many h = absurd (omega (arith, many))
count_of-length (p ∷ processors) [] many (d, same) = absurd ((same p.1).1 (inl refl))
count_of-length (p ∷ processors) (x ∷ cs) many h = refl

-- If `/proc/cpuinfo` tells about at least one processor, in blocks of lines with names, the two
-- numbers of its core among them, and with a line without a colon behind each block, then
-- `physical_cpu_count` returns the number of different cores: the length of a list without
-- repetition that holds exactly the pairs of "physical id" and "core id" of the processors.
pub physical_cpu_count-Distinct :
    (lines : List Text) (processors : List Processor)
    → map cpuinfo_entry lines ≡ blocks_of processors
    → All IsProcessor processors
    → 0 < length processors
    → (cs : List (Text × Text)) × (physical_cpu_count (ok lines) ≡ ok (some (length cs)))
      × Distinct cs
      × ((c : Text × Text) → In c cs ↔ In c (core_ids processors))
unfolding physical_cpu_count
physical_cpu_count-Distinct lines processors entries h many =
    let infos : cpu_infos (map cpuinfo_entry lines) [] ≡ infos_of processors =
      ap (λ es. cpu_infos es []) entries ∙ cpu_infos-blocks_of processors h in
    let (cs, read, held) = cores-IsSetOf processors h in
    let number = count_of-length processors cs many held in
    (
      cs,
      ap (λ is. no_count (cores is >>= λ cs'. ok (count_of cs'))) infos ∙ rw (read, number) refl,
      held.0,
      held.1,
    )
