-- ===== src/Tests/Figures.antt =====
-- The theorems on the figures of processors and memory, at concrete inputs.
use mathlib.Core.Bool.{false≢true}
use pypsutil.Prelude.{
  Bool, true, false, not, every, is_empty, and_true, ◌==◌, All, ℕ, ◌+◌, ◌≤◌, ◌≡◌, refl, ◌↔◌, In,
  Option, none, some, List, [], ◌∷◌, ◌++◌, map, arith, length,
}
use pypsutil.Prelude.Int.{pos}
use pypsutil.Prelude.Exn.{ok}
use pypsutil.Prelude.Text.{Text, codes, is_space, Lacks, parse_int}
use pypsutil.Linux.CpuInfo.{cpuinfo_entry, physical_cpu_count}
use pypsutil.Linux.CpuInfo.Count.{
  Processor, blocks_of, core_ids, Distinct, physical_cpu_count-Distinct,
}
use pypsutil.Linux.Meminfo.{virtual_memory, virtual_memory_total}
use pypsutil.Linux.Meminfo.Lines.{Line, line_text, IsLine, virtual_memory-lines}

-- Three processors on two cores.
abbrev cpuinfo : List Text
cpuinfo =
    codes "physical id\t: 0\n"
    ∷ codes "core id\t\t: 1\n"
    ∷ codes "\n"
    ∷ codes "physical id\t: 0\n"
    ∷ codes "core id\t\t: 1\n"
    ∷ codes "\n"
    ∷ codes "physical id\t: 0\n"
    ∷ codes "core id\t\t: 2\n"
    ∷ codes "\n"
    ∷ []

abbrev processor : Text → Processor
processor core =
    ((codes "physical id", codes "0") ∷ (codes "core id", core) ∷ [], (codes "0", core))

abbrev three : List Processor
three = processor (codes "1") ∷ processor (codes "1") ∷ processor (codes "2") ∷ []

is_read : map cpuinfo_entry cpuinfo ≡ blocks_of three
unfolding cpuinfo_entry pypsutil.Prelude.Text.cut_at pypsutil.Prelude.Text.strip
is_read = refl

physical_cpu_count-Distinct_example :
    (cs : List (Text × Text)) × (physical_cpu_count (ok cpuinfo) ≡ ok (some (length cs)))
    × Distinct cs
    × ((c : Text × Text) → In c cs ↔ In c (core_ids three))
physical_cpu_count-Distinct_example =
    physical_cpu_count-Distinct cpuinfo three is_read
      (
        ((refl, (refl, tt)), refl, refl),
        (((refl, (refl, tt)), refl, refl), (((refl, (refl, tt)), refl, refl), tt)),
      )
      (omega arith)

abbrev kilobytes : Text → Text → ℕ → Line
kilobytes name digits n = Line.figure name (32 ∷ 32 ∷ []) digits n

abbrev meminfo : List Line
meminfo =
    kilobytes (codes "MemTotal") (codes "100") 100
    ∷ kilobytes (codes "MemFree") (codes "20") 20
    ∷ kilobytes (codes "MemAvailable") (codes "60") 60
    ∷ kilobytes (codes "Buffers") (codes "5") 5
    ∷ kilobytes (codes "Cached") (codes "30") 30
    ∷ kilobytes (codes "Active") (codes "1") 1
    ∷ kilobytes (codes "Inactive") (codes "2") 2
    ∷ kilobytes (codes "Shmem") (codes "3") 3
    ∷ kilobytes (codes "Slab") (codes "4") 4
    ∷ Line.count (codes "HugePages_Total:  0\n")
    ∷ []

-- Lines of the file, as tests that compute.
is_figure :
    (name digits : Text) (n : ℕ)
    → every (λ c. not (c == 58)) name ≡ true
    → every (λ c. not (is_space c)) name ≡ true
    → every (λ c. not (is_space c)) digits ≡ true
    → is_empty digits ≡ false
    → parse_int 10 digits ≡ some n
    → IsLine (kilobytes name digits n)
is_figure name digits n no_colon clean clean' some_digit read = (
  lacks name no_colon,
  (named name, dark (name ++ 58 ∷ []) (ends name clean)),
  ((refl, (refl, (refl, tt))), (some_digit, dark digits clean')),
  read,
)
  where
    lacks : (s : Text) → every (λ c. not (c == 58)) s ≡ true → Lacks 58 s
    lacks [] h = tt
    lacks (c ∷ s) h =
        let both = and_true (not (c == 58)) (every (λ d. not (d == 58)) s) h in
        (ground (arith, both.0), lacks s both.1)

    named : (s : Text) → is_empty (s ++ 58 ∷ []) ≡ false
    named [] = refl
    named (c ∷ s) = refl

    ends :
        (s : Text)
        → every (λ c. not (is_space c)) s ≡ true
        → every (λ c. not (is_space c)) (s ++ 58 ∷ []) ≡ true
    ends [] h = refl
    ends (c ∷ s) h =
        let both = and_true (not (is_space c)) (every (λ d. not (is_space d)) s) h in
        rw (both.0, ends s both.1) refl

    light : (b : Bool) → not b ≡ true → b ≡ false
    light true h = absurd (false≢true h)
    light false h = refl

    dark : (s : Text) → every (λ c. not (is_space c)) s ≡ true → All (λ c. is_space c ≡ false) s
    dark [] h = tt
    dark (c ∷ s) h =
        let both = and_true (not (is_space c)) (every (λ d. not (is_space d)) s) h in
        (light (is_space c) both.0, dark s both.1)

are_lines : All IsLine meminfo
unfolding pypsutil.Prelude.Text.parse_int pypsutil.Prelude.Text.ends_with
    pypsutil.Prelude.Text.strip
are_lines = (
  is_figure (codes "MemTotal") (codes "100") 100 refl refl refl refl refl,
  (
    is_figure (codes "MemFree") (codes "20") 20 refl refl refl refl refl,
    (
      is_figure (codes "MemAvailable") (codes "60") 60 refl refl refl refl refl,
      (
        is_figure (codes "Buffers") (codes "5") 5 refl refl refl refl refl,
        (
          is_figure (codes "Cached") (codes "30") 30 refl refl refl refl refl,
          (
            is_figure (codes "Active") (codes "1") 1 refl refl refl refl refl,
            (
              is_figure (codes "Inactive") (codes "2") 2 refl refl refl refl refl,
              (
                is_figure (codes "Shmem") (codes "3") 3 refl refl refl refl refl,
                (is_figure (codes "Slab") (codes "4") 4 refl refl refl refl refl, (refl, tt)),
              ),
            ),
          ),
        ),
      ),
    ),
  ),
)

virtual_memory-lines_example :
    (virtual_memory_total (map line_text meminfo) ≡ ok 102400)
    × (virtual_memory (map line_text meminfo)
        ≡ ok (record {
          total = 102400;
          available = 61440;
          used = pos 46080;
          free = 20480;
          active = 1024;
          inactive = 2048;
          buffers = 5120;
          cached = 30720;
          shared = 3072;
          slab = 4096;
        }))
virtual_memory-lines_example =
    virtual_memory-lines meminfo 100 60 20 1 2 5 30 3 4 are_lines refl refl refl refl refl refl refl
      refl refl
