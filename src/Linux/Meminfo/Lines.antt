-- ===== src/Linux/Meminfo/Lines.antt =====
-- What `virtual_memory` of pypsutil/_pslinux.py reads from a file as the kernel prints it.
use mathlib.Core.Bool.{false≢true}
use mathlib.Core.List.{reverse, reverse-append, reverse-reverse}
use pypsutil.Prelude.{
  ℕ, ◌+◌, ◌-◌, ◌*◌, ◌≡◌, refl, sym, ap, ◌∙◌, inl, inr, true, false, Option, none, some, List, [],
  ◌∷◌, ◌++◌, All, if◌then◌else◌, Bool-cases, Option-cases, arith, map, take, length, append_assoc,
  length-append, take-append,
}
use pypsutil.Prelude.Int.{sub_ℕ}
use pypsutil.Prelude.Dict.{lookup, insert, lookup-insert}
use pypsutil.Prelude.Exn.{ok}
use pypsutil.Prelude.Text.{
  Text, codes, Lacks, is_space, lstrip, rstrip, strip, ends_with, starts_with, split, parse_int,
  text_eq, text_keys,
}
use pypsutil.Linux.Stat.RoundTrip.{IsWord}
use pypsutil.Linux.NetDev.Padded.{padded, IsColumn, split-padded}
use pypsutil.Linux.NetDev.Row.{rstrip_colons-append}
use pypsutil.Linux.Meminfo.{
  RawMeminfo, meminfo_line, meminfo_lines, at_name, virtual_memory, virtual_memory_total,
}

-- A line of the file: a figure with its name, the padding, its digits and their number; or a line
-- with a count, which has no unit.
pub data Line : Type 0 where
  figure : Text → Text → Text → ℕ → Line
  count : Text → Line

-- The name with a colon, the padding and the digits, in front of the unit.
abbrev pub front : Text → Text → Text → Text
front name gap digits = (name ++ 58 ∷ []) ++ padded ((gap, digits) ∷ []) []

abbrev pub line_text : Line → Text
line_text (Line.figure name gap digits n) = front name gap digits ++ codes " kB\n"
line_text (Line.count text) = text

abbrev pub IsLine : Line → Type 0
IsLine (Line.figure name gap digits n) =
    Lacks 58 name
    × IsWord (name ++ 58 ∷ [])
    × IsColumn (gap, digits)
    × (parse_int 10 digits ≡ some n)
IsLine (Line.count text) = ends_with (strip text) (codes " kB") ≡ false

-- The number of the last figure with this name.
abbrev pub number_of : Text → List Line → Option ℕ
number_of name [] = none
number_of name (Line.count text ∷ lines) = number_of name lines
number_of name (Line.figure m gap digits n ∷ lines) = elim (number_of name lines) [
  | some later ↦ some later
  | none ↦ if text_eq name m then some n else none
]

lstrip_word : (w s : Text) → IsWord w → lstrip (w ++ s) ≡ w ++ s
unfolding lstrip
lstrip_word [] s (full, clean) = absurd (false≢true (sym full))
lstrip_word (c ∷ w) s (full, (clean, rest)) = rw clean refl

-- A text with a newline behind its last character, which is no white space.
rstrip_newline :
    (s : Text) (c : ℕ) → is_space c ≡ false → rstrip ((s ++ c ∷ []) ++ 10 ∷ []) ≡ s ++ c ∷ []
unfolding rstrip lstrip
rstrip_newline s c h = rw (reverse-append (s ++ c ∷ []) (10 ∷ [])) (
    rw (reverse-append s (c ∷ []))
      (rw h (ap reverse (sym (reverse-append s (c ∷ []))) ∙ reverse-reverse (s ++ c ∷ []))))

module _ (name gap digits : Text) (w : IsWord (name ++ 58 ∷ []))
    (column : IsColumn (gap, digits)) where
  strip-front :
      strip (front name gap digits ++ codes " kB\n") ≡ front name gap digits ++ codes " kB"
  unfolding strip
  strip-front =
      let before = front name gap digits in
      let columns = padded ((gap, digits) ∷ []) [] in
      let parted : before ++ codes " kB\n" ≡ ((before ++ 32 ∷ 107 ∷ []) ++ 66 ∷ []) ++ 10 ∷ [] =
        sym (
          append_assoc (before ++ 32 ∷ 107 ∷ []) (66 ∷ []) (10 ∷ [])
          ∙ append_assoc before (32 ∷ 107 ∷ []) (66 ∷ 10 ∷ [])) in
      let starts : lstrip (before ++ codes " kB\n") ≡ before ++ codes " kB\n" =
        ap lstrip (append_assoc (name ++ 58 ∷ []) columns (codes " kB\n"))
        ∙ lstrip_word (name ++ 58 ∷ []) (columns ++ codes " kB\n") w
        ∙ sym (append_assoc (name ++ 58 ∷ []) columns (codes " kB\n")) in
      ap rstrip (starts ∙ parted)
      ∙ rstrip_newline (before ++ 32 ∷ 107 ∷ []) 66 refl
      ∙ append_assoc before (32 ∷ 107 ∷ []) (66 ∷ [])

  ends_with-unit : (s : Text) → ends_with (s ++ codes " kB") (codes " kB") ≡ true
  unfolding ends_with starts_with
  ends_with-unit s = rw (reverse-append s (codes " kB")) refl

  take-unit : (s : Text) → take (length (s ++ codes " kB") - 3) (s ++ codes " kB") ≡ s
  take-unit s =
      take-append (length (s ++ codes " kB") - 3) s (codes " kB")
        (omega (arith, length-append s (codes " kB")))

  meminfo_line-figure :
      (n : ℕ) (raw : RawMeminfo)
      → Lacks 58 name
      → parse_int 10 digits ≡ some n
      → meminfo_line (front name gap digits ++ codes " kB\n") raw ≡ ok (insert name (n * 1024) raw)
  unfolding meminfo_line
  meminfo_line-figure n raw clean read =
      let words : split (front name gap digits) ≡ (name ++ 58 ∷ []) ∷ digits ∷ [] =
        split-padded [] (name ++ 58 ∷ []) ((gap, digits) ∷ []) [] tt w (column, tt) tt in
      rw
        (
          strip-front,
          ends_with-unit (front name gap digits),
          take-unit (front name gap digits),
          words,
          read,
          rstrip_colons-append name clean,
        )
        refl

-- What the lines leave in the dictionary.
meminfo_lines-number_of :
    (lines : List Line) (raw : RawMeminfo)
    → All IsLine lines
    → (out : RawMeminfo) × (meminfo_lines (map line_text lines) raw ≡ ok out)
      × ((name : Text)
          → lookup name out
            ≡ (elim (number_of name lines) [ some n ↦ some (n * 1024) | none ↦ lookup name raw ]))
unfolding meminfo_lines meminfo_line
meminfo_lines-number_of [] raw h = (raw, refl, λ name. refl)
meminfo_lines-number_of (Line.count text ∷ lines) raw (no_unit, h) =
    let (out, ran, held) = meminfo_lines-number_of lines raw h in
    (out, rw (meminfo_line, no_unit) ran, held)
meminfo_lines-number_of (Line.figure m gap digits n ∷ lines) raw ((clean, w, column, read), h) =
    let (out, ran, held) = meminfo_lines-number_of lines (insert m (n * 1024) raw) h in
    (
      out,
      rw (meminfo_line-figure m gap digits w column n raw clean read) ran,
      λ name. held name ∙ elim (Option-cases (number_of name lines)) [
        | inr (later, e) ↦ rw e refl
        | inl nothing ↦ rw nothing (
            lookup-insert name m (n * 1024) raw ∙ elim (Bool-cases (text_eq name m)) [
              | inl mine ↦ rw mine refl
              | inr other ↦ rw other refl
            ])
      ],
    )

at_name-lookup :
    (name : Text) (raw : RawMeminfo) (n : ℕ)
    → lookup name raw ≡ some (n * 1024)
    → at_name name raw ≡ ok (n * 1024)
at_name-lookup name raw n e = rw (at_name, e) refl

-- From a file of figures in kB, as the kernel prints them, and of lines without a unit,
-- `virtual_memory` returns each figure under its own name, in bytes, if the nine are there; and `used`
-- is the total without the free memory, the buffers and the cache. `virtual_memory_total` returns the
-- same total.
pub virtual_memory-lines :
    (lines : List Line) (total available free active inactive buffers cached shared slab : ℕ)
    → All IsLine lines
    → number_of (codes "MemTotal") lines ≡ some total
    → number_of (codes "MemAvailable") lines ≡ some available
    → number_of (codes "MemFree") lines ≡ some free
    → number_of (codes "Active") lines ≡ some active
    → number_of (codes "Inactive") lines ≡ some inactive
    → number_of (codes "Buffers") lines ≡ some buffers
    → number_of (codes "Cached") lines ≡ some cached
    → number_of (codes "Shmem") lines ≡ some shared
    → number_of (codes "Slab") lines ≡ some slab
    → (virtual_memory_total (map line_text lines) ≡ ok (total * 1024))
      × (virtual_memory (map line_text lines)
          ≡ ok (record {
            total = total * 1024;
            available = available * 1024;
            used = sub_ℕ (total * 1024) (free * 1024 + buffers * 1024 + cached * 1024);
            free = free * 1024;
            active = active * 1024;
            inactive = inactive * 1024;
            buffers = buffers * 1024;
            cached = cached * 1024;
            shared = shared * 1024;
            slab = slab * 1024;
          }))
unfolding virtual_memory virtual_memory_total
virtual_memory-lines lines total available free active inactive buffers cached shared slab h h₁ h₂
      h₃ h₄ h₅ h₆ h₇ h₈ h₉ =
    let (out, ran, held) = meminfo_lines-number_of lines [] h in
    let at : (name : Text) (n : ℕ)
        → number_of name lines ≡ some n
        → at_name name out ≡ ok (n * 1024) =
      λ name n e. at_name-lookup name out n (held name ∙ rw e refl) in
    (
      rw (ran, at (codes "MemTotal") total h₁) refl,
      rw
          (
            ran,
            at (codes "MemTotal") total h₁,
            at (codes "MemAvailable") available h₂,
            at (codes "MemFree") free h₃,
            at (codes "Active") active h₄,
            at (codes "Inactive") inactive h₅,
            at (codes "Buffers") buffers h₆,
            at (codes "Cached") cached h₇,
            at (codes "Shmem") shared h₈,
            at (codes "Slab") slab h₉,
          )
          refl,
    )
