-- ===== src/Linux/NetDev/Row.antt =====
-- A line of the table gives the name and the counters that the kernel has put there.
use mathlib.Core.List.{reverse, reverse-append, reverse-reverse}
use pypsutil.Prelude.{ℕ, ◌≡◌, refl, some, List, [], ◌∷◌, ◌++◌, arith, All}
use pypsutil.Prelude.Exn.{ok}
use pypsutil.Prelude.Text.{Text, Lacks, parse_int}
use pypsutil.Linux.Stat.RoundTrip.{IsWord}
use pypsutil.Linux.Status.{ints}
use pypsutil.Linux.Status.Entries.{Lacks-reverse}
use pypsutil.Linux.NetDev.Padded.{AllSpace, padded, IsColumn, column_words, split-padded}
use pypsutil.Linux.NetDev.{drop_colons, rstrip_colons, dev_row}

drop_colons-Lacks : (s : Text) → Lacks 58 s → drop_colons s ≡ s
unfolding drop_colons
drop_colons-Lacks [] h = refl
drop_colons-Lacks (c ∷ s) (hc, h) = ground arith

pub rstrip_colons-append : (name : Text) → Lacks 58 name → rstrip_colons (name ++ 58 ∷ []) ≡ name
unfolding drop_colons
rstrip_colons-append name h =
    rw (reverse-append name (58 ∷ []))
      (rw (drop_colons-Lacks (reverse name) (Lacks-reverse 58 name h), reverse-reverse name))

-- The texts of some numbers.
abbrev pub Reads : List Text → List ℕ → Type 0
Reads [] [] = Unit
Reads [] (n ∷ ns) = ⊥
Reads (w ∷ ws) [] = ⊥
Reads (w ∷ ws) (n ∷ ns) = (parse_int 10 w ≡ some n) × Reads ws ns

ints-Reads : (ws : List Text) (ns : List ℕ) → Reads ws ns → ints ws ≡ ok ns
unfolding ints
ints-Reads [] [] h = refl
ints-Reads [] (n ∷ ns) h = absurd h
ints-Reads (w ∷ ws) [] h = absurd h
ints-Reads (w ∷ ws) (n ∷ ns) (e, h) = rw (e, ints-Reads ws ns h)

-- A line of the table as the kernel prints it gives the name and the numbers: white space or none, an
-- interface's name with a colon, sixteen decimal numbers in columns, each with any white space in
-- front, but some, and white space at the end, a newline or none. Received bytes, packets, errors and
-- drops are the first four numbers, those sent are the ninth to the twelfth. The name is a word without
-- colons.
pub dev_row-line :
    (lead name tail : Text) (columns : List (Text × Text))
    (r₁ r₂ r₃ r₄ r₅ r₆ r₇ r₈ s₁ s₂ s₃ s₄ s₅ s₆ s₇ s₈ : ℕ)
    → AllSpace lead
    → Lacks 58 name
    → IsWord (name ++ 58 ∷ [])
    → All IsColumn columns
    → AllSpace tail
    → Reads
        (column_words columns)
        (r₁ ∷ r₂ ∷ r₃ ∷ r₄ ∷ r₅ ∷ r₆ ∷ r₇ ∷ r₈ ∷ s₁ ∷ s₂ ∷ s₃ ∷ s₄ ∷ s₅ ∷ s₆ ∷ s₇ ∷ s₈ ∷ [])
    → dev_row (lead ++ ((name ++ 58 ∷ []) ++ padded columns tail))
      ≡ ok (
        name,
        record {
          bytes_sent = s₁;
          bytes_recv = r₁;
          packets_sent = s₂;
          packets_recv = r₂;
          errin = r₃;
          errout = s₃;
          dropin = r₄;
          dropout = s₄;
        },
      )
unfolding dev_row
dev_row-line lead name tail columns r₁ r₂ r₃ r₄ r₅ r₆ r₇ r₈ s₁ s₂ s₃ s₄ s₅ s₆ s₇ s₈ l h clean wide t
      reads =
    rw (
      split-padded lead (name ++ 58 ∷ []) columns tail l clean wide t,
      ints-Reads (column_words columns) _ reads,
      rstrip_colons-append name h,
    )
