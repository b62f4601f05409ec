-- ===== src/Linux/NetDev/Padded.antt =====
-- Lines whose columns are padded with white space, as the kernel prints its tables.
use pypsutil.Prelude.{◌≡◌, refl, ◌∙◌, ap, true, false, List, [], ◌∷◌, ◌++◌, All, is_empty, map, sym}
use pypsutil.Prelude.Text.{Text, split, is_space, split_from, word}
use pypsutil.Linux.Stat.RoundTrip.{IsWord, split_from-word, word-IsWord}
use mathlib.Core.Bool.{false≢true}

abbrev pub AllSpace : Text → Type 0
AllSpace s = All (λ c. is_space c ≡ true) s

-- Columns: the white space in front of a word, and the word; and what follows the last one.
abbrev pub padded : List (Text × Text) → Text → Text
padded [] tail = tail
padded ((gap, w) ∷ columns) tail = gap ++ (w ++ padded columns tail)

abbrev pub IsColumn : Text × Text → Type 0
IsColumn (gap, w) = ((is_empty gap ≡ false) × AllSpace gap) × IsWord w

abbrev pub column_words : List (Text × Text) → List Text
column_words columns = map (λ p. p.1) columns

split_from_blank : (gap s : Text) → AllSpace gap → split_from (gap ++ s) [] ≡ split_from s []
unfolding split_from
split_from_blank [] s h = refl
split_from_blank (c ∷ gap) s (hc, h) = rw (hc, split_from) (split_from_blank gap s h)

split_from_gap :
    (gap s acc : Text)
    → is_empty gap ≡ false
    → AllSpace gap
    → split_from (gap ++ s) acc ≡ word acc (split_from s [])
unfolding split_from
split_from_gap [] s acc full h = absurd (false≢true (sym full))
split_from_gap (c ∷ gap) s acc full (hc, h) =
    rw (hc, split_from) (ap (λ ws. word acc ws) (split_from_blank gap s h))

split_from_tail : (tail acc : Text) → AllSpace tail → split_from tail acc ≡ word acc []
unfolding split_from
split_from_tail [] acc h = refl
split_from_tail (c ∷ tail) acc (hc, h) =
    rw (hc, split_from) (ap (λ ws. word acc ws) (split_from_tail tail [] h))

split_from-padded :
    (columns : List (Text × Text)) (tail acc : Text)
    → All IsColumn columns
    → AllSpace tail
    → split_from (padded columns tail) acc ≡ word acc (column_words columns)
split_from-padded [] tail acc h t = split_from_tail tail acc t
split_from-padded ((gap, w) ∷ columns) tail acc (((some_gap, blank), (full, clean)), h) t =
    split_from_gap gap (w ++ padded columns tail) acc some_gap blank
    ∙ ap (λ ws. word acc ws)
        (split_from-word w (padded columns tail) [] clean
          ∙ split_from-padded columns tail w h t
          ∙ word-IsWord w (column_words columns) full)

-- `split` finds the words of a line whose first word may have white space in front of it.
pub split-padded :
    (lead w : Text) (columns : List (Text × Text)) (tail : Text)
    → AllSpace lead
    → IsWord w
    → All IsColumn columns
    → AllSpace tail
    → split (lead ++ (w ++ padded columns tail)) ≡ w ∷ column_words columns
unfolding split
split-padded lead w columns tail l (full, clean) h t =
    split_from_blank lead (w ++ padded columns tail) l
    ∙ split_from-word w (padded columns tail) [] clean
    ∙ split_from-padded columns tail w h t
    ∙ word-IsWord w (column_words columns) full
