-- ===== src/Prelude/Text.antt =====
-- Text and bytes as lists of code points, and the methods of `str`, `bytes` and `int` that the
-- library calls, as far as it uses them: white space and letters are those of ASCII, and the text of
-- a number is digits with white space around.
use Prim.Native.Nat.{ℕ, ◌+◌, ◌-◌, ◌*◌}
use Prim.Native.Char.{code}
use Prim.Native.String.{String}
use mathlib.Core.Path.{◌≡◌, refl, sym, ap, ap₂, ◌∙◌}
use pypsutil.Prelude.Equality.{Eq}
use mathlib.Core.Logic.{◌↔◌, ◌≢◌, ◌⊎◌, inl, inr}
use mathlib.Core.Bool.{Bool, true, false, ◌||◌, ◌&&◌, false≢true}
use mathlib.Core.List.{List, [], ◌∷◌, ◌++◌, map, reverse}
use mathlib.Core.Option.{Option, none, some}
use native.Mathlib.Omega.{arith}
use pypsutil.Prelude.Tests.{◌==◌, ==_iff, and_true, leb, if◌then◌else◌, Bool-cases}
use pypsutil.Prelude.Lists.{All}

abbrev pub Text : Type 0
Text = List ℕ

-- The code points of a literal.
abbrev pub codes : String → Text
codes String.[] = []
codes (String.◌∷◌ c s) = code c ∷ codes s

-- Space, and the control characters from tab to carriage return and from 28 to 31.
abbrev pub is_space : ℕ → Bool
is_space c = (c == 32) || ((leb 9 c && leb c 13) || (leb 28 c && leb c 31))

unfoldable pub lstrip : Text → Text
lstrip [] = []
lstrip (c ∷ s) = let rest = lstrip s in if is_space c then rest else c ∷ s

unfoldable pub rstrip : Text → Text
unfolding lstrip
rstrip s = reverse (lstrip (reverse s))

unfoldable pub strip : Text → Text
unfolding rstrip lstrip
strip s = rstrip (lstrip s)

-- `a == b` on texts.
abbrev pub text_eq : Text → Text → Bool
text_eq [] [] = true
text_eq [] (d ∷ t) = false
text_eq (c ∷ s) [] = false
text_eq (c ∷ s) (d ∷ t) = c == d && text_eq s t

pub text_eq_iff : (s t : Text) → (text_eq s t ≡ true) ↔ (s ≡ t)
text_eq_iff [] [] = ((λ _. refl), (λ _. refl))
text_eq_iff [] (d ∷ t) = ((λ e. absurd (false≢true e)), (λ e. cc))
text_eq_iff (c ∷ s) [] = ((λ e. absurd (false≢true e)), (λ e. cc))
text_eq_iff (c ∷ s) (d ∷ t) = (
  (λ e.
      let both = and_true (c == d) (text_eq s t) e in
      ap₂ (λ (x : ℕ) (l : Text). x ∷ l) ((==_iff c d).0 both.0) ((text_eq_iff s t).0 both.1)),
  (λ e. rw ((==_iff c d).1 (head-eq e), (text_eq_iff s t).1 (tail-eq e))),
)
  where
    head-eq : c ∷ s ≡ d ∷ t → c ≡ d
    head-eq e = cc

    tail-eq : c ∷ s ≡ d ∷ t → s ≡ t
    tail-eq e = cc

instance abbrev pub text_keys : Eq Text
text_keys = record { beq = text_eq; beq_iff = text_eq_iff }

-- `s.startswith(prefix)`
unfoldable pub starts_with : Text → Text → Bool
starts_with s [] = true
starts_with [] (c ∷ p) = false
starts_with (d ∷ s) (c ∷ p) = d == c && starts_with s p

-- `s.endswith(suffix)`
unfoldable pub ends_with : Text → Text → Bool
unfolding starts_with
ends_with s p = starts_with (reverse s) (reverse p)

-- `s.split()`: the words between runs of white space.
abbrev pub word : Text → List Text → List Text
word [] words = words
word (c ∷ w) words = (c ∷ w) ∷ words

unfoldable pub split_from : Text → Text → List Text
split_from [] w = word w []
split_from (c ∷ s) w = elim (is_space c) [
  | true ↦ word w (split_from s [])
  | false ↦ split_from s (w ++ (c ∷ []))
]

unfoldable pub split : Text → List Text
unfolding split_from
split s = split_from s []

-- `s.find(c)` for one character: the text in front of the first one and the text behind it.
abbrev pub put : ℕ → Option (Text × Text) → Option (Text × Text)
put c none = none
put c (some (a, b)) = some (c ∷ a, b)

unfoldable pub cut_at : ℕ → Text → Option (Text × Text)
cut_at sep [] = none
cut_at sep (c ∷ s) = elim (c == sep) [ true ↦ some ([], s) | false ↦ put c (cut_at sep s) ]

-- `int(s, base)` for a base up to 16.
abbrev pub digit : ℕ → Option ℕ
digit c =
    if leb 48 c && leb c 57
    then some (c - 48)
    else if leb 97 c && leb c 102
    then some (c - 87)
    else if leb 65 c && leb c 70
    then some (c - 55)
    else none

digits_from : ℕ → ℕ → Text → Option ℕ
digits_from base n [] = some n
digits_from base n (c ∷ s) = elim (digit c) [
  | none ↦ none
  | some d ↦ if leb base d then none else digits_from base (n * base + d) s
]

unfoldable pub parse_int : ℕ → Text → Option ℕ
unfolding digits_from strip
parse_int base s = elim (strip s) [ [] ↦ none | c ∷ t ↦ digits_from base 0 (c ∷ t) ]

-- `s.lower()`
abbrev pub lower : Text → Text
lower = map (λ c. if leb 65 c && leb c 90 then c + 32 else c)

parse_test : parse_int 10 (codes " 42\n") ≡ some 42
unfolding parse_int
parse_test = refl

split_test : split (codes " a  bc ") ≡ codes "a" ∷ codes "bc" ∷ []
unfolding split
split_test = refl

-- The text does not hold the character.
abbrev pub Lacks : ℕ → Text → Type 0
Lacks sep = All (λ c. c ≢ sep)

pub cut_at_absent : (sep : ℕ) (s : Text) → Lacks sep s → cut_at sep s ≡ none
unfolding cut_at
cut_at_absent sep [] h = refl
cut_at_absent sep (c ∷ s) (hc, h) = ground (arith, cut_at_absent sep s h)

pub cut_at-append :
    (sep : ℕ) (s rest : Text) → Lacks sep s → cut_at sep (s ++ sep ∷ rest) ≡ some (s, rest)
unfolding cut_at
cut_at-append sep [] rest h = ground arith
cut_at-append sep (c ∷ s) rest (hc, h) = ground (arith, cut_at-append sep s rest h)

-- Either the text does not hold the separator, or it is cut at the first one.
pub cut_at-cases :
    (sep : ℕ) (s : Text)
    → ((cut_at sep s ≡ none) × Lacks sep s)
      ⊎ ((a : Text) × (b : Text) × (cut_at sep s ≡ some (a, b)) × (s ≡ a ++ sep ∷ b) × Lacks sep a)
unfolding cut_at
cut_at-cases sep [] = inl (refl, tt)
cut_at-cases sep (c ∷ s) = elim (Bool-cases (c == sep)) [
  | inl here ↦ inr ([], s, rw (here, cut_at), ap (λ (x : ℕ). x ∷ s) ((==_iff c sep).0 here), tt)
  | inr there ↦
      let ne : c ≢ sep = λ same. false≢true (sym there ∙ (==_iff c sep).1 same) in
      elim (cut_at-cases sep s) [
        | inl (absent, l) ↦ inl (rw (there, cut_at) (rw absent), (ne, l))
        | inr (a, b, found, whole, l) ↦
            inr (c ∷ a, b, rw (there, cut_at) (rw found), ap (λ (t : Text). c ∷ t) whole, (ne, l))
      ]
]
