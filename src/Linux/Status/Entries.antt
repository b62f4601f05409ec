-- ===== src/Linux/Status/Entries.antt =====
-- The entries that are read from a status text are those that the kernel has put there.
use mathlib.Core.Bool.{false≢true}
use mathlib.Core.List.{reverse, reverse-cons, reverse-reverse}
use pypsutil.Prelude.{
  ℕ, ◌≡◌, ◌≢◌, refl, sym, ◌∙◌, inl, inr, true, false, none, some, List, [], ◌∷◌, ◌++◌, append_assoc,
  append-nil, arith, ◌==◌, Bool-cases, All, All-append, map,
}
use pypsutil.Prelude.Exn.{Exn, ok, err}
use pypsutil.Prelude.Text.{Text, Lacks, starts_with, text_eq, text_keys}
use pypsutil.Prelude.Dict.{lookup}
use pypsutil.Linux.Status.{
  is_break, lines_from, cut_entry, rstrip_newlines, drop_newlines, entries_of,
  iter_proc_status_entries, find_entry, get_proc_status_entry,
}

-- No line ends inside.
abbrev pub OneLine : Text → Type 0
OneLine = All (λ c. is_break c ≡ false)

-- The lines of the kernel: name, colon, tab, value.
abbrev pub status_line : Text × Text → Text
status_line (name, value) = name ++ 58 ∷ 9 ∷ value

abbrev pub status_text : List (Text × Text) → Text
status_text [] = []
status_text (e ∷ es) = status_line e ++ 10 ∷ status_text es

-- The name is without colons, and name and value are without line ends.
abbrev pub IsPlain : Text × Text → Type 0
IsPlain (name, value) = Lacks 58 name × OneLine name × OneLine value

lines_from-OneLine :
    (line rest acc : Text) (c : ℕ)
    → OneLine line
    → is_break c ≡ true
    → (c == 13) ≡ false
    → lines_from false (line ++ c ∷ rest) acc ≡ (acc ++ line) ∷ lines_from false rest []
unfolding lines_from
lines_from-OneLine [] rest acc c h b n = rw (b, n, lines_from) (rw (append-nil acc))
lines_from-OneLine (d ∷ line) rest acc c (hd, h) b n =
    rw (hd, lines_from)
      (rw (lines_from-OneLine line rest (acc ++ (d ∷ [])) c h b n, append_assoc acc (d ∷ []) line))

cut_entry-append :
    (name value : Text) → Lacks 58 name → cut_entry (name ++ 58 ∷ 9 ∷ value) ≡ some (name, value)
unfolding cut_entry starts_with
cut_entry-append [] value h = refl
cut_entry-append (c ∷ name) value (hc, h) = ground (arith, cut_entry-append name value h)

cut_entry-absent : (line : Text) → Lacks 58 line → cut_entry line ≡ none
unfolding cut_entry
cut_entry-absent [] h = refl
cut_entry-absent (c ∷ line) (hc, h) = ground (arith, cut_entry-absent line h)

drop_newlines-head : (s : Text) → Lacks 10 s → drop_newlines s ≡ s
unfolding drop_newlines
drop_newlines-head [] h = refl
drop_newlines-head (c ∷ s) (hc, h) = ground arith

pub Lacks-reverse : (c : ℕ) (s : Text) → Lacks c s → Lacks c (reverse s)
Lacks-reverse c [] h = tt
Lacks-reverse c (d ∷ s) (hd, h) =
    rw (reverse-cons d s)
      (All-append (λ x. x ≢ c) (reverse s) (d ∷ []) (Lacks-reverse c s h) (hd, tt))

OneLine-Lacks : (s : Text) → OneLine s → Lacks 10 s
OneLine-Lacks [] h = tt
OneLine-Lacks (c ∷ s) (hc, h) = ((λ e. absurd (false≢true (sym hc ∙ rw e))), OneLine-Lacks s h)

rstrip_newlines-OneLine : (s : Text) → OneLine s → rstrip_newlines s ≡ s
unfolding rstrip_newlines
rstrip_newlines-OneLine s h =
    rw (drop_newlines-head (reverse s) (Lacks-reverse 10 s (OneLine-Lacks s h)), reverse-reverse s)

status_line-OneLine : (e : Text × Text) → IsPlain e → OneLine (status_line e)
status_line-OneLine (name, value) (_, hn, hv) =
    All-append (λ c. is_break c ≡ false) name (58 ∷ 9 ∷ value) hn (refl, (refl, hv))

lines_from-status_text :
    (es : List (Text × Text)) (rest : Text)
    → All IsPlain es
    → lines_from false (status_text es ++ rest) [] ≡ map status_line es ++ lines_from false rest []
lines_from-status_text [] rest h = refl
lines_from-status_text (e ∷ es) rest (he, h) = rw (
  append_assoc (status_line e) (10 ∷ status_text es) rest,
  lines_from-OneLine (status_line e) (status_text es ++ rest) [] 10 (status_line-OneLine e he) refl
      refl,
  lines_from-status_text es rest h,
)

entries_of-status_line :
    (es : List (Text × Text)) (lines : List Text)
    → All IsPlain es
    → entries_of (map status_line es ++ lines) ≡ (es ++ (entries_of lines).0, (entries_of lines).1)
unfolding entries_of
entries_of-status_line [] lines h = refl
entries_of-status_line ((name, value) ∷ es) lines ((colon, _, v), h) = rw (
  cut_entry-append name value colon,
  entries_of-status_line es lines h,
  rstrip_newlines-OneLine value v,
)

-- Lines of the form name, colon, tab, value are read back as they were written, in their order and
-- without an exception, if no name holds a colon and neither names nor values hold an end of line.
pub iter_proc_status_entries-status_text :
    (es : List (Text × Text))
    → All IsPlain es
    → iter_proc_status_entries (status_text es) ≡ (es, none)
unfolding iter_proc_status_entries lines_from
iter_proc_status_entries-status_text es h =
    let whole : status_text es ++ [] ≡ status_text es = append-nil (status_text es) in
    let cut = rw whole at (lines_from-status_text es [] h) in
    rw (cut, entries_of-status_line es [] h) (rw (append-nil es))

find_entry-lookup :
    (name : Text) (es : List (Text × Text))
    → find_entry name es none
      ≡ elim (lookup name es) [ none ↦ err Exn.key_error | some value ↦ ok value ]
unfolding find_entry
find_entry-lookup name [] = refl
find_entry-lookup name ((key, value) ∷ es) = elim (Bool-cases (text_eq name key)) [
  | inl e ↦ rw (e, find_entry)
  | inr e ↦ rw (e, find_entry) (find_entry-lookup name es)
]

-- On such a text `_get_proc_status_entry` is the lookup of a name: the value of its first line, or
-- KeyError if there is none.
pub get_proc_status_entry-lookup :
    (name : Text) (es : List (Text × Text))
    → All IsPlain es
    → get_proc_status_entry name (status_text es)
      ≡ elim (lookup name es) [ none ↦ err Exn.key_error | some value ↦ ok value ]
unfolding get_proc_status_entry
get_proc_status_entry-lookup name es h =
    rw (iter_proc_status_entries-status_text es h) (find_entry-lookup name es)

-- If a value holds a character, not a carriage return, at which `splitlines` ends a line and with no
-- colon behind it up to the line's end, then the reading stops there: that value is cut at the
-- character, and a ValueError takes the place of all lines that follow.
pub iter_proc_status_entries-broken :
    (es : List (Text × Text)) (name a b rest : Text) (c : ℕ)
    → All IsPlain es
    → IsPlain (name, a)
    → is_break c ≡ true
    → c ≢ 13
    → OneLine b
    → Lacks 58 b
    → iter_proc_status_entries (status_text es ++ (status_line (name, a) ++ c ∷ (b ++ 10 ∷ rest)))
      ≡ (es ++ ((name, a) ∷ []), some Exn.value_error)
unfolding iter_proc_status_entries entries_of
iter_proc_status_entries-broken es name a b rest c h plain breaks n one colon =
    let cr : (c == 13) ≡ false = ground (arith, n) in
    let (name_colon, _, a_one) = plain in
    rw (
      lines_from-status_text es (status_line (name, a) ++ c ∷ (b ++ 10 ∷ rest)) h,
      lines_from-OneLine (status_line (name, a)) (b ++ 10 ∷ rest) [] c
          (status_line-OneLine (name, a) plain) breaks cr,
      lines_from-OneLine b rest [] 10 one refl refl,
      entries_of-status_line es (status_line (name, a) ∷ b ∷ lines_from false rest []) h,
      cut_entry-append name a name_colon,
      cut_entry-absent b colon,
      rstrip_newlines-OneLine a a_one,
    )
