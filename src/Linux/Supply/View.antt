-- ===== src/Linux/Supply/View.antt =====
-- Reading a supply again and again gives the same values: remembering changes nothing.
use pypsutil.Prelude.{
  ◌≡◌, refl, inl, inr, Option, none, some, arith, if◌then◌else◌, Bool-cases, Option-cases, contains,
}
use pypsutil.Prelude.Text.{Text, text_keys}
use pypsutil.Prelude.Dict.{lookup, lookup-insert}
use pypsutil.Linux.Supply.{Supply, get}

-- The value of a key: the remembered one, or that of the file.
abbrev pub or_file : Option (Option Text) → Option Text → Option Text
or_file none file = file
or_file (some value) file = value

abbrev pub view : Supply → Text → Option Text
view s key = if contains 47 key then none else or_file (lookup key s.data_values) (s.files key)

-- `get` returns the value of the key, and no key has another value afterwards.
pub get-view :
    (s : Supply) (key other : Text)
    → ((get key s).0 ≡ view s key) × (view (get key s).1 other ≡ view s other)
unfolding get
get-view s key other = elim (Bool-cases (contains 47 key)) [
  | inl slash ↦ rw slash (refl, refl)
  | inr plain ↦ elim (Option-cases (lookup key s.data_values)) [
    | inl new ↦
        rw (plain, new)
          (
            refl,
            ground (
              arith,
              new,
              lookup-insert other key (s.files key) s.data_values,
              text_keys.beq_iff other key,
            ),
          )
    | inr (value, old) ↦ rw (plain, old) (refl, refl)
  ]
]
