-- ===== src/Linux/NetAddrs/Families.antt =====
-- The lists of addresses that a dictionary holds for names, and sorting them by family.
use pypsutil.Prelude.{
  ℕ, ◌≡◌, refl, ap, ◌∙◌, inl, inr, false, some, none, List, [], ◌∷◌, ◌++◌, ◌==◌, leb, if◌then◌else◌,
  Bool-cases, arith, nat_eq, Option-cases, Option,
}
use pypsutil.Prelude.Dict.{Dict, lookup, insert, lookup-insert}
use pypsutil.Prelude.Text.{Text, text_keys, text_eq}
use pypsutil.Linux.NetAddrs.{number, NicAddr, Macs, append_to}
use pypsutil.Linux.NetAddrs.Join.{put_in, sort_addrs, sort_all}

-- What a dictionary of lists holds for a name, or for an index; no entry is an empty list.
abbrev pub or_empty : Option (List NicAddr) → List NicAddr
or_empty none = []
or_empty (some addrs) = addrs

abbrev pub addrs_of : Text → Dict Text (List NicAddr) → List NicAddr
addrs_of name d = or_empty (lookup name d)

-- The addresses of the family with this number.
abbrev pub of_family : ℕ → List NicAddr → List NicAddr
of_family n [] = []
of_family n (a ∷ addrs) = if number a.family == n then a ∷ of_family n addrs else of_family n addrs

-- The links with this name.
abbrev pub macs_named : Text → Macs → List NicAddr
macs_named name [] = []
macs_named name ((n, mac) ∷ macs) =
    if text_eq name n then mac ∷ macs_named name macs else macs_named name macs

put_in-of_family :
    (n : ℕ) (a : NicAddr) (bs : List NicAddr) → of_family n (put_in a bs) ≡ of_family n (a ∷ bs)
put_in-of_family n a [] = refl
put_in-of_family n a (b ∷ bs) = elim (Bool-cases (leb (number a.family) (number b.family))) [
  | inl before ↦ rw before refl
  | inr after ↦ elim (Bool-cases (number a.family == n)) [
    | inl mine ↦
        let other : (number b.family == n) ≡ false = ground (arith, after, mine) in
        rw after (rw (other, mine) (put_in-of_family n a bs ∙ rw mine refl))
    | inr not_mine ↦
        let further : of_family n (put_in a bs) ≡ of_family n bs =
          put_in-of_family n a bs ∙ rw not_mine refl in
        rw after (rw (not_mine, further) refl)
  ]
]

pub sort_addrs-of_family :
    (n : ℕ) (addrs : List NicAddr) → of_family n (sort_addrs addrs) ≡ of_family n addrs
sort_addrs-of_family n [] = refl
sort_addrs-of_family n (a ∷ addrs) =
    put_in-of_family n a (sort_addrs addrs)
    ∙ ap (λ l. if number a.family == n then a ∷ l else l) (sort_addrs-of_family n addrs)

pub sort_all-addrs_of :
    (name : Text) (d : Dict Text (List NicAddr))
    → addrs_of name (sort_all d) ≡ sort_addrs (addrs_of name d)
sort_all-addrs_of name [] = refl
sort_all-addrs_of name ((n, addrs) ∷ d) = elim (Bool-cases (text_eq name n)) [
  | inl same ↦ rw same refl
  | inr other ↦ rw other (sort_all-addrs_of name d)
]

pub append_to-addrs_of :
    (name k : Text) (more : List NicAddr) (d : Dict Text (List NicAddr))
    → addrs_of name (append_to k more d)
      ≡ (if text_eq name k then addrs_of name d ++ more else addrs_of name d)
append_to-addrs_of name k more d = elim (Bool-cases (text_eq name k)) [
  | inr other ↦ elim (Option-cases (lookup k d)) [
    | inl fresh ↦
        let got : lookup name (insert k more d) ≡ lookup name d =
          lookup-insert name k more d ∙ rw other refl in
        rw (append_to, fresh, other, got) refl
    | inr (old, held) ↦
        let got : lookup name (insert k (old ++ more) d) ≡ lookup name d =
          lookup-insert name k (old ++ more) d ∙ rw other refl in
        rw (append_to, held, other, got) refl
  ]
  | inl mine ↦
      let same : name ≡ k = (text_keys.beq_iff name k).0 mine in
      elim (Option-cases (lookup k d)) [
        | inl fresh ↦
            let none_yet : lookup name d ≡ none = rw same fresh in
            let got : lookup name (insert k more d) ≡ some more =
              lookup-insert name k more d ∙ rw mine refl in
            rw (append_to, fresh, none_yet, mine, got) refl
        | inr (old, held) ↦
            let there : lookup name d ≡ some old = rw same held in
            let got : lookup name (insert k (old ++ more) d) ≡ some (old ++ more) =
              lookup-insert name k (old ++ more) d ∙ rw mine refl in
            rw (append_to, held, there, mine, got) refl
      ]
]
