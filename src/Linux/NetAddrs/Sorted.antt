-- ===== src/Linux/NetAddrs/Sorted.antt =====
-- The order in which `net_if_addrs` of pypsutil/_pslinux.py lists addresses.
use pypsutil.Prelude.{ℕ, ◌≤◌, inl, inr, List, [], ◌∷◌, leb, arith, Bool-cases, nat_eq}
use pypsutil.Prelude.Dict.{Dict}
use pypsutil.Prelude.Text.{Text, text_keys}
use pypsutil.Linux.NetAddrs.{number, NicAddr}
use pypsutil.Linux.NetAddrs.Join.{put_in, sort_addrs, sort_all}

-- The families ascend.
abbrev pub FromFamily : ℕ → List NicAddr → Type 0
FromFamily n [] = Unit
FromFamily n (a ∷ addrs) = (n ≤ number a.family) × FromFamily (number a.family) addrs

abbrev pub AllSorted : Dict Text (List NicAddr) → Type 0
AllSorted [] = Unit
AllSorted ((name, addrs) ∷ d) = FromFamily 0 addrs × AllSorted d

put_in-FromFamily :
    (n : ℕ) (a : NicAddr) (bs : List NicAddr)
    → n ≤ number a.family
    → FromFamily n bs
    → FromFamily n (put_in a bs)
put_in-FromFamily n a [] h s = (h, tt)
put_in-FromFamily n a (b ∷ bs) h (hb, s) =
    elim (Bool-cases (leb (number a.family) (number b.family))) [
      | inl before ↦ rw before (h, (ground (arith, before), s))
      | inr after ↦
          rw after (hb, put_in-FromFamily (number b.family) a bs (ground (arith, after)) s)
    ]

sort_addrs-FromFamily : (addrs : List NicAddr) → FromFamily 0 (sort_addrs addrs)
sort_addrs-FromFamily [] = tt
sort_addrs-FromFamily (a ∷ addrs) =
    put_in-FromFamily 0 a (sort_addrs addrs) (omega arith) (sort_addrs-FromFamily addrs)

pub sort_all-AllSorted : (d : Dict Text (List NicAddr)) → AllSorted (sort_all d)
sort_all-AllSorted [] = tt
sort_all-AllSorted ((name, addrs) ∷ d) = (sort_addrs-FromFamily addrs, sort_all-AllSorted d)
