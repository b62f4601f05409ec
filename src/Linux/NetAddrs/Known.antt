-- ===== src/Linux/NetAddrs/Known.antt =====
-- The two dictionaries that `net_if_addrs` of pypsutil/_pslinux.py makes of the messages on addresses.
use mathlib.Core.Option.{none-ne-some}
use pypsutil.Prelude.{
  true, false, ℕ, ◌≡◌, refl, ap, ◌∙◌, inl, inr, Bool, some, List, [], ◌∷◌, ◌++◌, ◌==◌, leb,
  if◌then◌else◌, Bool-cases, ==_refl, is_empty, All, nat_eq, Option-cases, All-imp, some-inj,
  length, take, drop,
}
use mathlib.Core.Path.{subst}
use pypsutil.Prelude.Dict.{Dict, lookup, insert, lookup-insert}
use pypsutil.Prelude.Exn.{Result, ok, ◌>>=◌, ok-inj, bind_ok, err≢ok, Result-cases}
use pypsutil.Prelude.Text.{Text, text_keys, text_eq}
use pypsutil.Linux.Netlink.{NlMsg, field_at, nlmsg_align, decode_rtattrs}
use pypsutil.Linux.NetAddrs.{
  set_name, netmask_of, nic_addr, NicAddr, Library, Addrs, AddrInfo, add_addr, append_to, for_attrs,
  addr_attr, no_addr,
}
use pypsutil.Linux.NetAddrs.Join.{for_msgs, addr_body}

-- Every index with a name has a list of addresses.
abbrev pub IsKnown : Dict ℕ (List NicAddr) → ℕ × Text → Type 0
IsKnown ifaddrs (index, name) = (addrs : List NicAddr) × (lookup index ifaddrs ≡ some addrs)

abbrev pub AllKnown : Addrs → Type 0
AllKnown st = All (IsKnown st.ifaddrs) st.ifnames

append_to-insert :
    (index : ℕ) (more : List NicAddr) (d : Dict ℕ (List NicAddr))
    → (addrs : List NicAddr) × (append_to index more d ≡ insert index addrs d)
append_to-insert index more d = elim (Option-cases (lookup index d)) [
  | inl e ↦ (more, rw (e, append_to) refl)
  | inr (old, e) ↦ (old ++ more, rw (e, append_to) refl)
]

append_to_other :
    (index : ℕ) (more : List NicAddr) (d : Dict ℕ (List NicAddr)) (entry : ℕ × Text)
    → IsKnown d entry
    → IsKnown (append_to index more d) entry
append_to_other index more d (i, name) (addrs, e) =
    let (new, ins) = append_to-insert index more d in
    let found : lookup i (append_to index more d) ≡ (if i == index then some new else some addrs) =
      ap (lookup i) ins
      ∙ lookup-insert i index new d
      ∙ ap (λ o. if i == index then some new else o) e in
    elim (Bool-cases (i == index)) [
      | inl same ↦ (new, found ∙ rw same refl)
      | inr other ↦ (addrs, found ∙ rw other refl)
    ]

append_to_self :
    (index : ℕ) (more : List NicAddr) (d : Dict ℕ (List NicAddr)) (name : Text)
    → IsKnown (append_to index more d) (index, name)
append_to_self index more d name =
    let (new, ins) = append_to-insert index more d in
    (new, ap (lookup index) ins ∙ lookup-insert index index new d ∙ rw (==_refl index) refl)

insert-IsKnown :
    (d : Dict ℕ (List NicAddr)) (index : ℕ) (name : Text) (names : Dict ℕ Text)
    → IsKnown d (index, name)
    → All (IsKnown d) names
    → All (IsKnown d) (insert index name names)
insert-IsKnown d index name [] h k = (h, tt)
insert-IsKnown d index name ((i, old) ∷ names) h (ki, k) = elim (Bool-cases (index == i)) [
  | inl same ↦ rw same (h, k)
  | inr other ↦ rw other (ki, insert-IsKnown d index name names h k)
]

module _ (lib : Library) where
  set_name-insert :
      (index : ℕ) (name : Text) (names names' : Dict ℕ Text)
      → set_name lib index name names ≡ ok names'
      → insert index name names ≡ names'
  set_name-insert index name names names' e = elim (Option-cases (lookup index names)) [
    | inl fresh ↦ ok-inj (rw (fresh, set_name) at e)
    | inr (old, known) ↦ elim (Bool-cases (text_eq old name)) [
      | inl same ↦ ok-inj (rw (known, same, set_name) at e)
      | inr other ↦ absurd (err≢ok (rw (known, other, set_name) at e))
    ]
  ]

  names-AllKnown :
      (d : Dict ℕ (List NicAddr)) (index : ℕ) (name : Text) (names names' : Dict ℕ Text)
      (nameless : Bool)
      → All (IsKnown d) names
      → IsKnown d (index, name)
      → (if nameless then ok names else set_name lib index name names) ≡ ok names'
      → All (IsKnown d) names'
  names-AllKnown d index name names names' true h k e =
      subst (λ ns. All (IsKnown d) ns) (ok-inj e) h
  names-AllKnown d index name names names' false h k e =
      subst (λ ns. All (IsKnown d) ns) (set_name-insert index name names names' e)
        (insert-IsKnown d index name names k h)

  add_addr-AllKnown :
      (prefixlen index : ℕ) (st : Addrs) (s : AddrInfo) (st' : Addrs)
      → AllKnown st
      → add_addr lib prefixlen index st s ≡ ok st'
      → AllKnown st'
  unfolding add_addr
  add_addr-AllKnown prefixlen index st s st' h e =
      let rest : Text → Result Addrs = λ mask.
        (if is_empty s.ifname then ok st.ifnames else set_name lib index s.ifname st.ifnames)
        >>= λ names. ok (record {
          ifnames = names;
          ifaddrs = append_to index (nic_addr lib s mask ∷ []) st.ifaddrs;
        }) in
      let (mask, _, e1) = bind_ok (netmask_of lib s.family prefixlen) rest st' e in
      let more : List NicAddr = nic_addr lib s mask ∷ [] in
      let store : Dict ℕ Text → Result Addrs =
        λ names. ok (record { ifnames = names; ifaddrs = append_to index more st.ifaddrs }) in
      let (names, en, e2) =
        bind_ok
          (if is_empty s.ifname then ok st.ifnames else set_name lib index s.ifname st.ifnames)
          store st' e1 in
      let kept : All (IsKnown (append_to index more st.ifaddrs)) st.ifnames =
        All-imp (IsKnown st.ifaddrs) (IsKnown (append_to index more st.ifaddrs))
          (λ entry k. append_to_other index more st.ifaddrs entry k) st.ifnames h in
      let all : All (IsKnown (append_to index more st.ifaddrs)) names =
        names-AllKnown (append_to index more st.ifaddrs) index s.ifname st.ifnames names
          (is_empty s.ifname) kept (append_to_self index more st.ifaddrs s.ifname) en in
      subst AllKnown (ok-inj e2) all

  module _ (fuel : ℕ) (big : Bool) where
    addr_body-AllKnown :
        (st : Addrs) (m : NlMsg) (st' : Addrs)
        → AllKnown st
        → addr_body lib fuel big st m ≡ some (ok st')
        → AllKnown st'
    unfolding addr_body
    addr_body-AllKnown st m st' h e = elim (Bool-cases (m.mtype == 20)) [
      | inr other ↦ subst AllKnown (ok-inj (some-inj (rw other at e))) h
      | inl mine ↦ elim (Bool-cases (leb 8 (length m.payload))) [
        | inr short ↦ absurd (err≢ok (some-inj (rw (mine, short) at e)))
        | inl long ↦
            elim (Option-cases (decode_rtattrs fuel big (drop (nlmsg_align 8) m.payload))) [
              | inl never ↦ absurd (none-ne-some _ (rw (mine, long, never) at e))
              | inr ((attrs, ex), read) ↦
                  let index = field_at big 4 4 (take 8 m.payload) in
                  let prefixlen = field_at big 1 1 (take 8 m.payload) in
                  let (s, _, added) =
                    bind_ok (for_attrs (addr_attr lib) no_addr attrs ex)
                      (add_addr lib prefixlen index st) st'
                      (some-inj (rw (mine, long, read) at e)) in
                  add_addr-AllKnown prefixlen index st s st' h added
            ]
      ]
    ]

    -- Each index that has a name has addresses, whatever messages there were.
    pub for_msgs-AllKnown :
        (st : Addrs) (ms : List NlMsg) (st' : Addrs)
        → AllKnown st
        → for_msgs (addr_body lib fuel big) st ms ≡ some (ok st')
        → AllKnown st'
    for_msgs-AllKnown st [] st' h e = subst AllKnown (ok-inj (some-inj e)) h
    for_msgs-AllKnown st (m ∷ ms) st' h e = elim (Option-cases (addr_body lib fuel big st m)) [
      | inl never ↦ absurd (none-ne-some _ (rw (never, for_msgs) at e))
      | inr (r, one) ↦ elim (Result-cases r) [
        | inr (ex, failed) ↦ absurd (err≢ok (some-inj (rw (one, failed, for_msgs) at e)))
        | inl (mid, worked) ↦
            for_msgs-AllKnown mid ms st' (addr_body-AllKnown st m mid h (rw (← worked) one))
              (rw (one, worked, for_msgs) at e)
      ]
    ]
