-- ===== src/Linux/NetAddrs/Join.antt =====
-- `net_if_addrs` of pypsutil/_pslinux.py: the loops over messages, the dictionary that is returned, and
-- the loop that starts over when the kernel has run out of buffers.
use pypsutil.Prelude.{
  ℕ, zero, suc, Bool, Option, none, some, List, [], ◌∷◌, ◌++◌, ◌==◌, leb, take, drop, length,
  if◌then◌else◌, nat_eq,
}
use pypsutil.Prelude.Dict.{Dict, lookup}
use pypsutil.Prelude.Exn.{Exn, Result, ok, err, ◌>>=◌}
use pypsutil.Prelude.Text.{Text, text_keys}
use pypsutil.Linux.Netlink.{NlMsg, Queue, nlmsg_align, read_nlmsgs, decode_rtattrs}
use pypsutil.Linux.NetAddrs.{
  AddrFamily, number, NicAddr, Library, Macs, Addrs, link_from, addr_from, append_to,
}

abbrev pub no_addrs : Addrs
no_addrs = record { ifnames = []; ifaddrs = [] }

-- `list.sort` with the family as its key, which keeps the order of equal ones.
abbrev pub put_in : NicAddr → List NicAddr → List NicAddr
put_in a [] = a ∷ []
put_in a (b ∷ bs) =
    let further = put_in a bs in
    if leb (number a.family) (number b.family) then a ∷ b ∷ bs else b ∷ further

abbrev pub sort_addrs : List NicAddr → List NicAddr
sort_addrs [] = []
sort_addrs (a ∷ addrs) = put_in a (sort_addrs addrs)

abbrev pub sort_all : Dict Text (List NicAddr) → Dict Text (List NicAddr)
sort_all [] = []
sort_all ((name, addrs) ∷ d) = (name, sort_addrs addrs) ∷ sort_all d

-- `for msg in sock.read_nlmsgs()`: an exception of the body ends it.
abbrev pub for_msgs :
    {S : Type 0} → (S → NlMsg → Option (Result S)) → S → List NlMsg → Option (Result S)
for_msgs body s [] = some (ok s)
for_msgs body s (m ∷ ms) = elim (body s m) [
  | none ↦ none
  | some (err ex) ↦ some (err ex)
  | some (ok s') ↦ for_msgs body s' ms
]

module _ (lib : Library) (fuel : ℕ) (big : Bool) where
  -- The loops' bodies; a message of another type is passed over.
  unfoldable pub link_body : Macs → NlMsg → Option (Result Macs)
  link_body macs m =
      if m.mtype == 16
      then elim (decode_rtattrs fuel big (drop (nlmsg_align 16) m.payload)) [
        | none ↦ none
        | some items ↦ some (link_from lib macs items)
      ]
      else some (ok macs)

  unfoldable pub addr_body : Addrs → NlMsg → Option (Result Addrs)
  addr_body st m =
      if m.mtype == 20
      then (if leb 8 (length m.payload)
          then elim (decode_rtattrs fuel big (drop (nlmsg_align 8) m.payload)) [
            | none ↦ none
            | some items ↦ some (addr_from lib big (take 8 m.payload) st items)
          ]
          else some (err Exn.struct_error))
      else some (ok st)

  -- `nicaddr.address += "%" + ifname` where it is link-local.
  abbrev pub with_zone : Text → NicAddr → Result NicAddr
  with_zone ifname a = elim a.family [
    | AddrFamily.af_inet6 ↦ lib.is_link_local a.address >>= λ here.
        ok (if here then record a { address = a.address ++ (37 ∷ ifname) } else a)
    | _ ↦ ok a
  ]

  abbrev pub with_zones : Text → List NicAddr → Result (List NicAddr)
  with_zones ifname [] = ok []
  with_zones ifname (a ∷ addrs) =
      with_zone ifname a >>= λ b. with_zones ifname addrs >>= λ bs. ok (b ∷ bs)

  -- `ifaddrs[link_index]`
  abbrev pub at_index : ℕ → Dict ℕ (List NicAddr) → Result (List NicAddr)
  at_index index ifaddrs = elim (lookup index ifaddrs) [
    | none ↦ err Exn.key_error
    | some addrs ↦ ok addrs
  ]

  -- The loop over `ifnames`, and the one over the links.
  unfoldable pub by_name :
      Dict Text (List NicAddr)
      → Dict ℕ (List NicAddr)
      → Dict ℕ Text
      → Result (Dict Text (List NicAddr))
  by_name results ifaddrs [] = ok results
  by_name results ifaddrs ((index, ifname) ∷ names) = do
    addrs ← at_index index ifaddrs
    zoned ← with_zones ifname addrs
    by_name (append_to ifname zoned results) ifaddrs names

  abbrev pub add_macs : Dict Text (List NicAddr) → Macs → Dict Text (List NicAddr)
  add_macs results [] = results
  add_macs results ((ifname, mac) ∷ macs) = add_macs (append_to ifname (mac ∷ []) results) macs

  abbrev pub joined : Macs → Addrs → Result (Dict Text (List NicAddr))
  joined macs st =
      by_name [] st.ifaddrs st.ifnames >>= λ results. ok (sort_all (add_macs results macs))

  -- One turn of `while True`: what the socket holds after either request.
  unfoldable pub attempt : Queue × Queue → Option (Result (Dict Text (List NicAddr)))
  attempt (links, addrs) = elim (read_nlmsgs fuel big links) [
    | none ↦ none
    | some (err ex) ↦ some (err ex)
    | some (ok ms) ↦ elim (for_msgs link_body [] ms) [
      | none ↦ none
      | some (err ex) ↦ some (err ex)
      | some (ok macs) ↦ elim (read_nlmsgs fuel big addrs) [
        | none ↦ none
        | some (err ex) ↦ some (err ex)
        | some (ok ns) ↦ elim (for_msgs addr_body no_addrs ns) [
          | none ↦ none
          | some (err ex) ↦ some (err ex)
          | some (ok st) ↦ some (joined macs st)
        ]
      ]
    ]
  ]

  -- `net_if_addrs`: the attempt with a number meets what the socket holds then; 105 is ENOBUFS. None
  -- if the turns do not suffice.
  unfoldable pub net_if_addrs : ℕ → (ℕ → Queue × Queue) → Option (Result (Dict Text (List NicAddr)))
  net_if_addrs zero kernel = none
  net_if_addrs (suc turns) kernel =
      let again = net_if_addrs turns (λ i. kernel (suc i)) in
      elim (attempt (kernel 0)) [
        | some (err (Exn.os_error errno)) ↦
            if errno == 105 then again else some (err (Exn.os_error errno))
        | r ↦ r
      ]
