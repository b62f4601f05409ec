-- ===== src/Linux/NetAddrs/Listing.antt =====
-- The dictionary that `net_if_addrs` of pypsutil/_pslinux.py returns, told name by name.
use pypsutil.Prelude.{ℕ, ◌≡◌, Bool, true, List, [], ◌∷◌, ◌++◌, if◌then◌else◌, nat_eq, map}
use pypsutil.Prelude.Dict.{Dict, lookup}
use pypsutil.Prelude.Exn.{Exn, Result, ok, err}
use pypsutil.Prelude.Text.{Text, text_keys, text_eq}
use pypsutil.Linux.NetAddrs.{AddrFamily, NicAddr, Library, Macs, Addrs}
use pypsutil.Linux.NetAddrs.Sorted.{AllSorted}
use pypsutil.Linux.NetAddrs.Families.{or_empty, addrs_of, of_family, macs_named}

module _ (lib : Library) where
  -- An address, with its zone if it is link-local.
  abbrev pub zoned : Text → NicAddr → NicAddr
  zoned ifname a = elim a.family [
    | AddrFamily.af_inet6 ↦ elim (lib.is_link_local a.address) [
      | ok true ↦ record a { address = a.address ++ (37 ∷ ifname) }
      | _ ↦ a
    ]
    | _ ↦ a
  ]

  -- The addresses of the indices with this name.
  abbrev pub addrs_named : Dict ℕ (List NicAddr) → Text → Dict ℕ Text → List NicAddr
  addrs_named ifaddrs name [] = []
  addrs_named ifaddrs name ((index, n) ∷ names) =
      if text_eq name n
      then map (zoned n) (or_empty (lookup index ifaddrs)) ++ addrs_named ifaddrs name names
      else addrs_named ifaddrs name names

  -- The library refuses a text as an IPv6 address.
  abbrev pub Refuses : Exn → Type 0
  Refuses ex = (t : Text) × (lib.is_link_local t ≡ err ex)

  -- What comes back: the addresses of each name by ascending family, and of each family the ones of
  -- the indices with this name, zones added, and then the links with it, in the order of reading. Or
  -- an exception with which the library has refused an address.
  abbrev pub IsListing : Macs → Addrs → Result (Dict Text (List NicAddr)) → Type 0
  IsListing macs st (err ex) = Refuses ex
  IsListing macs st (ok d) =
      AllSorted d
      × ((name : Text) (n : ℕ)
          → of_family n (addrs_of name d)
            ≡ of_family n (addrs_named st.ifaddrs name st.ifnames ++ macs_named name macs))

  module _ (fuel : ℕ) (big : Bool) where
    -- What the loop over the indices makes of its results.
    abbrev Named :
        Dict Text (List NicAddr)
        → Dict ℕ (List NicAddr)
        → Dict ℕ Text
        → Result (Dict Text (List NicAddr))
        → Type 0
    Named results ifaddrs names (err ex) = Refuses ex
    Named results ifaddrs names (ok d) =
        (name : Text) → addrs_of name d ≡ addrs_of name results ++ addrs_named ifaddrs name names
