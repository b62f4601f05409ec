-- ===== src/Linux/NetAddrs.antt =====
-- `net_if_addrs` of pypsutil/_pslinux.py: what is read from the two dumps of the kernel. What is taken
-- from Python's library, `bytes.decode` and the module `ipaddress`, is an argument; the byte order
-- `big` and the fuel of the loops of Netlink are arguments as well.
pub mod Join
pub mod Read
pub mod Exact
pub mod Retry
pub mod Sorted
pub mod Known
pub mod Families
pub mod Listing
use pypsutil.Prelude.{
  ℕ, zero, suc, ◌+◌, ◌-◌, ◌*◌, ◌/◌, ◌%◌, Bool, true, false, Option, none, some, List, [], ◌∷◌, ◌++◌,
  ◌&&◌, ◌||◌, ◌==◌, not, ltb, take, drop, length, is_empty, any, if◌then◌else◌, map, nat_eq, Eq,
}
use pypsutil.Prelude.Dict.{Dict, lookup, insert}
use pypsutil.Prelude.Exn.{Exn, Result, ok, err, ◌>>=◌}
use pypsutil.Prelude.Text.{Text, text_keys, text_eq}
use pypsutil.Linux.Netlink.{Bytes, NlMsg, RtAttr, field_at, nlmsg_align, decode_rtattrs}

pub data AddrFamily : Type 0 where
  af_unspec af_inet af_inet6 af_packet : AddrFamily

-- The numbers of the families.
abbrev pub number : AddrFamily → ℕ
number AddrFamily.af_unspec = 0
number AddrFamily.af_inet = 2
number AddrFamily.af_inet6 = 10
number AddrFamily.af_packet = 17

pub record NicAddr : Type 0 where
  pub family : AddrFamily
  pub address : Text
  pub netmask : Option Text
  pub broadcast : Option Text
  pub ptp : Option Text

-- `bytes.decode`; `str(IPv6Address(bytes))`, the netmask of a network for a prefix length, and
-- `IPv6Address(text).is_link_local`.
pub record Library : Type 0 where
  pub decode : Bytes → Result Text
  pub ipv6_str : Bytes → Result Text
  pub ipv4_netmask : ℕ → Result Text
  pub ipv6_netmask : ℕ → Result Text
  pub is_link_local : Text → Result Bool

-- `str(byte)`, `f"{byte:02x}"` and `sep.join(parts)`, with the character as its code.
abbrev byte_str : ℕ → Text
byte_str b =
    if ltb b 10
    then (48 + b) ∷ []
    else if ltb b 100
    then (48 + b / 10) ∷ (48 + b % 10) ∷ []
    else (48 + b / 100) ∷ (48 + b / 10 % 10) ∷ (48 + b % 10) ∷ []

abbrev hex_digit : ℕ → ℕ
hex_digit d = if ltb d 10 then 48 + d else 87 + d

abbrev byte_hex : ℕ → Text
byte_hex b = hex_digit (b / 16) ∷ hex_digit (b % 16) ∷ []

abbrev join_with : ℕ → List Text → Text
join_with sep [] = []
join_with sep (t ∷ []) = t
join_with sep (t ∷ ts) = t ++ (sep ∷ join_with sep ts)

abbrev dotted : Bytes → Text
dotted bs = join_with 46 (map byte_str bs)

abbrev coloned : Bytes → Text
coloned bs = join_with 58 (map byte_hex (take 6 bs))

-- `data.split(b"\0", maxsplit=1)[0]`
abbrev before_null : Bytes → Bytes
before_null [] = []
before_null (b ∷ bs) = if b == 0 then [] else b ∷ before_null bs

-- The local variables of the loop over the attributes of a link.
pub record LinkInfo : Type 0 where
  pub ifname : Text
  pub mac_addr : Text
  pub broadcast : Option Text

abbrev pub no_link : LinkInfo
no_link = record { ifname = []; mac_addr = []; broadcast = none }

-- And of an address.
pub record AddrInfo : Type 0 where
  pub ifname : Text
  pub family : AddrFamily
  pub addr_local : Text
  pub addr_address : Text
  pub broadaddr : Option Text

abbrev pub no_addr : AddrInfo
no_addr = record {
  ifname = [];
  family = AddrFamily.af_unspec;
  addr_local = [];
  addr_address = [];
  broadaddr = none;
}

-- `for rtype, data in decode_rtattrs(...)`: an exception of the body, or of the generator at its end.
abbrev pub for_attrs :
    {S : Type 0} → (S → RtAttr → Result S) → S → List RtAttr → Option Exn → Result S
for_attrs body s [] none = ok s
for_attrs body s [] (some ex) = err ex
for_attrs body s (a ∷ attrs) ex = body s a >>= λ s'. for_attrs body s' attrs ex

abbrev pub Macs : Type 0
Macs = Dict Text NicAddr

pub record Addrs : Type 0 where
  pub ifnames : Dict ℕ Text
  pub ifaddrs : Dict ℕ (List NicAddr)

-- `ifaddrs.setdefault(link_index, [])` and `ifaddrs[link_index].append(a)`
abbrev pub append_to {κ} :
    {K : Type κ} → ⦃e : Eq K⦄ → K → List NicAddr → Dict K (List NicAddr) → Dict K (List NicAddr)
append_to k more d = elim (lookup k d) [
  | none ↦ insert k more d
  | some old ↦ insert k (old ++ more) d
]

module _ (lib : Library) where
  open lib use {decode, ipv6_str, ipv4_netmask, ipv6_netmask, is_link_local}

  unfoldable pub link_attr : LinkInfo → RtAttr → Result LinkInfo
  link_attr s (rtype, bs) =
      if rtype == 3
      then (decode (before_null bs) >>= λ name. ok (record s { ifname = name }))
      else if rtype == 1
      then ok (record s { mac_addr = if length bs == 4 then dotted bs else coloned bs })
      else if rtype == 2 && any (λ b. not (b == 0)) (take 6 bs)
      then ok (record s { broadcast = some (coloned bs) })
      else ok s

  -- The family and the text of an address.
  abbrev any_address : Bytes → Result (AddrFamily × Text)
  any_address bs =
      if length bs == 4
      then ok (AddrFamily.af_inet, dotted bs)
      else ipv6_str bs >>= λ s. ok (AddrFamily.af_inet6, s)

  unfoldable pub addr_attr : AddrInfo → RtAttr → Result AddrInfo
  addr_attr s (rtype, bs) =
      if rtype == 3
      then (decode (before_null bs) >>= λ name. ok (record s { ifname = name }))
      else if rtype == 2
      then (any_address bs >>= λ a. ok (record s { family = a.0; addr_local = a.1 }))
      else if rtype == 1
      then (any_address bs >>= λ a. ok (record s { family = a.0; addr_address = a.1 }))
      else if rtype == 4
      then (any_address bs >>= λ a. ok (record s { broadaddr = some a.1 }))
      else ok s

  -- What follows the loop over the attributes of a link.
  abbrev pub add_link : Macs → LinkInfo → Result Macs
  add_link macs s =
      let entry : NicAddr = record {
        family = AddrFamily.af_packet;
        address = s.mac_addr;
        netmask = none;
        broadcast = s.broadcast;
        ptp = none;
      } in
      if is_empty s.ifname || is_empty s.mac_addr then ok macs else elim (lookup s.ifname macs) [
        | some _ ↦ err Exn.assertion_error
        | none ↦ ok (insert s.ifname entry macs)
      ]

  -- The body of the first loop over messages, on the decoded attributes.
  abbrev pub link_from : Macs → List RtAttr × Option Exn → Result Macs
  link_from macs (attrs, ex) = for_attrs link_attr no_link attrs ex >>= add_link macs

  -- `assert family in (AF_INET, AF_INET6)`, and the netmask.
  abbrev pub netmask_of : AddrFamily → ℕ → Result Text
  netmask_of AddrFamily.af_inet prefixlen = ipv4_netmask prefixlen
  netmask_of AddrFamily.af_inet6 prefixlen = ipv6_netmask prefixlen
  netmask_of _ prefixlen = err Exn.assertion_error

  abbrev pub nic_addr : AddrInfo → Text → NicAddr
  nic_addr s mask = record {
    family = s.family;
    address = if is_empty s.addr_local then s.addr_address else s.addr_local;
    netmask = some mask;
    broadcast = s.broadaddr;
    ptp = elim s.broadaddr [
      | some _ ↦ none
      | none ↦
          if is_empty s.addr_local || is_empty s.addr_address then none else some s.addr_address
    ];
  }

  -- `assert ifnames.get(link_index) in (None, ifname)` and `ifnames[link_index] = ifname`
  abbrev pub set_name : ℕ → Text → Dict ℕ Text → Result (Dict ℕ Text)
  set_name index name names = elim (lookup index names) [
    | none ↦ ok (insert index name names)
    | some old ↦ if text_eq old name then ok (insert index name names) else err Exn.assertion_error
  ]

  -- What follows the loop over the attributes of an address.
  unfoldable pub add_addr : ℕ → ℕ → Addrs → AddrInfo → Result Addrs
  add_addr prefixlen index st s = do
    mask ← netmask_of s.family prefixlen
    names ← if is_empty s.ifname then ok st.ifnames else set_name index s.ifname st.ifnames
    ok (record { ifnames = names; ifaddrs = append_to index (nic_addr s mask ∷ []) st.ifaddrs })

  -- The body of the second loop, on the first eight bytes and the decoded attributes.
  abbrev pub addr_from : Bool → Bytes → Addrs → List RtAttr × Option Exn → Result Addrs
  addr_from big header st (attrs, ex) =
      for_attrs addr_attr no_addr attrs ex
      >>= add_addr (field_at big 1 1 header) (field_at big 4 4 header) st
