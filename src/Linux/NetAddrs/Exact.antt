-- ===== src/Linux/NetAddrs/Exact.antt =====
-- What `net_if_addrs` of pypsutil/_pslinux.py makes of the datagrams of the kernel.
use pypsutil.Prelude.{
  ℕ, ◌+◌, ◌≤◌, ◌<◌, ◌≡◌, refl, ap, ◌∙◌, inl, inr, true, false, none, some, List, [], ◌++◌, ◌==◌,
  leb, take, drop, length, take-append, drop-append, arith, length-append, All, if◌then◌else◌,
  Bool-cases, ==_iff, map,
}
use pypsutil.Prelude.Exn.{Result, ok, err, ◌>>=◌}
use pypsutil.Linux.Netlink.{Bytes, NlMsg, Queue, field_at, read_nlmsgs}
use pypsutil.Linux.Netlink.Layout.{attrs_bytes}
use pypsutil.Linux.Netlink.Headers.{datagram}
use pypsutil.Linux.Netlink.Messages.{overruns, read_nlmsgs-datagrams}
use pypsutil.Linux.Netlink.Overrun.{behind, decode_rtattrs-overrun}
use pypsutil.Linux.NetAddrs.{
  Library, LinkInfo, AddrInfo, Macs, Addrs, link_attr, addr_attr, no_link, no_addr, add_addr,
  link_from, addr_from,
}
use pypsutil.Linux.NetAddrs.Join.{for_msgs, link_body, addr_body, no_addrs, joined, attempt}
use pypsutil.Linux.NetAddrs.Read.{
  KernelMsg, message, IsLaidOut, IsSmall, with_rest, each_alone, AllLaidOut, together, datagrams,
  for_attrs-behind, for_msgs_alone, all_fit,
}

module _ (lib : Library) where
  -- A message alone, with its attributes as they are.
  abbrev pub link_alone : Macs → KernelMsg → Result Macs
  link_alone macs k = if k.mtype == 16 then link_from lib macs (k.attrs, none) else ok macs

  abbrev pub addr_alone : Addrs → KernelMsg → Result Addrs
  addr_alone st k = if k.mtype == 20 then addr_from lib false k.header st (k.attrs, none) else ok st

  link_attr_other : (s : LinkInfo) (bs : Bytes) → link_attr lib s (0, bs) ≡ ok s
  unfolding link_attr
  link_attr_other s bs = refl

  addr_attr_other : (s : AddrInfo) (bs : Bytes) → addr_attr lib s (0, bs) ≡ ok s
  unfolding addr_attr
  addr_attr_other s bs = refl

  module _ (fuel : ℕ) where
    link_body-alone :
        (macs : Macs) (k : KernelMsg) (ms : List NlMsg)
        → IsLaidOut 16 16 k
        → All IsSmall ms
        → length k.attrs + length ms < fuel
        → link_body lib fuel false macs (with_rest k (datagram false ms)) ≡ some (link_alone macs k)
    unfolding link_body
    link_body-alone macs k ms (h4, hsize, hattrs, hfits, hsmall) small enough =
        elim (Bool-cases (k.mtype == 16)) [
          | inr other ↦ rw other refl
          | inl mine ↦
              let size : length k.header ≡ 16 = hsize ((==_iff k.mtype 16).0 mine) in
              let rest = attrs_bytes false k.attrs (datagram false ms) in
              let cut : drop 16 (k.header ++ rest) ≡ rest = drop-append 16 k.header rest size in
              let read = decode_rtattrs-overrun fuel k.attrs ms hattrs small enough in
              let same = for_attrs-behind (link_attr lib) no_link k.attrs ms link_attr_other in
              rw (mine, cut, read, same) refl
        ]

    addr_body-alone :
        (st : Addrs) (k : KernelMsg) (ms : List NlMsg)
        → IsLaidOut 20 8 k
        → All IsSmall ms
        → length k.attrs + length ms < fuel
        → addr_body lib fuel false st (with_rest k (datagram false ms)) ≡ some (addr_alone st k)
    unfolding addr_body
    addr_body-alone st k ms (h4, hsize, hattrs, hfits, hsmall) small enough =
        elim (Bool-cases (k.mtype == 20)) [
          | inr other ↦ rw other refl
          | inl mine ↦
              let size : length k.header ≡ 8 = hsize ((==_iff k.mtype 20).0 mine) in
              let rest = attrs_bytes false k.attrs (datagram false ms) in
              let long : leb 8 (length (k.header ++ rest)) ≡ true =
                ground (arith, size, length-append k.header rest) in
              let front : take 8 (k.header ++ rest) ≡ k.header = take-append 8 k.header rest size in
              let cut : drop 8 (k.header ++ rest) ≡ rest = drop-append 8 k.header rest size in
              let read = decode_rtattrs-overrun fuel k.attrs ms hattrs small enough in
              let same = for_attrs-behind (addr_attr lib) no_addr k.attrs ms addr_attr_other in
              rw (mine, long, cut, read)
                (ap (λ (hd : Bytes). some (addr_from lib false hd st (k.attrs ++ behind ms, none)))
                    front
                  ∙ ap
                      (λ (r : Result AddrInfo). some (
                        r
                        >>= add_addr lib (field_at false 1 1 k.header) (field_at false 4 4 k.header)
                            st))
                      same)
        ]

    attempt_steps :
        (q r : Queue) (ms ns : List NlMsg) (macs : Result Macs) (st : Result Addrs)
        → read_nlmsgs fuel false q ≡ some (ok ms)
        → for_msgs (link_body lib fuel false) [] ms ≡ some macs
        → read_nlmsgs fuel false r ≡ some (ok ns)
        → for_msgs (addr_body lib fuel false) no_addrs ns ≡ some st
        → attempt lib fuel false (q, r) ≡ some (macs >>= λ m. st >>= λ s. joined lib fuel false m s)
    unfolding attempt
    attempt_steps q r ms ns (err ex) st e1 e2 e3 e4 = rw (attempt, e1, e2) refl
    attempt_steps q r ms ns (ok macs) (err ex) e1 e2 e3 e4 = rw (attempt, e1, e2, e3, e4) refl
    attempt_steps q r ms ns (ok macs) (ok st) e1 e2 e3 e4 = rw (attempt, e1, e2, e3, e4) refl

    -- Each message that `read_nlmsgs` returns holds everything behind it in its datagram. On a machine
    -- with the small end first that does no harm: for datagrams of at most 8192 bytes, with messages of
    -- links and then of addresses laid out as the kernel does it, a turn of `net_if_addrs` ends, within
    -- 2049 rounds of each loop, and gives what the messages and their own attributes give one by one.
    pub attempt-alone :
        (lss ass : List (List KernelMsg))
        → AllLaidOut 16 16 lss
        → AllLaidOut 20 8 ass
        → 2049 ≤ fuel
        → attempt lib fuel false ((datagrams lss, none), (datagrams ass, none))
          ≡ some (
              each_alone link_alone [] (together lss) >>= λ macs.
              each_alone addr_alone no_addrs (together ass) >>= λ st. joined lib fuel false macs st)
    attempt-alone lss ass hl ha enough =
        let links = map (map message) lss in
        let addrs = map (map message) ass in
        attempt_steps (datagrams lss, none) (datagrams ass, none) (overruns false links)
          (overruns false addrs) (each_alone link_alone [] (together lss))
          (each_alone addr_alone no_addrs (together ass))
          (read_nlmsgs-datagrams links fuel false (all_fit 16 16 lss hl) (omega (arith, enough)))
          (for_msgs_alone (link_body lib fuel false) link_alone 16 16 fuel link_body-alone enough []
            lss hl)
          (read_nlmsgs-datagrams addrs fuel false (all_fit 20 8 ass ha) (omega (arith, enough)))
          (for_msgs_alone (addr_body lib fuel false) addr_alone 20 8 fuel addr_body-alone enough
            no_addrs ass ha)
