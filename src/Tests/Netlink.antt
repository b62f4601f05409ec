-- ===== src/Tests/Netlink.antt =====
-- The theorems on Netlink and `net_if_addrs`, at concrete inputs.
use pypsutil.Prelude.{
  ℕ, suc, ◌<◌, ◌≡◌, refl, sym, zero, true, false, none, some, List, [], ◌∷◌, ◌++◌, replicate, arith,
}
use pypsutil.Prelude.Exn.{ok, err, err≢ok, ◌>>=◌}
use pypsutil.Prelude.Text.{Text, codes}
use pypsutil.Linux.Netlink.{Bytes, NlMsg, RtAttr, Queue, send_nlmsg, read_nlmsgs, decode_rtattrs}
use pypsutil.Linux.Netlink.Layout.{attrs_bytes}
use pypsutil.Linux.Netlink.Headers.{msg_bytes}
use pypsutil.Linux.Netlink.Messages.{read_nlmsgs-send_nlmsg}
use pypsutil.Linux.Netlink.Hang.{decode_rtattrs_never}
use pypsutil.Linux.NetAddrs.{AddrFamily, NicAddr, Library, Macs, Addrs}
use pypsutil.Linux.NetAddrs.Join.{attempt, joined, no_addrs, net_if_addrs}
use pypsutil.Linux.NetAddrs.Read.{KernelMsg, datagrams, each_alone, together}
use pypsutil.Linux.NetAddrs.Exact.{link_alone, addr_alone, attempt-alone}
use pypsutil.Linux.NetAddrs.Retry.{no_buffers, net_if_addrs_returns}

-- A library that takes bytes for text and calls no address link-local.
abbrev library : Library
library = record {
  decode = λ bs. ok bs;
  ipv6_str = λ bs. ok bs;
  ipv4_netmask = λ n. ok (n ∷ []);
  ipv6_netmask = λ n. ok (n ∷ []);
  is_link_local = λ t. ok false;
}

abbrev request : NlMsg
request = record { mtype = 18; flags = 769; seq = 1; pid = 4321; payload = 17 ∷ [] }

read_nlmsgs-send_nlmsg_example :
    (bs : Bytes) × (send_nlmsg true request ≡ ok bs)
    × (read_nlmsgs 2 true (bs ∷ [], none) ≡ some (ok (request ∷ [])))
read_nlmsgs-send_nlmsg_example =
    read_nlmsgs-send_nlmsg 2 true request
      (omega arith, omega arith, omega arith, omega arith, omega arith) (omega arith) (omega arith)

abbrev name_attr : RtAttr
name_attr = (3, codes "lo" ++ (0 ∷ []))

decode_rtattrs_never_example :
    decode_rtattrs 1000 true (attrs_bytes true (name_attr ∷ []) (msg_bytes true request [])) ≡ none
decode_rtattrs_never_example =
    decode_rtattrs_never 1000 (name_attr ∷ []) request [] ((omega arith, omega arith), tt)
      (omega arith)

-- Two links in a datagram, and an address.
abbrev link : Text → ℕ → KernelMsg
link name mac = record {
  mtype = 16;
  flags = 2;
  seq = 1;
  pid = 4321;
  header = replicate 16 0;
  attrs = (3, name) ∷ (1, mac ∷ 0 ∷ 0 ∷ 0 ∷ 0 ∷ 0 ∷ []) ∷ [];
}

abbrev address : KernelMsg
address = record {
  mtype = 20;
  flags = 2;
  seq = 1;
  pid = 4321;
  header = 2 ∷ 24 ∷ 0 ∷ 0 ∷ 1 ∷ 0 ∷ 0 ∷ 0 ∷ [];
  attrs = (3, codes "lo") ∷ (2, 127 ∷ 0 ∷ 0 ∷ 1 ∷ []) ∷ [];
}

abbrev links : List (List KernelMsg)
links = (link (codes "lo") 2 ∷ link (codes "eth0") 4 ∷ []) ∷ []

abbrev addresses : List (List KernelMsg)
addresses = (address ∷ []) ∷ []

attempt-alone_example :
    attempt library 3000 false ((datagrams links, none), (datagrams addresses, none))
    ≡ some (
        each_alone (link_alone library) [] (together links) >>= λ macs.
        each_alone (addr_alone library) no_addrs (together addresses) >>= λ st.
        joined library 3000 false macs st)
attempt-alone_example =
    attempt-alone library 3000 links addresses
      (
        (
          (
            (
              refl,
              (λ e. refl),
              ((omega arith, omega arith), ((omega arith, omega arith), tt)),
              (omega arith, omega arith, omega arith, omega arith, omega arith),
              omega arith,
            ),
            (
              (
                refl,
                (λ e. refl),
                ((omega arith, omega arith), ((omega arith, omega arith), tt)),
                (omega arith, omega arith, omega arith, omega arith, omega arith),
                omega arith,
              ),
              tt,
            ),
          ),
          omega arith,
        ),
        tt,
      )
      (
        (
          (
            (
              refl,
              (λ e. refl),
              ((omega arith, omega arith), ((omega arith, omega arith), tt)),
              (omega arith, omega arith, omega arith, omega arith, omega arith),
              omega arith,
            ),
            tt,
          ),
          omega arith,
        ),
        tt,
      )
      (omega arith)

-- The kernel runs out of buffers twice and then has no interface at all.
abbrev kernel : ℕ → Queue × Queue
kernel zero = (([], some no_buffers), ([], none))
kernel (suc zero) = (([], none), ([], some no_buffers))
kernel (suc (suc n)) = (([], none), ([], none))

failing : (i : ℕ) → i < 2 → attempt library 5 false (kernel i) ≡ some (err no_buffers)
unfolding attempt read_nlmsgs
failing zero h = refl
failing (suc zero) h = refl
failing (suc (suc i)) h = absurd (omega (arith, h))

works : attempt library 5 false (kernel 2) ≡ some (ok [])
unfolding attempt read_nlmsgs pypsutil.Linux.NetAddrs.Join.by_name
works = refl

net_if_addrs_returns_example : net_if_addrs library 5 false 3 kernel ≡ some (ok [])
net_if_addrs_returns_example =
    net_if_addrs_returns library 5 false 2 3 kernel (ok []) failing works (λ e. err≢ok (sym e))
      (omega arith)

abbrev with_address : Addrs
with_address = record {
  ifnames = (1, codes "lo") ∷ [];
  ifaddrs =
      (
        1,
        record {
          family = AddrFamily.af_inet;
          address = codes "127.0.0.1";
          netmask = some (24 ∷ []);
          broadcast = none;
          ptp = none;
        }
            ∷ [],
      )
      ∷ [];
}

abbrev link_of_lo : Macs
link_of_lo =
    (
      codes "lo",
      record {
        family = AddrFamily.af_packet;
        address = codes "00:00:00:00:00:00";
        netmask = none;
        broadcast = none;
        ptp = none;
      },
    )
    ∷ []
