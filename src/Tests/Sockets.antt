-- ===== src/Tests/Sockets.antt =====
-- The theorems on sockets at concrete inputs.
use pypsutil.Prelude.{
  ℕ, ◌≡◌, refl, true, false, Option, none, some, List, [], ◌∷◌, ◌==◌, if◌then◌else◌,
}
use pypsutil.Prelude.Exn.{Exn, Result, ok, err}
use pypsutil.Prelude.Text.{Text, codes}
use pypsutil.Util.Connections.{Family, SockType}
use pypsutil.Linux.Maps.{sum_of}
use pypsutil.Linux.Sockets.{Info, Address, ConnectionStatus, NetTables, iter_connections}
use pypsutil.Linux.Sockets.Join.{Connection, FdEntries, join, net_connections}
use pypsutil.Linux.Sockets.Once.{net_connections-sum_of}
use pypsutil.Linux.Sockets.Found.{join-owned}

abbrev listening : ℕ → Info
listening port = record {
  family = Family.inet;
  stype = SockType.stream;
  laddr = Address.inet4 (127 ∷ 0 ∷ 0 ∷ 1 ∷ []) port;
  raddr = Address.unset;
  status = some ConnectionStatus.listen;
}

abbrev net : NetTables
net = record {
  tcp = ok (
      codes "  sl  local_address rem_address   st"
      ∷ codes
          "   0: 0100007F:0050 00000000:0000 0A 00000000:00000000 00:00000000 00000000  1000        0 77 1\n"
      ∷ []);
  tcp6 = ok [];
  udp = ok [];
  udp6 = ok [];
  unix = err Exn.permission_error;
}

read_net : iter_connections false (codes "tcp") net ≡ ((listening 80, 77) ∷ [], none)
unfolding iter_connections pypsutil.Prelude.Text.split pypsutil.Linux.Status.rstrip_newlines
    pypsutil.Linux.Maps.two_hex pypsutil.Prelude.Text.cut_at pypsutil.Prelude.Text.parse_int
    pypsutil.Util.Endian.inet4_parts
read_net = refl

abbrev sockets : List (Info × ℕ)
sockets = (listening 80, 77) ∷ (listening 81, 78) ∷ (listening 82, 79) ∷ []

abbrev held : List (ℕ × Result FdEntries)
held =
    (1, err Exn.permission_error)
    ∷ (2, ok ((0, ok (false, 5)) ∷ (3, ok (true, 78)) ∷ (4, err Exn.file_not_found_error) ∷ []))
    ∷ []

abbrev port_is_81 : Info → ℕ
port_is_81 info = elim info.laddr [ Address.inet4 _ port ↦ if port == 81 then 1 else 0 | _ ↦ 0 ]

net_connections-sum_of_example :
    sum_of (λ (c : Connection). port_is_81 c.info) (net_connections held (sockets, none)).0 ≡ 1
unfolding net_connections
net_connections-sum_of_example = net_connections-sum_of port_is_81 held sockets refl

join-owned_example :
    (join 2 sockets none ((78, 3) ∷ (5, 6) ∷ [])).0
    ≡ record { fd = some 3; pid = some 2; info = listening 81 } ∷ []
join-owned_example =
    join-owned 2 sockets none ((78, 3) ∷ (5, 6) ∷ []) ((refl, (refl, tt)), ((refl, tt), (tt, tt)))
