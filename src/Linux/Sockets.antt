-- ===== src/Linux/Sockets.antt =====
-- `_iter_connections` of pypsutil/_pslinux.py: the tables of sockets under /proc/net. The lines of the
-- files are an argument. An IPv4 address is kept as the four numbers that are printed, an IPv6 address
-- as the number that `ipaddress.IPv6Address` gets.
pub mod Join
pub mod LastRows
pub mod Once
pub mod Found
use pypsutil.Prelude.{
  ℕ, zero, suc, ◌+◌, ◌*◌, ◌/◌, ◌%◌, ◌^◌, Bool, true, false, ◌&&◌, Option, none, some, List, [], ◌∷◌,
  ◌++◌, ◌==◌, if◌then◌else◌, any, drop, String, nat_eq,
}
use pypsutil.Prelude.Exn.{Exn, Result, ok, err, ◌>>=◌}
use pypsutil.Prelude.Text.{Text, codes, split, parse_int, text_eq}
use pypsutil.Prelude.Dict.{Dict, lookup}
use pypsutil.Linux.Stat.{or_value_error}
use pypsutil.Linux.Status.{rstrip_newlines}
use pypsutil.Linux.Maps.{split_max, two_hex}
use pypsutil.Util.Connections.{Family, SockType}
use pypsutil.Util.Endian.{inet4_parts}

-- The members of `ConnectionStatus` that the table of states names.
pub data ConnectionStatus : Type 0 where
  established syn_sent syn_recv fin_wait1 fin_wait2 time_wait close close_wait last_ack listen
        closing :
      ConnectionStatus

pub data Address : Type 0 where
  -- `("", 0)`
  unset : Address
  inet4 : List ℕ → ℕ → Address
  inet6 : ℕ → ℕ → Address
  -- a path, or the empty text
  unix_path : Text → Address

-- The keywords that every `Connection` gets from the tables.
pub record Info : Type 0 where
  pub family : Family
  pub stype : SockType
  pub laddr : Address
  pub raddr : Address
  pub status : Option ConnectionStatus

-- `table[n]`
abbrev pub at_key : {A : Type 0} → ℕ → Dict ℕ A → Result A
at_key n table = elim (lookup n table) [ none ↦ err Exn.key_error | some a ↦ ok a ]

-- `_TCP_STATES`
abbrev pub tcp_states : Dict ℕ ConnectionStatus
tcp_states =
    (1, ConnectionStatus.established)
    ∷ (2, ConnectionStatus.syn_sent)
    ∷ (3, ConnectionStatus.syn_recv)
    ∷ (4, ConnectionStatus.fin_wait1)
    ∷ (5, ConnectionStatus.fin_wait2)
    ∷ (6, ConnectionStatus.time_wait)
    ∷ (7, ConnectionStatus.close)
    ∷ (8, ConnectionStatus.close_wait)
    ∷ (9, ConnectionStatus.last_ack)
    ∷ (10, ConnectionStatus.listen)
    ∷ (11, ConnectionStatus.closing)
    ∷ (12, ConnectionStatus.syn_recv)
    ∷ []

-- `_SOCK_TYPES`
abbrev pub sock_types : Dict ℕ SockType
sock_types = (1, SockType.stream) ∷ (2, SockType.dgram) ∷ (5, SockType.seqpacket) ∷ []

-- The bytes of a 32-bit number in the opposite order: the masks and shifts of `decode_inet6`.
abbrev pub swap32 : ℕ → ℕ
swap32 part =
    part / 2 ^ 24 % 256
    + part / 2 ^ 16 % 256 * 2 ^ 8
    + part / 2 ^ 8 % 256 * 2 ^ 16
    + part % 256 * 2 ^ 24

-- `decode_inet6`, with `native` set, up to the number that it prints.
abbrev pub inet6_number : Bool → ℕ → ℕ
inet6_number is_big addr =
    let fix = λ (part : ℕ). if is_big then part else swap32 part in
    fix (addr / 2 ^ 96 % 2 ^ 32) * 2 ^ 96
    + fix (addr / 2 ^ 64 % 2 ^ 32) * 2 ^ 64
    + fix (addr / 2 ^ 32 % 2 ^ 32) * 2 ^ 32
    + fix (addr % 2 ^ 32)

-- What a generator yields, and the exception that ends it.
abbrev pub Items : Type 0 → Type 0
Items A = List A × Option Exn

abbrev pub then_items : {A : Type 0} → Items A → Items A → Items A
then_items (xs, some ex) ys = (xs, some ex)
then_items (xs, none) (ys, ended) = (xs ++ ys, ended)

-- The files under /proc/net, by their lines.
pub record NetTables : Type 0 where
  pub tcp : Result (List Text)
  pub tcp6 : Result (List Text)
  pub udp : Result (List Text)
  pub udp6 : Result (List Text)
  pub unix : Result (List Text)

module _ (is_big : Bool) where
  -- `_decode_net_addr4` and `_decode_net_addr6`
  decode_net_addr : Family → Text → Result Address
  decode_net_addr Family.inet6 text = do
    (addr, port) ← two_hex 58 text
    ok (if (addr == 0) && (port == 0) then unset else inet6 (inet6_number is_big addr) port)
  decode_net_addr _ text = do
    (addr, port) ← two_hex 58 text
    ok (if (addr == 0) && (port == 0) then unset else inet4 (inet4_parts is_big addr true) port)

  -- The status that a line gives: that of a datagram socket is not read.
  line_status : SockType → Text → Result (Option ConnectionStatus)
  line_status SockType.stream state = do
    n ← or_value_error (parse_int 16 state)
    status ← at_key n tcp_states
    ok (some status)
  line_status _ state = ok none

  -- The words of a line of "tcp", "tcp6", "udp" or "udp6".
  inet_row : Family → SockType → List Text → Result (Info × ℕ)
  unfolding decode_net_addr line_status
  inet_row family stype (_ ∷ laddr ∷ raddr ∷ state ∷ _ ∷ _ ∷ _ ∷ _ ∷ _ ∷ inode ∷ _) = do
    l ← decode_net_addr family laddr
    r ← decode_net_addr family raddr
    status ← line_status stype state
    i ← or_value_error (parse_int 10 inode)
    ok (record { family = family; stype = stype; laddr = l; raddr = r; status = status }, i)
  inet_row family stype _ = err Exn.value_error

  -- The words of a line of "unix".
  unix_row : List Text → Result (Info × ℕ)
  unix_row (_ ∷ _ ∷ _ ∷ _ ∷ stype ∷ _ ∷ inode ∷ path) = do
    n ← or_value_error (parse_int 10 stype)
    t ← at_key n sock_types
    i ← or_value_error (parse_int 10 inode)
    ok (
      record {
        family = Family.unix;
        stype = t;
        laddr = unix_path (elim path [ [] ↦ [] | p ∷ _ ↦ p ]);
        raddr = unix_path [];
        status = none;
      },
      i,
    )
  unix_row _ = err Exn.value_error

  abbrev cons_row : Result (Info × ℕ) → Items (Info × ℕ) → Items (Info × ℕ)
  cons_row (err ex) rest = ([], some ex)
  cons_row (ok row) (rows, ended) = (row ∷ rows, ended)

  rows_of : (Text → Result (Info × ℕ)) → List Text → Items (Info × ℕ)
  rows_of read [] = ([], none)
  rows_of read (line ∷ lines) = cons_row (read line) (rows_of read lines)

  -- One `if kind in …`: the first line of the file is a heading.
  table : Bool → (Text → Result (Info × ℕ)) → Result (List Text) → Items (Info × ℕ)
  unfolding rows_of
  table false read file = ([], none)
  table true read (err ex) = ([], some ex)
  table true read (ok lines) = rows_of read (drop 1 lines)

  abbrev one_of : Text → List String → Bool
  one_of kind kinds = any (λ k. text_eq kind (codes k)) kinds

  abbrev inet_line : Family → SockType → Text → Result (Info × ℕ)
  inet_line family stype line = inet_row family stype (split (rstrip_newlines line))

  unfoldable pub iter_connections : Text → NetTables → Items (Info × ℕ)
  unfolding inet_row unix_row table
  iter_connections kind net =
      then_items
        (table (one_of kind ("tcp4" ∷ "tcp" ∷ "inet4" ∷ "inet" ∷ "all" ∷ []))
          (inet_line Family.inet SockType.stream) net.tcp)
        (then_items
          (table (one_of kind ("tcp6" ∷ "tcp" ∷ "inet6" ∷ "inet" ∷ "all" ∷ []))
            (inet_line Family.inet6 SockType.stream) net.tcp6)
          (then_items
            (table (one_of kind ("udp4" ∷ "udp" ∷ "inet4" ∷ "inet" ∷ "all" ∷ []))
              (inet_line Family.inet SockType.dgram) net.udp)
            (then_items
              (table (one_of kind ("udp6" ∷ "udp" ∷ "inet6" ∷ "inet" ∷ "all" ∷ []))
                (inet_line Family.inet6 SockType.dgram) net.udp6)
              (table (one_of kind ("unix" ∷ "all" ∷ []))
                (λ line. unix_row (split_max 7 (rstrip_newlines line))) net.unix))))
