-- ===== src/Linux/Netlink.antt =====
-- Netlink messages in pypsutil/_pslinux.py: `nlmsg_align`, `NetlinkSocket` and `decode_rtattrs`. The
-- formats of `struct` begin with "=", so that numbers have the byte order of the machine: the argument
-- `big` says whether it puts the big end first.
pub mod Layout
pub mod Headers
pub mod Attrs
pub mod Messages
pub mod Overrun
pub mod Hang
use mathlib.Core.List.{reverse}
use pypsutil.Prelude.{
  ℕ, zero, suc, ◌+◌, ◌-◌, ◌*◌, ◌/◌, ◌^◌, Bool, true, false, Option, none, some, List, [], ◌∷◌, ◌++◌,
  ◌&&◌, ltb, leb, take, drop, length, is_empty, if◌then◌else◌,
}
use pypsutil.Prelude.Exn.{Exn, Result, ok, err, ◌>>=◌}
use pypsutil.Util.Endian.{bytes_le, from_bytes_little, from_bytes_big}

abbrev pub Bytes : Type 0
Bytes = List ℕ

-- `struct.unpack` on the bytes of one number, and the bytes of a number.
abbrev pub from_bytes : Bool → Bytes → ℕ
from_bytes big bs = if big then from_bytes_big bs else from_bytes_little bs

abbrev pub to_bytes : Bool → ℕ → ℕ → Bytes
to_bytes big width n = if big then reverse (bytes_le width n) else bytes_le width n

-- The number of `width` bytes at an offset.
abbrev pub field_at : Bool → ℕ → ℕ → Bytes → ℕ
field_at big offset width bytes = from_bytes big (take width (drop offset bytes))

-- `struct.pack` for one number.
abbrev pub pack : Bool → ℕ → ℕ → Result Bytes
pack big width n = if ltb n (256 ^ width) then ok (to_bytes big width n) else err Exn.struct_error

-- `(size + 3) & ~3`
abbrev pub nlmsg_align : ℕ → ℕ
nlmsg_align size = (size + 3) / 4 * 4

pub record NlMsg : Type 0 where
  pub mtype : ℕ
  pub flags : ℕ
  pub seq : ℕ
  pub pid : ℕ
  pub payload : Bytes

-- The bytes that `send_nlmsg` gives to `sendmsg`.
unfoldable pub send_nlmsg : Bool → NlMsg → Result Bytes
send_nlmsg big m = do
  a ← pack big 4 (length m.payload + 16)
  b ← pack big 2 m.mtype
  c ← pack big 2 m.flags
  d ← pack big 4 m.seq
  e ← pack big 4 m.pid
  ok (a ++ (b ++ (c ++ (d ++ (e ++ m.payload)))))

-- The header of a message and `data[self._NLMSG_SIZE:]`.
abbrev pub head_msg : Bool → Bytes → NlMsg
head_msg big bytes = record {
  mtype = field_at big 4 2 bytes;
  flags = field_at big 6 2 bytes;
  seq = field_at big 8 4 bytes;
  pid = field_at big 12 4 bytes;
  payload = drop 16 bytes;
}

-- The inner loop of `read_nlmsgs` on fuel: the messages, and what is left of the data.
unfoldable pub cut_msgs : ℕ → Bool → Bytes → Option (List NlMsg × Bytes)
cut_msgs zero big bytes = none
cut_msgs (suc fuel) big bytes =
    let size = field_at big 0 4 bytes in
    let rest = cut_msgs fuel big (drop (nlmsg_align size) bytes) in
    if leb 16 (length bytes) && leb size (length bytes)
    then elim rest [ none ↦ none | some (msgs, left) ↦ some (head_msg big bytes ∷ msgs, left) ]
    else some ([], bytes)

-- What `recvmsg` will give: datagrams, then `BlockingIOError` (none) or another exception.
abbrev pub Queue : Type 0
Queue = List Bytes × Option Exn

abbrev pub read_from : ℕ → Bool → Bytes → List Bytes → Option Exn → Option (Result (List NlMsg))
read_from fuel big bytes [] none = some (ok [])
read_from fuel big bytes [] (some ex) = some (err ex)
read_from fuel big bytes (d ∷ ds) ex = elim (cut_msgs fuel big (bytes ++ take 8192 d)) [
  | none ↦ none
  | some (msgs, left) ↦ elim (read_from fuel big left ds ex) [
    | none ↦ none
    | some r ↦ some (r >>= λ more. ok (msgs ++ more))
  ]
]

unfoldable pub read_nlmsgs : ℕ → Bool → Queue → Option (Result (List NlMsg))
read_nlmsgs fuel big (datagrams, ex) = read_from fuel big [] datagrams ex

abbrev pub RtAttr : Type 0
RtAttr = ℕ × Bytes

-- `decode_rtattrs` on fuel: what it yields, and the exception that ends it, if one does.
unfoldable pub decode_rtattrs : ℕ → Bool → Bytes → Option (List RtAttr × Option Exn)
decode_rtattrs zero big bytes = none
decode_rtattrs (suc fuel) big bytes =
    let size = field_at big 0 2 bytes in
    let attr : RtAttr = (field_at big 2 2 bytes, take (size - 4) (drop 4 bytes)) in
    let rest = decode_rtattrs fuel big (drop (nlmsg_align size) bytes) in
    if is_empty bytes
    then some ([], none)
    else if ltb (length bytes) 4
    then some ([], some Exn.struct_error)
    else elim rest [ none ↦ none | some (attrs, ex) ↦ some (attr ∷ attrs, ex) ]
