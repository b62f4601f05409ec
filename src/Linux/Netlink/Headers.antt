-- ===== src/Linux/Netlink/Headers.antt =====
-- The layout of messages in bytes, and how their headers are read.
use pypsutil.Prelude.{
  ℕ, ◌+◌, ◌-◌, ◌^◌, ◌<◌, ◌≡◌, ◌∙◌, Bool, List, [], ◌∷◌, ◌++◌, drop, length, drop-append,
  append_assoc, arith, length-append, length-replicate,
}
use pypsutil.Linux.Netlink.{Bytes, NlMsg, head_msg, to_bytes, field_at, nlmsg_align}
use pypsutil.Linux.Netlink.Layout.{
  length-to_bytes, field_at_past, field_at_here, drop_field, padding,
}

-- The header of a message that gives its size as `n`, in front of other bytes.
abbrev pub head_bytes : Bool → ℕ → NlMsg → Bytes → Bytes
head_bytes big n m rest =
    to_bytes big 4 n
    ++ (to_bytes big 2 m.mtype
        ++ (to_bytes big 2 m.flags ++ (to_bytes big 4 m.seq ++ (to_bytes big 4 m.pid ++ rest))))

-- A message as the kernel lays it out in front of other bytes, and a datagram of messages.
abbrev pub msg_bytes : Bool → NlMsg → Bytes → Bytes
msg_bytes big m rest =
    head_bytes big (length m.payload + 16) m (m.payload ++ (padding (length m.payload) ++ rest))

abbrev pub datagram : Bool → List NlMsg → Bytes
datagram big [] = []
datagram big (m ∷ ms) = msg_bytes big m (datagram big ms)

abbrev pub MsgFits : NlMsg → Type 0
MsgFits m =
    (m.mtype < 2 ^ 16)
    × (m.flags < 2 ^ 16)
    × (m.seq < 2 ^ 32)
    × (m.pid < 2 ^ 32)
    × (length m.payload + 16 < 2 ^ 32)

pub length-head_bytes :
    (big : Bool) (n : ℕ) (m : NlMsg) (rest : Bytes)
    → length (head_bytes big n m rest) ≡ 16 + length rest
length-head_bytes big n m rest = omega (
  arith,
  length-append (to_bytes big 4 n) (
      to_bytes big 2 m.mtype
      ++ (to_bytes big 2 m.flags ++ (to_bytes big 4 m.seq ++ (to_bytes big 4 m.pid ++ rest)))),
  length-append (to_bytes big 2 m.mtype)
      (to_bytes big 2 m.flags ++ (to_bytes big 4 m.seq ++ (to_bytes big 4 m.pid ++ rest))),
  length-append (to_bytes big 2 m.flags) (to_bytes big 4 m.seq ++ (to_bytes big 4 m.pid ++ rest)),
  length-append (to_bytes big 4 m.seq) (to_bytes big 4 m.pid ++ rest),
  length-append (to_bytes big 4 m.pid) rest,
  length-to_bytes big 4 n,
  length-to_bytes big 2 m.mtype,
  length-to_bytes big 2 m.flags,
  length-to_bytes big 4 m.seq,
  length-to_bytes big 4 m.pid,
)

pub drop-head_bytes :
    (big : Bool) (n k : ℕ) (m : NlMsg) (rest : Bytes)
    → drop (16 + k) (head_bytes big n m rest) ≡ drop k rest
drop-head_bytes big n k m rest =
    let sum : 16 + k ≡ 4 + (2 + (2 + (4 + (4 + k)))) = omega arith in
    rw
      (
        sum,
        drop_field big 4 (2 + (2 + (4 + (4 + k)))) n (
            to_bytes big 2 m.mtype
            ++ (to_bytes big 2 m.flags
                ++ (to_bytes big 4 m.seq ++ (to_bytes big 4 m.pid ++ rest)))),
        drop_field big 2 (2 + (4 + (4 + k))) m.mtype
            (to_bytes big 2 m.flags ++ (to_bytes big 4 m.seq ++ (to_bytes big 4 m.pid ++ rest))),
        drop_field big 2 (4 + (4 + k)) m.flags
            (to_bytes big 4 m.seq ++ (to_bytes big 4 m.pid ++ rest)),
        drop_field big 4 (4 + k) m.seq (to_bytes big 4 m.pid ++ rest),
      )
      (drop_field big 4 k m.pid rest)

-- Behind a message stand the other bytes.
pub drop-msg_bytes :
    (big : Bool) (m : NlMsg) (rest : Bytes)
    → drop (nlmsg_align (length m.payload + 16)) (msg_bytes big m rest) ≡ rest
drop-msg_bytes big m rest =
    let n = length m.payload in
    let zeros = padding n in
    let size : nlmsg_align (n + 16) ≡ 16 + nlmsg_align n = omega arith in
    rw
      (
        size,
        drop-head_bytes big (n + 16) (nlmsg_align n) m (m.payload ++ (zeros ++ rest)),
        ← append_assoc m.payload zeros rest,
      )
      (drop-append (nlmsg_align n) (m.payload ++ zeros) rest (
        omega
          (arith, length-append m.payload zeros, length-replicate {A = ℕ} (nlmsg_align n - n) 0)))

-- The parts of the header are read.
pub head_msg-head_bytes :
    (big : Bool) (n : ℕ) (m : NlMsg) (rest : Bytes)
    → MsgFits m
    → head_msg big (head_bytes big n m rest) ≡ record m { payload = rest }
head_msg-head_bytes big n m rest (ht, hf, hs, hp, hl) =
    let e = to_bytes big 4 m.pid ++ rest in
    let d = to_bytes big 4 m.seq ++ e in
    let c = to_bytes big 2 m.flags ++ d in
    let b = to_bytes big 2 m.mtype ++ c in
    let a = head_bytes big n m rest in
    let mtype : field_at big 4 2 a ≡ m.mtype =
      field_at_past big 4 0 2 n b ∙ field_at_here big 2 m.mtype c ht in
    let flags : field_at big 6 2 a ≡ m.flags =
      field_at_past big 4 2 2 n b
      ∙ field_at_past big 2 0 2 m.mtype c
      ∙ field_at_here big 2 m.flags d hf in
    let seq : field_at big 8 4 a ≡ m.seq =
      field_at_past big 4 4 4 n b
      ∙ field_at_past big 2 2 4 m.mtype c
      ∙ field_at_past big 2 0 4 m.flags d
      ∙ field_at_here big 4 m.seq e hs in
    let pid : field_at big 12 4 a ≡ m.pid =
      field_at_past big 4 8 4 n b
      ∙ field_at_past big 2 6 4 m.mtype c
      ∙ field_at_past big 2 4 4 m.flags d
      ∙ field_at_past big 4 0 4 m.seq e
      ∙ field_at_here big 4 m.pid rest hp in
    let body : drop 16 a ≡ rest = drop-head_bytes big n 0 m rest in
    λ i. record { mtype = mtype i; flags = flags i; seq = seq i; pid = pid i; payload = body i }
