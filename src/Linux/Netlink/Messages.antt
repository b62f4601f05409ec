-- ===== src/Linux/Netlink/Messages.antt =====
-- `read_nlmsgs` reads messages back, each with everything behind it in its datagram.
use pypsutil.Prelude.{
  ℕ, zero, suc, ◌+◌, ◌*◌, ◌^◌, ◌≤◌, ◌<◌, ◌≡◌, refl, ap, ◌∙◌, Bool, true, Option, none, some, List,
  [], ◌∷◌, ◌++◌, leb, take, drop, length, take-all, arith, length-append, All, drop-over, map,
}
use pypsutil.Prelude.Exn.{Exn, ok}
use pypsutil.Linux.Netlink.{
  Bytes, NlMsg, head_msg, read_from, to_bytes, field_at, nlmsg_align, cut_msgs, read_nlmsgs,
  send_nlmsg, pack,
}
use pypsutil.Linux.Netlink.Layout.{padding, field_at_here}
use pypsutil.Linux.Netlink.Headers.{
  head_bytes, datagram, MsgFits, length-head_bytes, drop-msg_bytes, head_msg-head_bytes,
}

abbrev with_msg : NlMsg → Option (List NlMsg × Bytes) → Option (List NlMsg × Bytes)
with_msg m none = none
with_msg m (some (msgs, left)) = some (m ∷ msgs, left)

abbrev with_msgs : List NlMsg → Option (List NlMsg × Bytes) → Option (List NlMsg × Bytes)
with_msgs [] r = r
with_msgs (m ∷ ms) r = with_msg m (with_msgs ms r)

-- The messages of a datagram as they are read: the payload goes on to the end of the datagram.
abbrev pub overrun : Bool → List NlMsg → List NlMsg
overrun big [] = []
overrun big (m ∷ ms) =
    record m { payload = m.payload ++ (padding (length m.payload) ++ datagram big ms) }
    ∷ overrun big ms

cut_step :
    (fuel : ℕ) (big : Bool) (whole rest : Bytes) (m : NlMsg)
    → 16 ≤ length whole
    → field_at big 0 4 whole ≤ length whole
    → head_msg big whole ≡ m
    → drop (nlmsg_align (field_at big 0 4 whole)) whole ≡ rest
    → cut_msgs (suc fuel) big whole ≡ with_msg m (cut_msgs fuel big rest)
unfolding cut_msgs
cut_step fuel big whole rest m h fits header behind =
    let size = field_at big 0 4 whole in
    let long : leb 16 (length whole) ≡ true = ground (arith, h) in
    let complete : leb size (length whole) ≡ true = ground (arith, fits) in
    let steps : with_msg (head_msg big whole) (cut_msgs fuel big (drop (nlmsg_align size) whole))
        ≡ with_msg m (cut_msgs fuel big rest) =
      ap (λ x. with_msg x (cut_msgs fuel big (drop (nlmsg_align size) whole))) header
      ∙ ap (λ r. with_msg m (cut_msgs fuel big r)) behind in
    rw (cut_msgs, long, complete) steps

-- One message whose header gives its size as `n`.
cut_msgs-head_bytes :
    (fuel : ℕ) (big : Bool) (n : ℕ) (m : NlMsg) (body rest : Bytes)
    → MsgFits m
    → n < 2 ^ 32
    → n ≤ 16 + length body
    → drop (nlmsg_align n) (head_bytes big n m body) ≡ rest
    → cut_msgs (suc fuel) big (head_bytes big n m body)
      ≡ with_msg (record m { payload = body }) (cut_msgs fuel big rest)
cut_msgs-head_bytes fuel big n m body rest h hn fits behind =
    let whole = head_bytes big n m body in
    let long = length-head_bytes big n m body in
    let size : field_at big 0 4 whole ≡ n =
      field_at_here big 4 n
        (to_bytes big 2 m.mtype
          ++ (to_bytes big 2 m.flags ++ (to_bytes big 4 m.seq ++ (to_bytes big 4 m.pid ++ body))))
        hn in
    cut_step fuel big whole rest (record m { payload = body }) (omega (arith, long))
      (rw size (omega (arith, long, fits))) (head_msg-head_bytes big n m body h) (rw size behind)

pub cut_msgs-datagram :
    (ms : List NlMsg) (fuel : ℕ) (big : Bool)
    → All MsgFits ms
    → length ms < fuel
    → cut_msgs fuel big (datagram big ms) ≡ some (overrun big ms, [])
unfolding cut_msgs
cut_msgs-datagram ms zero big h enough = absurd (omega (arith, enough))
cut_msgs-datagram [] (suc fuel) big h enough = refl
cut_msgs-datagram (m ∷ ms) (suc fuel) big (hm, h) enough =
    let body = m.payload ++ (padding (length m.payload) ++ datagram big ms) in
    let size : length m.payload + 16 ≤ 16 + length body =
      omega (arith, length-append m.payload (padding (length m.payload) ++ datagram big ms)) in
    cut_msgs-head_bytes fuel big (length m.payload + 16) m body (datagram big ms) hm hm.4 size
      (drop-msg_bytes big m (datagram big ms))
    ∙ ap (with_msg (record m { payload = body }))
        (cut_msgs-datagram ms fuel big h (omega (arith, enough)))

pub datagram-long : (big : Bool) (ms : List NlMsg) → 16 * length ms ≤ length (datagram big ms)
datagram-long big [] = omega arith
datagram-long big (m ∷ ms) =
    let tail = padding (length m.payload) ++ datagram big ms in
    omega (
      arith,
      length-head_bytes big (length m.payload + 16) m (m.payload ++ tail),
      length-append m.payload tail,
      length-append (padding (length m.payload)) (datagram big ms),
      datagram-long big ms,
    )

abbrev pub overruns : Bool → List (List NlMsg) → List NlMsg
overruns big [] = []
overruns big (ms ∷ mss) = overrun big ms ++ overruns big mss

-- Datagrams of messages that one `recvmsg(8192)` takes whole.
abbrev pub AllFit : Bool → List (List NlMsg) → Type 0
AllFit big [] = Unit
AllFit big (ms ∷ mss) = (All MsgFits ms × (length (datagram big ms) ≤ 8192)) × AllFit big mss

read_from_step :
    (fuel : ℕ) (big : Bool) (d : Bytes) (ds : List Bytes) (ex : Option Exn) (msgs more : List NlMsg)
    → length d ≤ 8192
    → cut_msgs fuel big d ≡ some (msgs, [])
    → read_from fuel big [] ds ex ≡ some (ok more)
    → read_from fuel big [] (d ∷ ds) ex ≡ some (ok (msgs ++ more))
read_from_step fuel big d ds ex msgs more small cut e =
    let all : cut_msgs fuel big (take 8192 d) ≡ some (msgs, []) = rw (take-all 8192 d small) cut in
    rw (all, e, read_from) refl

pub read_nlmsgs-datagrams :
    (mss : List (List NlMsg)) (fuel : ℕ) (big : Bool)
    → AllFit big mss
    → 513 ≤ fuel
    → read_nlmsgs fuel big (map (datagram big) mss, none) ≡ some (ok (overruns big mss))
unfolding read_nlmsgs
read_nlmsgs-datagrams [] fuel big h enough = refl
read_nlmsgs-datagrams (ms ∷ mss) fuel big ((hm, small), h) enough =
    read_from_step fuel big (datagram big ms) (map (datagram big) mss) none (overrun big ms)
      (overruns big mss) small
      (cut_msgs-datagram ms fuel big hm (omega (arith, small, enough, datagram-long big ms)))
      (read_nlmsgs-datagrams mss fuel big h enough)

pack_ok :
    (big : Bool) (width n : ℕ) → n < 256 ^ width → pack big width n ≡ ok (to_bytes big width n)
pack_ok big width n h = ground (arith, h)

pub sent : Bool → NlMsg → Bytes
sent big m = head_bytes big (length m.payload + 16) m m.payload

send_nlmsg-sent : (big : Bool) (m : NlMsg) → MsgFits m → send_nlmsg big m ≡ ok (sent big m)
unfolding send_nlmsg sent
send_nlmsg-sent big m (ht, hf, hs, hp, hl) =
    rw
      (
        pack_ok big 4 (length m.payload + 16) hl,
        pack_ok big 2 m.mtype ht,
        pack_ok big 2 m.flags hf,
        pack_ok big 4 m.seq hs,
        pack_ok big 4 m.pid hp,
      )
      refl

-- What `send_nlmsg` sends for a message whose numbers fit is read back as this message, on a machine
-- of either byte order, if one `recvmsg` takes it whole.
pub read_nlmsgs-send_nlmsg :
    (fuel : ℕ) (big : Bool) (m : NlMsg)
    → MsgFits m
    → length m.payload ≤ 8176
    → 2 ≤ fuel
    → (bs : Bytes) × (send_nlmsg big m ≡ ok bs)
      × (read_nlmsgs fuel big (bs ∷ [], none) ≡ some (ok (m ∷ [])))
unfolding sent read_nlmsgs cut_msgs
read_nlmsgs-send_nlmsg zero big m h small enough = absurd (omega (arith, enough))
read_nlmsgs-send_nlmsg (suc zero) big m h small enough = absurd (omega (arith, enough))
read_nlmsgs-send_nlmsg (suc (suc fuel)) big m h small enough =
    let n = length m.payload in
    let bs = sent big m in
    let long : length bs ≡ 16 + n = length-head_bytes big (n + 16) m m.payload in
    let over : drop (nlmsg_align (n + 16)) bs ≡ [] =
      drop-over (nlmsg_align (n + 16)) bs (omega (arith, long)) in
    let cut : cut_msgs (suc (suc fuel)) big bs ≡ with_msg m (cut_msgs (suc fuel) big []) =
      cut_msgs-head_bytes (suc fuel) big (n + 16) m m.payload [] h h.4 (omega arith) over in
    let no_more : with_msg m (cut_msgs (suc fuel) big []) ≡ some (m ∷ [], []) = refl in
    (
      bs,
      send_nlmsg-sent big m h,
      read_from_step (suc (suc fuel)) big bs [] none (m ∷ []) [] (omega (arith, long, small))
          (cut ∙ no_more) refl,
    )
