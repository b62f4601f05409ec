-- ===== src/Linux/Netlink/Overrun.antt =====
-- What `decode_rtattrs` makes of the messages behind the attributes of a message, which
-- `read_nlmsgs` leaves in its payload.
use pypsutil.Prelude.{
  ℕ, suc, ◌+◌, ◌-◌, ◌*◌, ◌/◌, ◌%◌, ◌^◌, ◌≤◌, ◌<◌, ◌≡◌, refl, ap, ◌∙◌, Bool, false, none, some, List,
  [], ◌∷◌, ◌++◌, length, append_assoc, arith, length-append, replicate, All, map,
}
use pypsutil.Linux.Netlink.{Bytes, NlMsg, RtAttr, to_bytes, nlmsg_align, decode_rtattrs}
use pypsutil.Linux.Netlink.Layout.{
  attr_bytes, attrs_bytes, AttrFits, padding, length-to_bytes, length-attr_bytes,
}
use pypsutil.Linux.Netlink.Headers.{msg_bytes, datagram}
use pypsutil.Linux.Netlink.Attrs.{
  with_attr, with_attrs, decode_rtattrs-attr_bytes, decode_rtattrs-attrs_bytes,
}

pub attrs_bytes-append :
    (big : Bool) (attrs : List RtAttr) (rest : Bytes)
    → attrs_bytes big attrs [] ++ rest ≡ attrs_bytes big attrs rest
attrs_bytes-append big [] rest = refl
attrs_bytes-append big ((rtype, payload) ∷ attrs) rest =
    let size = to_bytes big 2 (length payload + 4) in
    let kind = to_bytes big 2 rtype in
    let zeros = padding (length payload) in
    let own = attrs_bytes big attrs [] in
    append_assoc size (kind ++ (payload ++ (zeros ++ own))) rest
    ∙ ap (λ bs. size ++ bs)
        (append_assoc kind (payload ++ (zeros ++ own)) rest
          ∙ ap (λ bs. kind ++ bs)
              (append_assoc payload (zeros ++ own) rest
                ∙ ap (λ bs. payload ++ bs)
                    (append_assoc zeros own rest
                      ∙ ap (λ bs. zeros ++ bs) (attrs_bytes-append big attrs rest))))

-- The attributes fill a multiple of four bytes.
pub attrs_bytes-aligned :
    (big : Bool) (attrs : List RtAttr) → length (attrs_bytes big attrs []) % 4 ≡ 0
attrs_bytes-aligned big [] = refl
attrs_bytes-aligned big (a ∷ attrs) =
    omega (arith, length-attr_bytes big a (attrs_bytes big attrs []), attrs_bytes-aligned big attrs)

pub attrs_bytes-long :
    (big : Bool) (attrs : List RtAttr) → 4 * length attrs ≤ length (attrs_bytes big attrs [])
attrs_bytes-long big [] = omega arith
attrs_bytes-long big (a ∷ attrs) =
    omega (arith, length-attr_bytes big a (attrs_bytes big attrs []), attrs_bytes-long big attrs)

pub padding-aligned : (n : ℕ) → n % 4 ≡ 0 → padding n ≡ []
padding-aligned n h = let e : nlmsg_align n - n ≡ 0 = omega (arith, h) in ap (λ k. replicate k 0) e

-- The message as an attribute of type 0: with the small end first, the upper half of its size is read
-- as the type.
abbrev as_attr : NlMsg → RtAttr
as_attr m = (
  0,
  to_bytes false 2 m.mtype
      ++ (to_bytes false 2 m.flags
          ++ (to_bytes false 4 m.seq ++ (to_bytes false 4 m.pid ++ m.payload))),
)

four-two : (n : ℕ) → n < 2 ^ 16 → to_bytes false 4 n ≡ to_bytes false 2 n ++ to_bytes false 2 0
four-two n h =
    let third : n / 256 / 256 % 256 ≡ 0 = omega (arith, h) in
    let fourth : n / 256 / 256 / 256 % 256 ≡ 0 = omega (arith, h) in
    ap (λ b. n % 256 ∷ (n / 256 % 256) ∷ b ∷ (n / 256 / 256 / 256 % 256) ∷ []) third
    ∙ ap (λ b. n % 256 ∷ (n / 256 % 256) ∷ 0 ∷ b ∷ []) fourth

length-as_attr : (m : NlMsg) → length (as_attr m).1 ≡ 12 + length m.payload
length-as_attr m = omega (
  arith,
  length-append (to_bytes false 2 m.mtype) (
      to_bytes false 2 m.flags
      ++ (to_bytes false 4 m.seq ++ (to_bytes false 4 m.pid ++ m.payload))),
  length-append (to_bytes false 2 m.flags)
      (to_bytes false 4 m.seq ++ (to_bytes false 4 m.pid ++ m.payload)),
  length-append (to_bytes false 4 m.seq) (to_bytes false 4 m.pid ++ m.payload),
  length-append (to_bytes false 4 m.pid) m.payload,
  length-to_bytes false 2 m.mtype,
  length-to_bytes false 2 m.flags,
  length-to_bytes false 4 m.seq,
  length-to_bytes false 4 m.pid,
)

msg-attr :
    (m : NlMsg) (rest : Bytes)
    → length m.payload + 16 < 2 ^ 16
    → msg_bytes false m rest ≡ attr_bytes false (as_attr m) rest
msg-attr m rest h =
    let n = length m.payload in
    let zeros = padding n in
    let whole = as_attr m in
    let sizes : n + 16 ≡ length whole.1 + 4 = omega (arith, length-as_attr m) in
    let pads : nlmsg_align n - n ≡ nlmsg_align (length whole.1) - length whole.1 =
      omega (arith, length-as_attr m) in
    let front : to_bytes false 4 (n + 16)
        ≡ to_bytes false 2 (length whole.1 + 4) ++ to_bytes false 2 0 =
      four-two (n + 16) h ∙ ap (λ k. to_bytes false 2 k ++ to_bytes false 2 0) sizes in
    let fields : Bytes =
      to_bytes false 2 m.mtype
      ++ (to_bytes false 2 m.flags ++ (to_bytes false 4 m.seq ++ to_bytes false 4 m.pid)) in
    ap (λ bs. bs ++ (fields ++ (m.payload ++ (padding n ++ rest)))) front
    ∙ ap
        (λ k.
          (to_bytes false 2 (length whole.1 + 4) ++ to_bytes false 2 0)
          ++ (whole.1 ++ (replicate k 0 ++ rest)))
        pads

-- The messages behind, as attributes that no reader looks at.
abbrev pub behind : List NlMsg → List RtAttr
behind ms = map as_attr ms

pub decode_rtattrs-datagram :
    (fuel : ℕ) (ms : List NlMsg)
    → All (λ m. (length m.payload + 16 < 2 ^ 16)) ms
    → decode_rtattrs (length ms + suc fuel) false (datagram false ms) ≡ some (behind ms, none)
unfolding decode_rtattrs
decode_rtattrs-datagram fuel [] h = let e : 0 + suc fuel ≡ suc fuel = omega arith in rw e refl
decode_rtattrs-datagram fuel (m ∷ ms) (hm, h) =
    let more : suc (length ms) + suc fuel ≡ suc (length ms + suc fuel) = omega arith in
    ap (λ n. decode_rtattrs n false (msg_bytes false m (datagram false ms))) more
    ∙ ap (decode_rtattrs (suc (length ms + suc fuel)) false) (msg-attr m (datagram false ms) hm)
    ∙ decode_rtattrs-attr_bytes (length ms + suc fuel) false (as_attr m) (datagram false ms)
        (omega arith, omega (arith, length-as_attr m, hm))
    ∙ ap (with_attr (as_attr m)) (decode_rtattrs-datagram fuel ms h)

with_attrs-append :
    (attrs zs : List RtAttr) → with_attrs attrs (some (zs, none)) ≡ some (attrs ++ zs, none)
with_attrs-append [] zs = refl
with_attrs-append (a ∷ attrs) zs = rw (with_attrs-append attrs zs) refl

-- The attributes of a message are read, and behind them one of type 0 for each message that follows
-- in the datagram.
pub decode_rtattrs-overrun :
    (fuel : ℕ) (attrs : List RtAttr) (ms : List NlMsg)
    → All AttrFits attrs
    → All (λ m. (length m.payload + 16 < 2 ^ 16)) ms
    → length attrs + length ms < fuel
    → decode_rtattrs fuel false (attrs_bytes false attrs (datagram false ms))
      ≡ some (attrs ++ behind ms, none)
decode_rtattrs-overrun fuel attrs ms ha hm enough =
    let spare : ℕ = fuel - (length attrs + length ms + 1) in
    let sum : fuel ≡ length attrs + (length ms + suc spare) = omega (arith, enough) in
    ap (λ n. decode_rtattrs n false (attrs_bytes false attrs (datagram false ms))) sum
    ∙ decode_rtattrs-attrs_bytes attrs (length ms + suc spare) false (datagram false ms) ha
    ∙ ap (with_attrs attrs) (decode_rtattrs-datagram spare ms hm)
    ∙ with_attrs-append attrs (behind ms)
