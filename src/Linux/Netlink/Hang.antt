-- ===== src/Linux/Netlink/Hang.antt =====
-- With the big end first, the messages behind the attributes of a message keep `decode_rtattrs` from
-- coming to its end.
use pypsutil.Prelude.{
  ℕ, zero, suc, ◌+◌, ◌^◌, ◌≤◌, ◌<◌, ◌≡◌, refl, ap, ◌∙◌, Bool, true, false, none, List, [], ◌∷◌,
  ◌++◌, length, arith, All, ltb,
}
use pypsutil.Linux.Netlink.{Bytes, NlMsg, RtAttr, to_bytes, field_at, decode_rtattrs}
use pypsutil.Linux.Netlink.Layout.{attrs_bytes, AttrFits, padding}
use pypsutil.Linux.Netlink.Headers.{msg_bytes, length-head_bytes}
use pypsutil.Linux.Netlink.Attrs.{with_attr, decode_rtattrs-attr_bytes}

-- An attribute that gives its size as 0 is yielded again and again.
decode_zero :
    (fuel : ℕ) (big : Bool) (bs : Bytes)
    → 4 ≤ length bs
    → field_at big 0 2 bs ≡ 0
    → decode_rtattrs fuel big bs ≡ none
unfolding decode_rtattrs
decode_zero zero big bs h e = refl
decode_zero (suc fuel) big [] h e = absurd (omega (arith, h))
decode_zero (suc fuel) big (b ∷ bs) h e =
    let long : ltb (length (b ∷ bs)) 4 ≡ false = ground (arith, h) in
    rw (long, e, decode_zero fuel big (b ∷ bs) h e, decode_rtattrs) refl

-- The upper half of a small size stands where an attribute has its size.
high_half : (n : ℕ) (rest : Bytes) → n < 2 ^ 16 → field_at true 0 2 (to_bytes true 4 n ++ rest) ≡ 0
high_half n rest h = omega (arith, h)

-- On a machine with the big end first, however long `decode_rtattrs` runs on the attributes of a
-- message behind which another message of less than 64 KiB stands, as `read_nlmsgs` leaves it there, it
-- does not come to an end.
pub decode_rtattrs_never :
    (fuel : ℕ) (attrs : List RtAttr) (m : NlMsg) (rest : Bytes)
    → All AttrFits attrs
    → length m.payload + 16 < 2 ^ 16
    → decode_rtattrs fuel true (attrs_bytes true attrs (msg_bytes true m rest)) ≡ none
unfolding decode_rtattrs
decode_rtattrs_never zero attrs m rest ha small = refl
decode_rtattrs_never (suc fuel) [] m rest ha small =
    let body = m.payload ++ (padding (length m.payload) ++ rest) in
    let after =
      to_bytes true 2 m.mtype
      ++ (to_bytes true 2 m.flags ++ (to_bytes true 4 m.seq ++ (to_bytes true 4 m.pid ++ body))) in
    decode_zero (suc fuel) true (msg_bytes true m rest)
      (omega (arith, length-head_bytes true (length m.payload + 16) m body))
      (high_half (length m.payload + 16) after small)
decode_rtattrs_never (suc fuel) (a ∷ attrs) m rest (h, ha) small =
    decode_rtattrs-attr_bytes fuel true a (attrs_bytes true attrs (msg_bytes true m rest)) h
    ∙ ap (with_attr a) (decode_rtattrs_never fuel attrs m rest ha small)
