-- ===== src/Linux/Netlink/Attrs.antt =====
-- `decode_rtattrs` reads attributes back.
use pypsutil.Prelude.{
  ℕ, suc, ◌+◌, ◌-◌, ◌≤◌, ◌≡◌, refl, ap, ◌∙◌, Bool, false, Option, none, some, List, [], ◌∷◌, ◌++◌,
  ltb, take, drop, length, take-append, arith, All,
}
use pypsutil.Prelude.Exn.{Exn}
use pypsutil.Linux.Netlink.{Bytes, RtAttr, to_bytes, field_at, nlmsg_align, decode_rtattrs}
use pypsutil.Linux.Netlink.Layout.{
  attr_bytes, attrs_bytes, AttrFits, padding, length-attr_bytes, drop-attr_bytes, field_at_here,
  field_at_past, drop_field,
}

-- One more attribute in front of those that a decoder has yielded.
abbrev pub with_attr :
    RtAttr → Option (List RtAttr × Option Exn) → Option (List RtAttr × Option Exn)
with_attr a none = none
with_attr a (some (attrs, ex)) = some (a ∷ attrs, ex)

-- One round of the decoder on bytes that are not empty.
decode_step :
    (fuel : ℕ) (big : Bool) (whole rest : Bytes) (a : RtAttr)
    → 4 ≤ length whole
    → field_at big 2 2 whole ≡ a.0
    → take (field_at big 0 2 whole - 4) (drop 4 whole) ≡ a.1
    → drop (nlmsg_align (field_at big 0 2 whole)) whole ≡ rest
    → decode_rtattrs (suc fuel) big whole ≡ with_attr a (decode_rtattrs fuel big rest)
unfolding decode_rtattrs
decode_step fuel big [] rest a h kind own behind = absurd (omega (arith, h))
decode_step fuel big (b ∷ bs) rest a h kind own behind =
    let header : ltb (length (b ∷ bs)) 4 ≡ false = ground (arith, h) in
    let size = field_at big 0 2 (b ∷ bs) in
    let further = decode_rtattrs fuel big (drop (nlmsg_align size) (b ∷ bs)) in
    let steps : with_attr (field_at big 2 2 (b ∷ bs), take (size - 4) (drop 4 (b ∷ bs))) further
        ≡ with_attr a (decode_rtattrs fuel big rest) =
      ap (λ k. with_attr (k, take (size - 4) (drop 4 (b ∷ bs))) further) kind
      ∙ ap (λ p. with_attr (a.0, p) further) own
      ∙ ap (λ r. with_attr a (decode_rtattrs fuel big r)) behind in
    rw (header, decode_rtattrs) steps

pub decode_rtattrs-attr_bytes :
    (fuel : ℕ) (big : Bool) (a : RtAttr) (rest : Bytes)
    → AttrFits a
    → decode_rtattrs (suc fuel) big (attr_bytes big a rest)
      ≡ with_attr a (decode_rtattrs fuel big rest)
decode_rtattrs-attr_bytes fuel big (rtype, payload) rest (ht, hl) =
    let whole = attr_bytes big (rtype, payload) rest in
    let tail = payload ++ (padding (length payload) ++ rest) in
    let typed = to_bytes big 2 rtype ++ tail in
    let long = length-attr_bytes big (rtype, payload) rest in
    let size : field_at big 0 2 whole ≡ length payload + 4 =
      field_at_here big 2 (length payload + 4) typed hl in
    let kind : field_at big 2 2 whole ≡ rtype =
      field_at_past big 2 0 2 (length payload + 4) typed ∙ field_at_here big 2 rtype tail ht in
    let behind : drop 4 whole ≡ tail =
      drop_field big 2 2 (length payload + 4) typed ∙ drop_field big 2 0 rtype tail in
    let own : take (length payload + 4 - 4) tail ≡ payload =
      take-append (length payload + 4 - 4) payload (padding (length payload) ++ rest)
        (omega arith) in
    decode_step fuel big whole rest (rtype, payload) (omega (arith, long)) kind
      (rw (size, behind) own) (rw size (drop-attr_bytes big rtype payload rest))

abbrev pub with_attrs :
    List RtAttr → Option (List RtAttr × Option Exn) → Option (List RtAttr × Option Exn)
with_attrs [] r = r
with_attrs (a ∷ attrs) r = with_attr a (with_attrs attrs r)

pub with_attrs-list :
    (attrs : List RtAttr) → with_attrs attrs (some ([], none)) ≡ some (attrs, none)
with_attrs-list [] = refl
with_attrs-list (a ∷ attrs) = rw (with_attrs-list attrs) refl

pub decode_rtattrs-attrs_bytes :
    (attrs : List RtAttr) (fuel : ℕ) (big : Bool) (rest : Bytes)
    → All AttrFits attrs
    → decode_rtattrs (length attrs + fuel) big (attrs_bytes big attrs rest)
      ≡ with_attrs attrs (decode_rtattrs fuel big rest)
decode_rtattrs-attrs_bytes [] fuel big rest h = ap (λ n. decode_rtattrs n big rest) (omega arith)
decode_rtattrs-attrs_bytes (a ∷ attrs) fuel big rest (ha, h) =
    let more : suc (length attrs) + fuel ≡ suc (length attrs + fuel) = omega arith in
    rw (more, decode_rtattrs-attr_bytes (length attrs + fuel) big a (attrs_bytes big attrs rest) ha)
      (ap (with_attr a) (decode_rtattrs-attrs_bytes attrs fuel big rest h))
