-- ===== src/Linux/Netlink/Layout.antt =====
-- The layout of numbers, attributes and messages in bytes, and how it is read.
use mathlib.Core.List.{reverse-reverse}
use pypsutil.Prelude.{
  ℕ, zero, suc, ◌+◌, ◌-◌, ◌^◌, ◌<◌, ◌≡◌, refl, ap, ◌∙◌, Bool, true, false, List, [], ◌∷◌, ◌++◌,
  take, drop, length, take-append, drop-append, append_assoc, arith, length-append,
  length-replicate, replicate,
}
use pypsutil.Util.Endian.{bytes_le, bytes_le-length, from-bytes_le, length-reverse}
use pypsutil.Linux.Netlink.{Bytes, RtAttr, from_bytes, to_bytes, field_at, nlmsg_align}

pub length-to_bytes : (big : Bool) (width n : ℕ) → length (to_bytes big width n) ≡ width
length-to_bytes true width n = length-reverse (bytes_le width n) ∙ bytes_le-length width n
length-to_bytes false width n = bytes_le-length width n

pub from_bytes-to_bytes :
    (big : Bool) (width n : ℕ) → n < 256 ^ width → from_bytes big (to_bytes big width n) ≡ n
from_bytes-to_bytes true width n h =
    rw (reverse-reverse (bytes_le width n)) (from-bytes_le width n h)
from_bytes-to_bytes false width n h = from-bytes_le width n h

-- A number of a known width behind a first part of known length is read, whatever follows.
pub field_at-to_bytes :
    (big : Bool) (offset width n : ℕ) (front rest : Bytes)
    → length front ≡ offset
    → n < 256 ^ width
    → field_at big offset width (front ++ (to_bytes big width n ++ rest)) ≡ n
field_at-to_bytes big offset width n front rest e h =
    rw
      (
        drop-append offset front (to_bytes big width n ++ rest) e,
        take-append width (to_bytes big width n) rest (length-to_bytes big width n),
      )
      (from_bytes-to_bytes big width n h)

drop_past :
    (k n : ℕ) (front rest : Bytes) → length front ≡ k → drop (k + n) (front ++ rest) ≡ drop n rest
drop_past zero n [] rest e = ap (λ i. drop i rest) (omega arith)
drop_past zero n (x ∷ front) rest e = absurd (omega (arith, e))
drop_past (suc k) n [] rest e = absurd (omega (arith, e))
drop_past (suc k) n (x ∷ front) rest e =
    let shift : suc k + n ≡ suc (k + n) = omega arith in
    rw shift (drop_past k n front rest (omega (arith, e)))

-- A number in front is skipped.
pub field_at_past :
    (big : Bool) (k offset width n : ℕ) (rest : Bytes)
    → field_at big (k + offset) width (to_bytes big k n ++ rest) ≡ field_at big offset width rest
field_at_past big k offset width n rest =
    ap (λ bs. from_bytes big (take width bs))
      (drop_past k offset (to_bytes big k n) rest (length-to_bytes big k n))

pub field_at_here :
    (big : Bool) (width n : ℕ) (rest : Bytes)
    → n < 256 ^ width
    → field_at big 0 width (to_bytes big width n ++ rest) ≡ n
field_at_here big width n rest h = field_at-to_bytes big 0 width n [] rest refl h

pub drop_field :
    (big : Bool) (k n i : ℕ) (rest : Bytes) → drop (k + n) (to_bytes big k i ++ rest) ≡ drop n rest
drop_field big k n i rest = drop_past k n (to_bytes big k i) rest (length-to_bytes big k i)

-- The zeros up to a multiple of four.
abbrev pub padding : ℕ → Bytes
padding size = replicate (nlmsg_align size - size) 0

-- An attribute as the kernel lays it out in front of other bytes, and a list of them.
abbrev pub attr_bytes : Bool → RtAttr → Bytes → Bytes
attr_bytes big (rtype, payload) rest =
    to_bytes big 2 (length payload + 4)
    ++ (to_bytes big 2 rtype ++ (payload ++ (padding (length payload) ++ rest)))

abbrev pub attrs_bytes : Bool → List RtAttr → Bytes → Bytes
attrs_bytes big [] rest = rest
attrs_bytes big (a ∷ attrs) rest = attr_bytes big a (attrs_bytes big attrs rest)

abbrev pub AttrFits : RtAttr → Type 0
AttrFits (rtype, payload) = (rtype < 2 ^ 16) × (length payload + 4 < 2 ^ 16)

pub length-attr_bytes :
    (big : Bool) (a : RtAttr) (rest : Bytes)
    → length (attr_bytes big a rest) ≡ nlmsg_align (length a.1) + 4 + length rest
length-attr_bytes big (rtype, payload) rest =
    let zeros = padding (length payload) in
    omega (
      arith,
      length-append (to_bytes big 2 (length payload + 4))
          (to_bytes big 2 rtype ++ (payload ++ (zeros ++ rest))),
      length-append (to_bytes big 2 rtype) (payload ++ (zeros ++ rest)),
      length-append payload (zeros ++ rest),
      length-append zeros rest,
      length-to_bytes big 2 (length payload + 4),
      length-to_bytes big 2 rtype,
      length-replicate {A = ℕ} (nlmsg_align (length payload) - length payload) 0,
    )

-- Behind an attribute stand the other bytes.
pub drop-attr_bytes :
    (big : Bool) (rtype : ℕ) (payload rest : Bytes)
    → drop (nlmsg_align (length payload + 4)) (attr_bytes big (rtype, payload) rest) ≡ rest
drop-attr_bytes big rtype payload rest =
    let zeros = padding (length payload) in
    let size : nlmsg_align (length payload + 4) ≡ 2 + (2 + nlmsg_align (length payload)) =
      omega arith in
    rw
      (
        size,
        drop_field big 2 (2 + nlmsg_align (length payload)) (length payload + 4)
            (to_bytes big 2 rtype ++ (payload ++ (zeros ++ rest))),
        drop_field big 2 (nlmsg_align (length payload)) rtype (payload ++ (zeros ++ rest)),
        ← append_assoc payload zeros rest,
      )
      (drop-append (nlmsg_align (length payload)) (payload ++ zeros) rest (
        omega (
          arith,
          length-append payload zeros,
          length-replicate {A = ℕ} (nlmsg_align (length payload) - length payload) 0,
        )))
