-- ===== src/Util/Endian.antt =====
-- `decode_inet4` and `cvt_endian_hton` of pypsutil/_util.py, the addresses as their four numbers.
-- `a & 0xFF00` shifted down by 8 is `a / 2 ^ 8 % 2 ^ 8`, and so on.
use pypsutil.Prelude.{
  ℕ, zero, suc, ◌+◌, ◌*◌, ◌/◌, ◌%◌, ◌^◌, ◌<◌, ◌≡◌, refl, ap, ◌∙◌, Bool, true, false, Option, none,
  some, List, [], ◌∷◌, arith, ltb, length-append, All-append, if◌then◌else◌, length, All,
}
use mathlib.Core.List.{reverse, reverse-cons, reverse-reverse}
use native.Mathlib.Omega.{pow_step}

-- The byte of `n` at an index, and all bytes: `n.to_bytes(width, "little")`. None where `n` does not
-- fit (OverflowError).
abbrev pub bytes_le : ℕ → ℕ → List ℕ
bytes_le zero n = []
bytes_le (suc width) n = n % 256 ∷ bytes_le width (n / 256)

abbrev pub to_bytes_little : ℕ → ℕ → Option (List ℕ)
to_bytes_little width n = if ltb n (256 ^ width) then some (bytes_le width n) else none

-- `int.from_bytes(bytes, "little")` and with "big".
abbrev pub from_bytes_little : List ℕ → ℕ
from_bytes_little [] = 0
from_bytes_little (b ∷ bs) = b + 256 * from_bytes_little bs

abbrev pub from_bytes_big : List ℕ → ℕ
from_bytes_big bs = from_bytes_little (reverse bs)

-- By the byte order of the machine: true is "big".
unfoldable pub cvt_endian_hton : Bool → ℕ → ℕ → Option ℕ
cvt_endian_hton true hostval width = some hostval
cvt_endian_hton false hostval width = elim (to_bytes_little width hostval) [
  | none ↦ none
  | some bytes ↦ some (from_bytes_big bytes)
]

-- The four numbers of the address, in the order in which they are printed.
unfoldable pub inet4_parts : Bool → ℕ → Bool → List ℕ
inet4_parts is_big addr native =
    let parts = addr / 2 ^ 24 % 256 ∷ addr / 2 ^ 16 % 256 ∷ addr / 2 ^ 8 % 256 ∷ addr % 256 ∷ [] in
    elim native [ true ↦ if is_big then parts else reverse parts | false ↦ parts ]

pub bytes_le-length : (width n : ℕ) → length (bytes_le width n) ≡ width
bytes_le-length zero n = refl
bytes_le-length (suc width) n = ap suc (bytes_le-length width (n / 256))

pub from-bytes_le : (width n : ℕ) → n < 256 ^ width → from_bytes_little (bytes_le width n) ≡ n
from-bytes_le zero n h = omega (arith, h)
from-bytes_le (suc width) n h =
    let big : 256 ^ suc width ≡ 256 * 256 ^ width = pow_step 256 width in
    let part : n / 256 < 256 ^ width = omega (arith, h, big) in
    rw (from-bytes_le width (n / 256) part) (omega arith)

bytes_le-from :
    (bs : List ℕ) → All (λ b. b < 256) bs → bytes_le (length bs) (from_bytes_little bs) ≡ bs
bytes_le-from [] h = refl
bytes_le-from (b ∷ bs) (hb, h) =
    let low : (b + 256 * from_bytes_little bs) % 256 ≡ b = omega (arith, hb) in
    let high : (b + 256 * from_bytes_little bs) / 256 ≡ from_bytes_little bs = omega (arith, hb) in
    rw (low, high, bytes_le-from bs h)

bytes_le-small : (width n : ℕ) → All (λ b. b < 256) (bytes_le width n)
bytes_le-small zero n = tt
bytes_le-small (suc width) n = (omega arith, bytes_le-small width (n / 256))

from_bytes_little-lt :
    (bs : List ℕ) → All (λ b. b < 256) bs → from_bytes_little bs < 256 ^ length bs
from_bytes_little-lt [] h = omega arith
from_bytes_little-lt (b ∷ bs) (hb, h) =
    let big : 256 ^ suc (length bs) ≡ 256 * 256 ^ length bs = pow_step 256 (length bs) in
    omega (arith, hb, big, from_bytes_little-lt bs h)

All-reverse : (P : ℕ → Type 0) (bs : List ℕ) → All P bs → All P (reverse bs)
All-reverse P [] h = tt
All-reverse P (b ∷ bs) (hb, h) =
    rw (reverse-cons b bs) (All-append P (reverse bs) (b ∷ []) (All-reverse P bs h) (hb, tt))

pub length-reverse : (bs : List ℕ) → length (reverse bs) ≡ length bs
length-reverse [] = refl
length-reverse (b ∷ bs) =
    rw (reverse-cons b bs) (omega (arith, length-append (reverse bs) (b ∷ []), length-reverse bs))

swapped : ℕ → ℕ → ℕ
swapped width n = from_bytes_big (bytes_le width n)

cvt-fits : (width n : ℕ) → n < 256 ^ width → cvt_endian_hton false n width ≡ some (swapped width n)
unfolding cvt_endian_hton swapped
cvt-fits width n h = ground (arith, h)

swapped-lt : (width n : ℕ) → swapped width n < 256 ^ width
unfolding swapped
swapped-lt width n =
    let bs = bytes_le width n in
    let size : length (reverse bs) ≡ width = length-reverse bs ∙ bytes_le-length width n in
    rw size at
      (from_bytes_little-lt (reverse bs) (All-reverse (λ b. b < 256) bs (bytes_le-small width n)))

swapped-swapped : (width n : ℕ) → n < 256 ^ width → swapped width (swapped width n) ≡ n
unfolding swapped
swapped-swapped width n h =
    let bs = bytes_le width n in
    let size : length (reverse bs) ≡ width = length-reverse bs ∙ bytes_le-length width n in
    let back : bytes_le width (from_bytes_little (reverse bs)) ≡ reverse bs =
      rw size at
        (bytes_le-from (reverse bs) (All-reverse (λ b. b < 256) bs (bytes_le-small width n))) in
    rw (back, reverse-reverse bs, from-bytes_le width n h)

-- A number that fits into the width is converted, on either kind of machine, to a number that fits,
-- and converting that one gives the first number again: so the same function is `cvt_endian_ntoh`.
pub cvt_endian_hton-cvt_endian_hton :
    (is_big : Bool) (width n : ℕ)
    → n < 256 ^ width
    → (m : ℕ) × (cvt_endian_hton is_big n width ≡ some m)
      × (m < 256 ^ width)
      × (cvt_endian_hton is_big m width ≡ some n)
unfolding cvt_endian_hton
cvt_endian_hton-cvt_endian_hton true width n h = (n, refl, h, refl)
cvt_endian_hton-cvt_endian_hton false width n h = (
  swapped width n,
  cvt-fits width n h,
  swapped-lt width n,
  cvt-fits width (swapped width n) (swapped-lt width n)
      ∙ ap (λ (x : ℕ). some x) (swapped-swapped width n h),
)

-- A number below 2 ^ 32 is the one that its printed parts stand for in network order; read with the
-- machine's byte order on a machine with small end first, the parts come in the opposite order.
pub inet4_parts-from_bytes :
    (is_big native : Bool) (addr : ℕ)
    → addr < 2 ^ 32
    → (inet4_parts is_big addr true ≡ (
        if is_big then inet4_parts is_big addr false else reverse (inet4_parts is_big addr false)))
      × (from_bytes_big (inet4_parts is_big addr false) ≡ addr)
      × All (λ b. b < 256) (inet4_parts is_big addr native)
unfolding inet4_parts
inet4_parts-from_bytes true true addr h =
    (refl, omega arith, (omega arith, (omega arith, (omega arith, (omega arith, tt)))))
inet4_parts-from_bytes true false addr h =
    (refl, omega arith, (omega arith, (omega arith, (omega arith, (omega arith, tt)))))
inet4_parts-from_bytes false true addr h =
    (refl, omega arith, (omega arith, (omega arith, (omega arith, (omega arith, tt)))))
inet4_parts-from_bytes false false addr h =
    (refl, omega arith, (omega arith, (omega arith, (omega arith, (omega arith, tt)))))
