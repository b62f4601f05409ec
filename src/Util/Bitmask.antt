-- ===== src/Util/Bitmask.antt =====
-- `expand_bitmask` of pypsutil/_util.py.
use native.Mathlib.Nat.{pow-suc, div-div-eq-div-mul, mul_comm, zero-div}
use native.Mathlib.Numerals.{towards_suc}
use pypsutil.Prelude.{
  ℕ, zero, suc, ◌+◌, ◌*◌, ◌/◌, ◌%◌, ◌^◌, ◌≤◌, ◌<◌, ◌≡◌, sym, ap, ◌∙◌, ◌↔◌, inl, inr, List, [], ◌∷◌,
  arith, ◌==◌, ==_iff, if◌then◌else◌, Bool-cases, In,
}

-- The loop `while mask: …` of the generator: `mask & 1` is `mask % 2`, `mask >>= 1` is `mask / 2`.
expand_loop : ℕ → ℕ → ℕ → List ℕ
expand_loop zero mask i = []
expand_loop (suc fuel) mask i =
    let rest = expand_loop fuel (mask / 2) (i + 1) in
    if mask == 0 then [] else if mask % 2 == 1 then i ∷ rest else rest

-- A mask has at most as many rounds as its value.
unfoldable pub expand_bitmask : ℕ → ℕ → List ℕ
unfolding expand_loop
expand_bitmask mask start = expand_loop mask mask start

-- The number whose set bits are the listed positions.
abbrev pub weight : List ℕ → ℕ
weight [] = 0
weight (i ∷ is) = 2 ^ i + weight is

-- Strictly increasing, from a lower bound on.
abbrev pub Ascends : ℕ → List ℕ → Type 0
Ascends lo [] = Unit
Ascends lo (i ∷ is) = (lo ≤ i) × Ascends (i + 1) is

double_halves : (m p : ℕ) → m * p ≡ m / 2 * (2 * p) + m % 2 * p
double_halves m p =
    let split : m ≡ m / 2 * 2 + m % 2 = omega arith in omega (arith, ap (λ (t : ℕ). t * p) split)

expand_loop-weight :
    (fuel mask i : ℕ) → mask ≤ fuel → weight (expand_loop fuel mask i) ≡ mask * 2 ^ i
unfolding expand_loop
expand_loop-weight zero mask i h =
    let none_left : mask ≡ 0 = omega arith in rw none_left (omega arith)
expand_loop-weight (suc fuel) mask i h =
    let next : 2 ^ (i + 1) ≡ 2 * 2 ^ i = simp towards_suc (omega arith) in
    ground (arith, next, double_halves mask (2 ^ i), expand_loop-weight fuel (mask / 2) (i + 1))

-- Adding up 2 to the power of each listed position gives the mask, shifted up by the start: no
-- set bit is lost and no clear bit is listed.
pub expand_bitmask-weight : (mask start : ℕ) → weight (expand_bitmask mask start) ≡ mask * 2 ^ start
unfolding expand_bitmask
expand_bitmask-weight mask start = expand_loop-weight mask mask start (omega arith)

expand_loop-Ascends : (fuel mask i lo : ℕ) → lo ≤ i → Ascends lo (expand_loop fuel mask i)
unfolding expand_loop
expand_loop-Ascends zero mask i lo h = tt
expand_loop-Ascends (suc fuel) mask i lo h = elim (Bool-cases (mask == 0)) [
  | inl e ↦ rw e tt
  | inr e ↦ rw e (elim (Bool-cases (mask % 2 == 1)) [
    | inl o ↦ rw o (h, expand_loop-Ascends fuel (mask / 2) (i + 1) (i + 1) (omega arith))
    | inr o ↦ rw o (expand_loop-Ascends fuel (mask / 2) (i + 1) lo (omega arith))
  ])
]

-- The positions come in strictly increasing order, none below the start, so none twice.
pub expand_bitmask-Ascends : (mask start : ℕ) → Ascends start (expand_bitmask mask start)
unfolding expand_bitmask
expand_bitmask-Ascends mask start = expand_loop-Ascends mask mask start start (omega arith)

-- Bit `k` of a mask.
abbrev pub bit : ℕ → ℕ → ℕ
bit mask k = mask / 2 ^ k % 2

bit_up : (mask k : ℕ) → bit mask (suc k) ≡ bit (mask / 2) k
bit_up mask k =
    let step : mask / 2 / 2 ^ k ≡ mask / 2 ^ suc k =
      div-div-eq-div-mul mask 2 (2 ^ k)
      ∙ ap (λ (t : ℕ). mask / t) (mul_comm 2 (2 ^ k) ∙ sym (pow-suc 2 k)) in
    ap (λ (t : ℕ). t % 2) (sym step)

bit_zero : (mask : ℕ) → bit mask 0 ≡ mask % 2
bit_zero mask = omega arith

bit_nonzero : (mask k : ℕ) → bit mask k ≡ 1 → 0 < mask
bit_nonzero zero k b = absurd (omega (arith, b, zero-div (2 ^ k)))
bit_nonzero (suc mask) k b = omega arith

In-Ascends : (j lo : ℕ) (xs : List ℕ) → Ascends lo xs → In j xs → lo ≤ j
In-Ascends j lo [] h m = elim m [ ]
In-Ascends j lo (x ∷ xs) h (inl e) = omega arith
In-Ascends j lo (x ∷ xs) h (inr m) = omega (arith, In-Ascends j (x + 1) xs h.1 m)

bit-expand_loop :
    (fuel mask i k : ℕ) → mask ≤ fuel → bit mask k ≡ 1 → In (i + k) (expand_loop fuel mask i)
unfolding expand_loop
bit-expand_loop zero mask i k h b =
    let none_left : mask ≡ 0 = omega arith in absurd (omega (arith, rw none_left at b))
bit-expand_loop (suc fuel) mask i zero h b = ground (arith, bit_zero mask)
bit-expand_loop (suc fuel) mask i (suc k) h b =
    let here : i + suc k ≡ i + 1 + k = omega arith in
    let later : In (i + suc k) (expand_loop fuel (mask / 2) (i + 1)) =
      rw here (bit-expand_loop fuel (mask / 2) (i + 1) k (omega arith) (sym (bit_up mask k) ∙ b)) in
    elim (Bool-cases (mask == 0)) [
      | inl e ↦ absurd (omega (arith, bit_nonzero mask (suc k) b, (==_iff mask 0).0 e))
      | inr e ↦
          rw e (elim (Bool-cases (mask % 2 == 1)) [ inl o ↦ rw o (inr later) | inr o ↦ rw o later ])
    ]

-- A position found in the later rounds is one up, at the bit above.
later_bit :
    (fuel mask i k : ℕ)
    → ((k' : ℕ) → In (i + 1 + k') (expand_loop fuel (mask / 2) (i + 1)) → bit (mask / 2) k' ≡ 1)
    → In (i + k) (expand_loop fuel (mask / 2) (i + 1))
    → bit mask k ≡ 1
later_bit fuel mask i zero ih m = absurd (
    omega (
      arith,
      In-Ascends (i + 0) (i + 1) _
          (expand_loop-Ascends fuel (mask / 2) (i + 1) (i + 1) (omega arith)) m,
    ))
later_bit fuel mask i (suc k) ih m =
    let there : i + suc k ≡ i + 1 + k = omega arith in bit_up mask k ∙ ih k (rw there at m)

expand_loop-bit :
    (fuel mask i k : ℕ) → mask ≤ fuel → In (i + k) (expand_loop fuel mask i) → bit mask k ≡ 1
unfolding expand_loop
expand_loop-bit zero mask i k h m = elim m [ ]
expand_loop-bit (suc fuel) mask i k h m =
    let later =
      later_bit fuel mask i k (λ k'. expand_loop-bit fuel (mask / 2) (i + 1) k' (omega arith)) in
    elim (Bool-cases (mask == 0)) [
      | inl e ↦ absurd (rw e at m)
      | inr e ↦ elim (Bool-cases (mask % 2 == 1)) [
        | inl o ↦ elim (rw (e, o) at m) [
          | inl first ↦
              let low : k ≡ 0 = omega arith in rw low (omega (arith, (==_iff (mask % 2) 1).0 o))
          | inr rest ↦ later rest
        ]
        | inr o ↦ later (rw (e, o) at m)
      ]
    ]

-- Bit `k` of the mask is set exactly if the position `start + k` is listed.
pub In-expand_bitmask :
    (mask start k : ℕ) → In (start + k) (expand_bitmask mask start) ↔ (bit mask k ≡ 1)
unfolding expand_bitmask
In-expand_bitmask mask start k = (
  expand_loop-bit mask mask start k (omega arith),
  bit-expand_loop mask mask start k (omega arith),
)
