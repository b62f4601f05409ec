-- ===== src/Util/Signals.antt =====
-- `expand_sig_bitmask` of pypsutil/_util.py, which reads a bit mask as a set of signals.
use mathlib.Core.Option
use pypsutil.Prelude.{
  ℕ, ◌+◌, ◌≡◌, ◌⊎◌, ◌↔◌, inl, inr, Bool, true, false, ◌||◌, ◌&&◌, List, [], ◌∷◌, arith, leb,
  if◌then◌else◌, Bool-cases, In, add, In-add, In-add_self, In-add_old, Option, none, some,
}
use pypsutil.Util.Bitmask.{bit, expand_bitmask, In-expand_bitmask}

-- What the platform's `signal` module has: the numbers that `signal.Signals` accepts, and
-- SIGRTMIN and SIGRTMAX where they exist.
pub record Signals : Type 0 where
  pub is_signal : ℕ → Bool
  pub sigrtmin : Option ℕ
  pub sigrtmax : Option ℕ

-- The test in the `except ValueError` branch. The defaults 10000 and -10000 of `getattr` fail it
-- for every signal number below 10000 and for every number at all.
is_rt : Signals → ℕ → Bool
is_rt s sig = elim s.sigrtmax [
  | none ↦ false
  | some hi ↦ leb (Option.get_or s.sigrtmin 10000) sig && leb sig hi
]

-- One round: the `try`, the `except` branch and its test.
add_signal : Signals → Bool → ℕ → List ℕ → List ℕ
add_signal s include_internal sig res =
    if s.is_signal sig
    then add sig res
    else if include_internal || is_rt s sig
    then add sig res
    else res

add_signals : Signals → Bool → List ℕ → List ℕ → List ℕ
add_signals s internal [] res = res
add_signals s internal (sig ∷ sigs) res =
    add_signals s internal sigs (add_signal s internal sig res)

-- Bit 0 of the mask is signal 1. The result is a set: a list without repetition.
unfoldable pub expand_sig_bitmask : Signals → ℕ → Bool → List ℕ
unfolding add_signals add_signal expand_bitmask is_rt
expand_sig_bitmask s mask include_internal =
    add_signals s include_internal (expand_bitmask mask 1) []

-- The signals that the set may hold: those that have a name, the real-time ones, and on request
-- the internal ones.
pub is_kept : Signals → Bool → ℕ → Bool
unfolding is_rt
is_kept s include_internal sig = s.is_signal sig || (include_internal || is_rt s sig)

In-add_signal :
    (s : Signals) (internal : Bool) (sig a : ℕ) (res : List ℕ)
    → In a (add_signal s internal sig res)
    → ((a ≡ sig) × (is_kept s internal a ≡ true)) ⊎ In a res
unfolding add_signal is_kept
In-add_signal s internal sig a res m = elim (Bool-cases (s.is_signal sig)) [
  | inl named ↦ elim (In-add a sig res (rw named at m)) [
    | inl e ↦ inl (e, rw (e, named))
    | inr old ↦ inr old
  ]
  | inr unnamed ↦ elim (Bool-cases (internal || is_rt s sig)) [
    | inl kept ↦ elim (In-add a sig res (rw (unnamed, kept) at m)) [
      | inl e ↦ inl (e, rw (e, unnamed, kept))
      | inr old ↦ inr old
    ]
    | inr dropped ↦ inr (rw (unnamed, dropped) at m)
  ]
]

add_signal-keeps :
    (s : Signals) (internal : Bool) (sig : ℕ) (res : List ℕ)
    → is_kept s internal sig ≡ true
    → add_signal s internal sig res ≡ add sig res
unfolding add_signal is_kept
add_signal-keeps s internal sig res k = ground arith

add_signal-old :
    (s : Signals) (internal : Bool) (sig a : ℕ) (res : List ℕ)
    → In a res
    → In a (add_signal s internal sig res)
unfolding add_signal
add_signal-old s internal sig a res m = elim (Bool-cases (s.is_signal sig)) [
  | inl named ↦ rw named (In-add_old a sig res m)
  | inr unnamed ↦ elim (Bool-cases (internal || is_rt s sig)) [
    | inl kept ↦ rw (unnamed, kept) (In-add_old a sig res m)
    | inr dropped ↦ rw (unnamed, dropped) m
  ]
]

In-add_signals :
    (s : Signals) (internal : Bool) (a : ℕ) (sigs res : List ℕ)
    → In a (add_signals s internal sigs res)
    → (In a sigs × (is_kept s internal a ≡ true)) ⊎ In a res
unfolding add_signals
In-add_signals s internal a [] res m = inr m
In-add_signals s internal a (sig ∷ sigs) res m =
    elim (In-add_signals s internal a sigs (add_signal s internal sig res) m) [
      | inl later ↦ inl (inr later.0, later.1)
      | inr now ↦ elim (In-add_signal s internal sig a res now) [
        | inl here ↦ inl (inl here.0, here.1)
        | inr old ↦ inr old
      ]
    ]

add_signals-old :
    (s : Signals) (internal : Bool) (a : ℕ) (sigs res : List ℕ)
    → In a res
    → In a (add_signals s internal sigs res)
unfolding add_signals
add_signals-old s internal a [] res m = m
add_signals-old s internal a (sig ∷ sigs) res m =
    add_signals-old s internal a sigs _ (add_signal-old s internal sig a res m)

add_signals-keeps :
    (s : Signals) (internal : Bool) (a : ℕ) (sigs res : List ℕ)
    → In a sigs
    → is_kept s internal a ≡ true
    → In a (add_signals s internal sigs res)
unfolding add_signals
add_signals-keeps s internal a [] res m k = elim m [ ]
add_signals-keeps s internal a (sig ∷ sigs) res (inl e) k =
    add_signals-old s internal a sigs _
      (rw (add_signal-keeps s internal sig res (rw e at k)) (rw e (In-add_self sig res)))
add_signals-keeps s internal a (sig ∷ sigs) res (inr m) k =
    add_signals-keeps s internal a sigs _ m k

-- Signal k + 1 is in the set exactly if bit k of the mask is set and the signal has a name, is a
-- real-time signal, or internal signals are asked for.
pub In-expand_sig_bitmask :
    (s : Signals) (mask : ℕ) (internal : Bool) (k : ℕ)
    → In (1 + k) (expand_sig_bitmask s mask internal)
      ↔ ((bit mask k ≡ 1) × (is_kept s internal (1 + k) ≡ true))
unfolding add_signals expand_sig_bitmask
In-expand_sig_bitmask s mask internal k = (
  (λ m. elim (In-add_signals s internal (1 + k) (expand_bitmask mask 1) [] m) [
    | inl found ↦ ((In-expand_bitmask mask 1 k).0 found.0, found.1)
    | inr old ↦ absurd old
  ]),
  (λ h.
      add_signals-keeps s internal (1 + k) (expand_bitmask mask 1) []
        ((In-expand_bitmask mask 1 k).1 h.0) h.1),
)
