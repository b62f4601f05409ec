-- ===== src/Prelude/Exn.antt =====
-- Python exceptions as values: the built-in ones that the library meets or raises, and the
-- classes of pypsutil/_errors.py.
use Prim.Native.Nat.{ℕ}
use mathlib.Core.Path.{◌≡◌, refl, ap, subst}
use mathlib.Core.Logic.{◌⊎◌, inl, inr}
use pypsutil.Prelude.Int.{ℤ}

pub data Exn : Type 0 where
  -- subclasses of OSError, and any other OSError with its errno
  process_lookup_error permission_error file_not_found_error child_process_error : Exn
  os_error : ℕ → Exn
  key_error value_error index_error assertion_error overflow_error zero_division_error : Exn
  unicode_error runtime_error struct_error type_error : Exn
  -- pypsutil's own, with the PID that they carry
  no_such_process zombie_process access_denied timeout_expired : ℤ → Exn

pub data Result {ℓ} (A : Type ℓ) : Type ℓ where
  -- what a call returns
  ok : A → Result A
  -- what a call raises
  err : Exn → Result A

-- An exception skips the statements that follow.
infixl 5 ◌>>=◌ ◌>>◌
abbrev pub ◌>>=◌ {ℓ κ} : {X : Type ℓ} {Y : Type κ} → Result X → (X → Result Y) → Result Y
ok value >>= next = next value
err ex >>= next = err ex

abbrev pub ◌>>◌ {ℓ} : {Y : Type ℓ} → Result (Unit {0}) → Result Y → Result Y
first >> second = first >>= λ _. second

-- `except FileNotFoundError as ex: raise ProcessLookupError from ex`
abbrev pub missing_as_lookup {ℓ} : {A : Type ℓ} → Result A → Result A
missing_as_lookup (ok a) = ok a
missing_as_lookup (err Exn.file_not_found_error) = err Exn.process_lookup_error
missing_as_lookup (err e) = err e

pub Result-cases {ℓ} :
    {A : Type ℓ} (r : Result A) → ((a : A) × (r ≡ ok a)) ⊎ ((e : Exn) × (r ≡ err e))
Result-cases (ok a) = inl (a, refl)
Result-cases (err e) = inr (e, refl)

pub bind_cong {ℓ κ} :
    {A : Type ℓ} {B : Type κ} (r : Result A) (f g : A → Result B)
    → ((a : A) → f a ≡ g a)
    → (r >>= f) ≡ (r >>= g)
bind_cong (ok a) f g h = h a
bind_cong (err e) f g h = refl

pub bind_assoc {ℓ κ μ} :
    {A : Type ℓ} {B : Type κ} {C : Type μ} (r : Result A) (f : A → Result B) (g : B → Result C)
    → ((r >>= f) >>= g) ≡ (r >>= λ a. f a >>= g)
bind_assoc (ok a) f g = refl
bind_assoc (err e) f g = refl

pub err≢ok {ℓ} : {A : Type ℓ} {a : A} {ex : Exn} → ◌≡◌ {A = Result A} (err ex) (ok a) → ⊥
err≢ok {A = A} e =
    subst (λ (r : Result A). elim r as (λ x. Type 0) [ ok x ↦ ⊥ | err _ ↦ Unit ]) e tt

pub ok-inj {ℓ} : {A : Type ℓ} {a b : A} → ◌≡◌ {A = Result A} (ok a) (ok b) → a ≡ b
ok-inj {a = a} e = ap (λ r. elim r [ ok x ↦ x | err _ ↦ a ]) e

pub bind_ok {ℓ κ} :
    {A : Type ℓ} {B : Type κ} (r : Result A) (f : A → Result B) (b : B)
    → (r >>= f) ≡ ok b
    → (a : A) × (r ≡ ok a) × (f a ≡ ok b)
bind_ok (ok a) f b e = (a, refl, e)
bind_ok (err ex) f b e = absurd (err≢ok e)
