-- ===== src/Process/Oneshot/Steady.antt =====
-- Without changes of the system, `oneshot` changes no result.
use mathlib.Core.Path.{subst}
use mathlib.Core.Option.{none-ne-some}
use pypsutil.Prelude.{
  ◌≡◌, refl, sym, ap, ◌∙◌, inl, inr, Option, none, some, List, [], ◌∷◌, ◌++◌, some-inj,
  Option-cases, Bool-cases,
}
use pypsutil.Prelude.Dict.{lookup, insert, lookup-insert}
use pypsutil.Prelude.Exn.{Exn, Result, ok, err, Result-cases}
use pypsutil.Prelude.Text.{Text, text_keys, text_eq, text_eq_iff}
use pypsutil.Process.Oneshot.{
  Storage, get_cache, set_cache, State, call, Step, Body, Run, after_call, enter, leave, then_run,
  run_step, run,
}
use pypsutil.Process.Oneshot.Snapshot.{call_known, call_fresh, call_raised, enter_on}

module _ (V World : Type 0) (func : Text → World → Result V × World) (answers : Text → Result V)
    (steady : (name : Text) (w : World) → (func name w).0 ≡ answers name) where
  -- What a block comes to if each function has one answer: its values and the exception that ends it.
  abbrev pub Plain : Type 0
  Plain = List (Text × V) × Option Exn

  abbrev pub plain_call : Text → Result V → Plain
  plain_call name (ok value) = ((name, value) ∷ [], none)
  plain_call name (err ex) = ([], some ex)

  abbrev pub then_plain : Plain → Plain → Plain
  then_plain (values, some ex) q = (values, some ex)
  then_plain (values, none) q = (values ++ q.0, q.1)

  mutual
    pub plain_step : Step V World func → Plain
    plain_step (Step.calls name) = plain_call name (answers name)
    plain_step (Step.block body) = plain body

    pub plain : Body V World func → Plain
    plain Body.done = ([], none)
    plain (Body.next step body) = then_plain (plain_step step) (plain body)

  -- What is remembered is what would be answered.
  abbrev pub IsTrue : Storage V World func → Type 0
  IsTrue storage =
      (name : Text) (value : V)
      → get_cache V World func name storage ≡ some value
      → answers name ≡ ok value

  abbrev pub Matches : Plain → Run V World func → Type 0
  Matches q r = (r.values ≡ q.0) × (r.raised ≡ q.1) × IsTrue r.state.storage

  set_cache-IsTrue :
      (name : Text) (value : V) (storage : Storage V World func)
      → answers name ≡ ok value
      → IsTrue storage
      → IsTrue (set_cache V World func name value storage)
  set_cache-IsTrue name value none answer true_before other old known = true_before other old known
  set_cache-IsTrue name value (some c) answer true_before other old known =
      elim (Bool-cases (text_eq other name)) [
        | inl same ↦
            let e : other ≡ name = (text_eq_iff other name).0 same in
            let found : lookup other (insert name value c) ≡ some value =
              lookup-insert other name value c ∙ rw same refl in
            ap answers e ∙ answer ∙ ap (λ (v : V). ok v) (some-inj (sym found ∙ known))
        | inr differs ↦
            true_before other old
              ((sym (rw differs refl)) ∙ sym (lookup-insert other name value c) ∙ known)
      ]

  call-Matches :
      (name : Text) (s : State V World func)
      → IsTrue s.storage
      → Matches
          (plain_call name (answers name))
          (after_call V World func name (call V World func name s))
  call-Matches name s h = elim (Option-cases (get_cache V World func name s.storage)) [
    | inr (value, known) ↦
        subst (λ r. Matches (plain_call name (answers name)) (after_call V World func name r))
          (sym (call_known V World func name s value known))
          (subst (λ a. Matches (plain_call name a) (after_call V World func name (ok value, s)))
            (sym (h name value known)) (refl, refl, h))
    | inl fresh ↦ elim (Result-cases (func name s.world).0) [
      | inl (value, answer) ↦
          let told : answers name ≡ ok value = sym (steady name s.world) ∙ answer in
          let s' : State V World func = record {
            storage = set_cache V World func name value s.storage;
            world = (func name s.world).1;
          } in
          subst (λ r. Matches (plain_call name (answers name)) (after_call V World func name r))
            (sym (call_fresh V World func name s value fresh answer))
            (subst (λ a. Matches (plain_call name a) (after_call V World func name (ok value, s')))
              (sym told) (refl, refl, set_cache-IsTrue name value s.storage told h))
      | inr (ex, answer) ↦
          let told : answers name ≡ err ex = sym (steady name s.world) ∙ answer in
          let s' : State V World func = record {
            storage = s.storage;
            world = (func name s.world).1;
          } in
          subst (λ r. Matches (plain_call name (answers name)) (after_call V World func name r))
            (sym (call_raised V World func name s ex fresh answer))
            (subst (λ a. Matches (plain_call name a) (after_call V World func name (err ex, s')))
              (sym told) (refl, refl, h))
    ]
  ]

  then_run_raised :
      (r : Run V World func) (further : State V World func → Run V World func) (ex : Exn)
      → r.raised ≡ some ex
      → then_run V World func r further ≡ r
  then_run_raised r further ex e = simp (e, then_run) refl

  then_run_fine :
      (r : Run V World func) (further : State V World func → Run V World func)
      → r.raised ≡ none
      → then_run V World func r further
        ≡ record (further r.state) { values = r.values ++ (further r.state).values }
  then_run_fine r further e = simp (e, then_run) refl

  leave_fine :
      (r : Run V World func)
      → r.raised ≡ none
      → leave V World func none r
        ≡ record r { state = record { storage = none; world = r.state.world } }
  leave_fine r e = simp (e, leave) refl

  leave_raised :
      (r : Run V World func) (ex : Exn) → r.raised ≡ some ex → leave V World func none r ≡ r
  leave_raised r ex e = simp (e, leave) refl

  enter_off :
      (s : State V World func)
      → s.storage ≡ none
      → enter V World func s ≡ record s { storage = some [] }
  enter_off s e = simp (e, enter) refl

  then_run-Matches :
      (p q : Plain) (r : Run V World func) (further : State V World func → Run V World func)
      → Matches p r
      → ((s : State V World func) → IsTrue s.storage → Matches q (further s))
      → Matches (then_plain p q) (then_run V World func r further)
  then_run-Matches (values, some ex) q r further (hv, hr, h) next =
      subst (λ u. Matches (values, some ex) u) (sym (then_run_raised r further ex hr)) (hv, hr, h)
  then_run-Matches (values, none) q r further (hv, hr, h) next =
      let (hv', hr', h') = next r.state h in
      subst (λ u. Matches (values ++ q.0, q.1) u) (sym (then_run_fine r further hr))
        (ap (λ vs. vs ++ (further r.state).values) hv ∙ ap (λ vs. values ++ vs) hv', hr', h')

  leave-Matches :
      (q : Plain) (st : Storage V World func) (r : Run V World func)
      → Matches q r
      → Matches q (leave V World func st r)
  leave-Matches q (some c) r m = m
  leave-Matches q none r (hv, hr, h) = elim (Option-cases r.raised) [
    | inl fine ↦
        subst (λ u. Matches q u) (sym (leave_fine r fine))
          (hv, hr, λ name value known. absurd (none-ne-some value known))
    | inr (ex, raised) ↦ subst (λ u. Matches q u) (sym (leave_raised r ex raised)) (hv, hr, h)
  ]

  enter-IsTrue : (s : State V World func) → IsTrue s.storage → IsTrue (enter V World func s).storage
  enter-IsTrue s h = elim (Option-cases s.storage) [
    | inl off ↦
        subst (λ u. IsTrue u.storage) (sym (enter_off s off))
          (λ name value known. absurd (none-ne-some value known))
    | inr (c, on) ↦ subst (λ u. IsTrue u.storage) (sym (enter_on V World func s c on)) h
  ]

  mutual
    unfolding run_step plain_step

    run_step-Matches :
        (step : Step V World func) (s : State V World func)
        → IsTrue s.storage
        → Matches (plain_step step) (run_step V World func step s)
    run_step-Matches (Step.calls name) s h = call-Matches name s h
    run_step-Matches (Step.block body) s h =
        leave-Matches (plain body) s.storage (run V World func body (enter V World func s))
          (run-Matches body (enter V World func s) (enter-IsTrue s h))

    run-Matches :
        (body : Body V World func) (s : State V World func)
        → IsTrue s.storage
        → Matches (plain body) (run V World func body s)
    run-Matches Body.done s h = (refl, refl, h)
    run-Matches (Body.next step body) s h =
        then_run-Matches (plain_step step) (plain body) (run_step V World func step s)
          (run V World func body) (run_step-Matches step s h) (λ s' h'. run-Matches body s' h')

  -- While each cached function has one answer, calls in and outside of blocks under `oneshot`,
  -- however nested, return what they would return without the cache, and the same exception ends
  -- them, if one does; what is in the cache afterwards is true as well.
  pub run_lem :
      (body : Body V World func) (s : State V World func)
      → IsTrue s.storage
      → Matches (plain body) (run V World func body s)
  run_lem body s h = run-Matches body s h
