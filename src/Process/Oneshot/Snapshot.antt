-- ===== src/Process/Oneshot/Snapshot.antt =====
-- A block under `oneshot` sees one value of each cached function.
use mathlib.Core.Path.{subst}
use mathlib.Core.Option.{none-ne-some}
use pypsutil.Prelude.{
  ◌≡◌, refl, sym, ap, ◌∙◌, inl, inr, none, some, All, All-imp, All-append, Option-cases, Bool-cases,
}
use pypsutil.Prelude.Dict.{Dict, lookup, insert, lookup-insert}
use pypsutil.Prelude.Exn.{Exn, Result, ok, err, Result-cases}
use pypsutil.Prelude.Text.{Text, text_keys, text_eq, text_eq_iff}
use pypsutil.Process.Oneshot.{
  get_cache, set_cache, State, call, Step, Body, Run, after_call, enter, leave, then_run, run_step,
  run,
}

module _ (V World : Type 0) (func : Text → World → Result V × World) where
  -- What is remembered stays remembered.
  abbrev pub Extends : Dict Text V → Dict Text V → Type 0
  Extends c d = (name : Text) (value : V) → lookup name c ≡ some value → lookup name d ≡ some value

  abbrev pub IsCached : Dict Text V → Text × V → Type 0
  IsCached c (name, value) = lookup name c ≡ some value

  -- The cache is on, has kept what it had, and has every value that was returned.
  abbrev pub Remembers : Dict Text V → Run V World func → Type 0
  Remembers c r =
      (d : Dict Text V) × (r.state.storage ≡ some d) × Extends c d × All (IsCached d) r.values

  insert-Extends :
      (c : Dict Text V) (name : Text) (value : V)
      → lookup name c ≡ none
      → Extends c (insert name value c)
  insert-Extends c name value fresh other old known =
      lookup-insert other name value c ∙ elim (Bool-cases (text_eq other name)) [
        | inl same ↦ absurd (
            none-ne-some old
              (sym fresh ∙ ap (λ k. lookup k c) (sym ((text_eq_iff other name).0 same)) ∙ known))
        | inr differs ↦ rw differs known
      ]

  lookup_self :
      (c : Dict Text V) (name : Text) (value : V) → lookup name (insert name value c) ≡ some value
  lookup_self c name value =
      lookup-insert name name value c ∙ rw ((text_eq_iff name name).1 refl) refl

  -- What a call gives, by what is remembered and by what the function answers.
  pub call_known :
      (name : Text) (s : State V World func) (value : V)
      → get_cache V World func name s.storage ≡ some value
      → call V World func name s ≡ (ok value, s)
  unfolding call
  call_known name s value known = rw (known, call) refl

  pub call_fresh :
      (name : Text) (s : State V World func) (value : V)
      → get_cache V World func name s.storage ≡ none
      → (func name s.world).0 ≡ ok value
      → call V World func name s ≡ (
        ok value,
        record {
          storage = set_cache V World func name value s.storage;
          world = (func name s.world).1;
        },
      )
  unfolding call
  call_fresh name s value fresh answer = rw (call, fresh, answer) refl

  pub call_raised :
      (name : Text) (s : State V World func) (ex : Exn)
      → get_cache V World func name s.storage ≡ none
      → (func name s.world).0 ≡ err ex
      → call V World func name s
        ≡ (err ex, record { storage = s.storage; world = (func name s.world).1 })
  unfolding call
  call_raised name s ex fresh answer = rw (call, fresh, answer) refl

  call-Remembers :
      (name : Text) (s : State V World func) (c : Dict Text V)
      → s.storage ≡ some c
      → Remembers c (after_call V World func name (call V World func name s))
  call-Remembers name s c on =
      let on_name : get_cache V World func name s.storage ≡ lookup name c =
        ap (get_cache V World func name) on in
      elim (Option-cases (lookup name c)) [
        | inl fresh ↦ elim (Result-cases (func name s.world).0) [
          | inl (value, answer) ↦
              subst (λ r. Remembers c (after_call V World func name r))
                (sym (call_fresh name s value (on_name ∙ fresh) answer))
                (
                  insert name value c,
                  ap (set_cache V World func name value) on,
                  insert-Extends c name value fresh,
                  (lookup_self c name value, tt),
                )
          | inr (ex, answer) ↦
              subst (λ r. Remembers c (after_call V World func name r))
                (sym (call_raised name s ex (on_name ∙ fresh) answer)) (c, on, (λ n v k. k), tt)
        ]
        | inr (value, known) ↦
            subst (λ r. Remembers c (after_call V World func name r))
              (sym (call_known name s value (on_name ∙ known))) (c, on, (λ n v k. k), (known, tt))
      ]

  then_run-Remembers :
      (c : Dict Text V) (r : Run V World func) (further : State V World func → Run V World func)
      → Remembers c r
      → ((s : State V World func) (d : Dict Text V) → s.storage ≡ some d → Remembers d (further s))
      → Remembers c (then_run V World func r further)
  then_run-Remembers c r further (d, on, keeps, held) next = elim (Option-cases r.raised) [
    | inr (ex, raised) ↦ rw raised (d, on, keeps, held)
    | inl fine ↦
        let (e, on', keeps', held') = next r.state d on in
        let old : All (IsCached e) r.values =
          All-imp (IsCached d) (IsCached e) (λ (n, v) k. keeps' n v k) r.values held in
        rw fine (
          e,
          on',
          (λ n v k. keeps' n v (keeps n v k)),
          All-append (IsCached e) r.values (further r.state).values old held',
        )
  ]

  pub enter_on :
      (s : State V World func) (c : Dict Text V) → s.storage ≡ some c → enter V World func s ≡ s
  enter_on s c on = simp (on, enter) refl

  mutual
    unfolding run_step

    pub run_step-Remembers :
        (step : Step V World func) (s : State V World func) (c : Dict Text V)
        → s.storage ≡ some c
        → Remembers c (run_step V World func step s)
    run_step-Remembers (Step.calls name) s c on = call-Remembers name s c on
    run_step-Remembers (Step.block body) s c on =
        let inside : Remembers c (run V World func body s) = run-Remembers body s c on in
        subst
          (λ st. Remembers c (leave V World func st (run V World func body (enter V World func s))))
          (sym on)
          (subst (λ u. Remembers c (run V World func body u)) (sym (enter_on s c on)) inside)

    pub run-Remembers :
        (body : Body V World func) (s : State V World func) (c : Dict Text V)
        → s.storage ≡ some c
        → Remembers c (run V World func body s)
    run-Remembers Body.done s c on = (c, on, (λ n v k. k), tt)
    run-Remembers (Body.next step body) s c on =
        then_run-Remembers c (run_step V World func step s) (run V World func body)
          (run_step-Remembers step s c on) (λ s' d on'. run-Remembers body s' d on')
