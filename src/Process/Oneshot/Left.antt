-- ===== src/Process/Oneshot/Left.antt =====
-- `with proc.oneshot()` of pypsutil/_process.py as a whole: what its calls return, and what it leaves.
use mathlib.Core.Path.{subst}
use mathlib.Core.Option.{none-ne-some}
use pypsutil.Prelude.{
  ◌≡◌, refl, sym, ap, ◌∙◌, inl, inr, none, some, List, [], ◌∷◌, All, some-inj, Option-cases, In,
}
use pypsutil.Prelude.Dict.{Dict, lookup}
use pypsutil.Prelude.Exn.{Exn, Result, ok}
use pypsutil.Prelude.Text.{Text, text_keys}
use pypsutil.Process.Oneshot.{get_cache, State, call, Step, Body, Run, enter, leave, run_step, run}
use pypsutil.Process.Oneshot.Snapshot.{IsCached, run-Remembers, run_step-Remembers, call_known}

All-In : {A : Type 0} (P : A → Type 0) (a : A) (xs : List A) → All P xs → In a xs → P a
All-In P a [] h i = absurd i
All-In P a (x ∷ xs) (hx, h) (inl e) = subst P (sym e) hx
All-In P a (x ∷ xs) (hx, h) (inr i) = All-In P a xs h i

module _ (V World : Type 0) (func : Text → World → Result V × World) where
  -- A block that switches the cache on: its body runs with an empty cache.
  fresh_state : State V World func → State V World func
  fresh_state s = record s { storage = some [] }

  block_fresh :
      (body : Body V World func) (s : State V World func)
      → s.storage ≡ none
      → run_step V World func (Step.block body) s
        ≡ leave V World func none (run V World func body (fresh_state s))
  unfolding run_step fresh_state
  block_fresh body s off = simp (off, enter) refl

  leave-values : (r : Run V World func) → (leave V World func none r).values ≡ r.values
  leave-values r = elim (Option-cases r.raised) [
    | inl fine ↦ rw (fine, leave) refl
    | inr (ex, raised) ↦ rw (raised, leave) refl
  ]

  -- Every value that a block returns stands in one cache.
  block-IsCached :
      (body : Body V World func) (s : State V World func)
      → (d : Dict Text V) × All
          (IsCached V World func d)
          (run_step V World func (Step.block body) s).values
  unfolding run_step fresh_state
  block-IsCached body s = elim (Option-cases s.storage) [
    | inl off ↦
        let (d, on, keeps, held) = run-Remembers V World func body (fresh_state s) [] refl in
        let same =
          ap (λ q. q.values) (block_fresh body s off)
          ∙ leave-values (run V World func body (fresh_state s)) in
        (d, subst (λ vs. All (IsCached V World func d) vs) (sym same) held)
    | inr (c, on) ↦
        let (d, on', keeps, held) = run_step-Remembers V World func (Step.block body) s c on in
        (d, held)
  ]

  -- In a block under `oneshot`, whatever happens to the system meanwhile and however blocks are nested
  -- in it, two calls of one cached function return the same value.
  pub block_snapshot :
      (body : Body V World func) (s : State V World func) (name : Text) (value value' : V)
      → In (name, value) (run_step V World func (Step.block body) s).values
      → In (name, value') (run_step V World func (Step.block body) s).values
      → value ≡ value'
  block_snapshot body s name value value' i j =
      let (d, held) = block-IsCached body s in
      let values = (run_step V World func (Step.block body) s).values in
      let one : lookup name d ≡ some value =
        All-In (IsCached V World func d) (name, value) values held i in
      let two : lookup name d ≡ some value' =
        All-In (IsCached V World func d) (name, value') values held j in
      some-inj (sym one ∙ two)

  leave_raised :
      (r : Run V World func) (ex : Exn)
      → (leave V World func none r).raised ≡ some ex
      → leave V World func none r ≡ r
  leave_raised r ex e = elim (Option-cases r.raised) [
    | inl fine ↦ absurd (none-ne-some ex (sym fine ∙ (rw (fine, leave) at e)))
    | inr (other, raised) ↦ simp (raised, leave) refl
  ]

  -- If an exception comes out of the block that has switched the cache on, then the cache stays on:
  -- outside of any `oneshot` and at any later time, each function that the block has called before
  -- returns the value of the block again, without asking the system.
  pub block_stale :
      (body : Body V World func) (s : State V World func) (ex : Exn) (name : Text) (value : V)
      (later : World)
      → s.storage ≡ none
      → (run_step V World func (Step.block body) s).raised ≡ some ex
      → In (name, value) (run_step V World func (Step.block body) s).values
      → call V World func name
          (record (run_step V World func (Step.block body) s).state { world = later })
        ≡ (ok value, record (run_step V World func (Step.block body) s).state { world = later })
  unfolding fresh_state
  block_stale body s ex name value later off raised i =
      let r = run V World func body (fresh_state s) in
      let whole = run_step V World func (Step.block body) s in
      let same : whole ≡ r =
        block_fresh body s off
        ∙ leave_raised r ex (subst (λ q. q.raised ≡ some ex) (block_fresh body s off) raised) in
      let (d, on, keeps, held) = run-Remembers V World func body (fresh_state s) [] refl in
      let inside : In (name, value) r.values = subst (λ q. In (name, value) q.values) same i in
      let known : lookup name d ≡ some value =
        All-In (IsCached V World func d) (name, value) r.values held inside in
      let stored : get_cache V World func name whole.state.storage ≡ some value =
        ap (λ q. get_cache V World func name q.state.storage) same
        ∙ ap (get_cache V World func name) on
        ∙ known in
      call_known V World func name (record whole.state { world = later }) value stored
