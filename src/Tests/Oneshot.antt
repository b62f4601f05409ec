-- ===== src/Tests/Oneshot.antt =====
-- The theorems on `oneshot`, at concrete inputs.
use mathlib.Core.Option.{none-ne-some}
use pypsutil.Prelude.{ℕ, suc, ◌+◌, ◌≡◌, refl, inl, inr, none, [], ◌∷◌, ◌==◌, if◌then◌else◌}
use pypsutil.Prelude.Exn.{Exn, Result, ok, err}
use pypsutil.Prelude.Text.{Text}
use pypsutil.Process.Oneshot.{State, Step, Body, call, run_step, run}
use pypsutil.Process.Oneshot.Steady.{Matches, plain, run_lem}
use pypsutil.Process.Oneshot.Left.{block_snapshot, block_stale}

-- Each question changes the system; the one named 9 fails.
abbrev ask : Text → ℕ → Result ℕ × ℕ
ask [] w = (ok w, suc w)
ask (c ∷ name) w = (if c == 9 then err Exn.permission_error else ok w, suc w)

abbrev asked : ℕ → Step ℕ ℕ ask
asked c = Step.calls (c ∷ [])

-- 1 and 2 are asked, and 1 twice more, once in a block of its own.
abbrev body : Body ℕ ℕ ask
body = Body.next (asked 1) (
    Body.next (asked 2)
      (Body.next (Step.block (Body.next (asked 1) Body.done)) (Body.next (asked 1) Body.done)))

abbrev failing_body : Body ℕ ℕ ask
failing_body = Body.next (asked 1) (Body.next (asked 9) Body.done)

abbrev start : State ℕ ℕ ask
start = record { storage = none; world = 40 }

block_snapshot_example : ◌≡◌ {A = ℕ} 40 40
unfolding run_step call
block_snapshot_example =
    block_snapshot ℕ ℕ ask body start (1 ∷ []) 40 40 (inl refl) (inr (inr (inr (inl refl))))

block_stale_example :
    call ℕ ℕ ask
      (1 ∷ [])
      (record (run_step ℕ ℕ ask (Step.block failing_body) start).state { world = 77 })
    ≡ (ok 40, record (run_step ℕ ℕ ask (Step.block failing_body) start).state { world = 77 })
unfolding run_step call
block_stale_example =
    block_stale ℕ ℕ ask failing_body start Exn.permission_error (1 ∷ []) 40 77 refl refl (inl refl)

-- A system that keeps its answers, though each question changes it.
abbrev told : Text → Result ℕ
told [] = err Exn.key_error
told (c ∷ name) = if c == 9 then err Exn.permission_error else ok (c + 100)

abbrev tell : Text → ℕ → Result ℕ × ℕ
tell name w = (told name, suc w)

abbrev tells : ℕ → Step ℕ ℕ tell
tells c = Step.calls (c ∷ [])

abbrev steady_body : Body ℕ ℕ tell
steady_body = Body.next (tells 1) (
    Body.next
      (Step.block (Body.next (tells 1) (Body.next (tells 1) (Body.next (tells 9) Body.done))))
      (Body.next (tells 2) Body.done))

run_lem_example :
    Matches ℕ ℕ tell told
      (λ name w. refl)
      (plain ℕ ℕ tell told (λ name w. refl) steady_body)
      (run ℕ ℕ tell steady_body (record { storage = none; world = 40 }))
run_lem_example =
    run_lem ℕ ℕ tell told (λ name w. refl) steady_body (record { storage = none; world = 40 })
      (λ name value known. absurd (none-ne-some value known))
