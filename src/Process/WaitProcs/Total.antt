-- ===== src/Process/WaitProcs/Total.antt =====
-- `wait_procs` with a timeout comes back, with every process in one of its two lists.
use pypsutil.Prelude.{
  ℕ, zero, suc, ◌+◌, ◌*◌, min, ltb, ◌≤◌, ◌<◌, ◌≡◌, refl, inl, inr, Bool, true, false, Option, some,
  List, [], ◌∷◌, ◌++◌, arith, ◌==◌, if◌then◌else◌, Bool-cases,
}
use pypsutil.Prelude.Exn.{Result, ok, err}
use pypsutil.Process.Handle.{Process, is_running}
use pypsutil.Process.Os.{Os}
use pypsutil.Process.Wait.{poll_interval}
use pypsutil.Process.Wait.Total.{IsClock, rounds, left_at, left_falls, sleep_shortens, wait_total}
use pypsutil.Process.WaitProcs.{
  Waited, Calls, Lists, with_code, sort_out, one_round, after_wait, wait_last, last_lists,
  procs_loop, after_sort, wait_procs, call_back, has_returncode, after_popen,
}
use pypsutil.Process.WaitProcs.Partition.{Holds, pid_sum}
use pypsutil.Process.WaitProcs.Held.{wait_procs-AllHeld}
use pypsutil.Process.WaitProcs.Forward.{
  IsForward, call_back_forward, one_round_forward, add_gone-world, add_alive-world,
}

module _ (os : Os) (clock : IsClock os) (calls : Calls os) (forward : IsForward os calls) where
  open os use {World, monotonic}

  sort_step_forward :
      (zombies : Bool) (p : Waited) (procs : List Waited) (w : World) (r : Result Bool)
      → (is_running zombies p.process (os.create_time p.process.pid w)).1 ≡ r
      → ((v : World) → monotonic v ≤ monotonic (sort_out os calls zombies procs v).1)
      → monotonic w ≤ monotonic (sort_out os calls zombies (p ∷ procs) w).1
  unfolding sort_out
  sort_step_forward zombies p procs w (ok true) e ih =
      let q = (is_running zombies p.process (os.create_time p.process.pid w)).0 in
      rw (e, sort_out)
        (rw
          (add_alive-world os clock calls forward (record p { process = q })
            (sort_out os calls zombies procs w))
          (ih w))
  sort_step_forward zombies p procs w (ok false) e ih =
      let q = (is_running zombies p.process (os.create_time p.process.pid w)).0 in
      let running = record p { process = q } in
      let ended = if has_returncode p then running else with_code os q.exitcode p q in
      let w' = call_back os calls ended w in
      rw (e, sort_out)
        (rw (add_gone-world os clock calls forward ended (sort_out os calls zombies procs w'))
          (omega (arith, call_back_forward os clock calls forward ended w, ih w')))
  sort_step_forward zombies p procs w (err ex) e ih = rw (e, sort_out) (omega arith)

  sort_out_forward :
      (zombies : Bool) (procs : List Waited) (w : World)
      → monotonic w ≤ monotonic (sort_out os calls zombies procs w).1
  unfolding sort_out
  sort_out_forward zombies [] w = omega arith
  sort_out_forward zombies (p ∷ procs) w =
      sort_step_forward zombies p procs w _ refl (sort_out_forward zombies procs)

  abbrev IsBack {ℓ} : {A : Type ℓ} → Option A → Type ℓ
  IsBack {A = A} r = (a : A) × (r ≡ some a)

  wait_last_total :
      (fuel timeout : ℕ) (zombies : Bool) (p : Waited) (w : World)
      → rounds timeout + 1 ≤ fuel
      → IsBack (wait_last os calls fuel zombies (some timeout) p w)
  unfolding wait_last
  wait_last_total fuel timeout zombies p w h = elim (Bool-cases p.is_popen) [
    | inl popen ↦
        simp popen
          (after_popen os p.process (calls.subprocess_wait p.process.pid (some timeout) w), refl)
    | inr plain ↦
        let (o, ran) = wait_total os clock fuel timeout zombies p.process w h in
        simp (plain, ran) (after_wait os calls o.process o.result o.world, refl)
  ]

  -- With so much fuel the loop comes back: a round for each interval of the time left, and then `wait`
  -- for the last process, with the whole timeout.
  abbrev ComesBack : ℕ → Bool → ℕ → ℕ → Type 0
  ComesBack fuel zombies timeout start =
      (gone left : List Waited) (nonchildren : List Process) (w : World)
      → rounds (left_at os clock timeout start w) + rounds timeout + 1 ≤ fuel
      → IsBack (procs_loop os calls fuel zombies (some timeout) start gone left nonchildren w)

  next_total :
      (fuel : ℕ) (zombies : Bool) (timeout start : ℕ) (gone : List Waited) (p q : Waited)
      (rest : List Waited) (nonchildren : List Process) (w : World) (lists : Lists)
      → (one_round os calls zombies (p ∷ q ∷ rest) nonchildren w).lists ≡ lists
      → rounds (left_at os clock timeout start w) + rounds timeout + 1 ≤ suc fuel
      → ComesBack fuel zombies timeout start
      → IsBack (
          procs_loop os calls
            (suc fuel)
            zombies
            (some timeout)
            start
            gone
            (p ∷ q ∷ rest)
            nonchildren
            w)
  unfolding procs_loop
  next_total fuel zombies timeout start gone p q rest nonchildren w (err ex) e h ih = (
    (err ex, (one_round os calls zombies (p ∷ q ∷ rest) nonchildren w).world),
    rw (e, procs_loop) refl,
  )
  next_total fuel zombies timeout start gone p q rest nonchildren w (ok (ended, [])) e h ih = (
    (ok (gone ++ ended, []), (one_round os calls zombies (p ∷ q ∷ rest) nonchildren w).world),
    rw (e, procs_loop) refl,
  )
  next_total fuel zombies timeout start gone p q rest nonchildren w (ok (ended, a ∷ left)) e h ih =
      let r = one_round os calls zombies (p ∷ q ∷ rest) nonchildren w in
      let time = left_at os clock timeout start r.world in
      let shorter =
        left_falls os clock timeout start w r.world
          (one_round_forward os clock calls forward zombies (p ∷ q ∷ rest) nonchildren w) in
      elim (Bool-cases (time == 0)) [
        | inl over ↦ ((ok (gone ++ ended, a ∷ left), r.world), rw (e, over, procs_loop) refl)
        | inr more ↦
            let positive : 0 < time = ground (arith, more) in
            let (o, ran) =
              ih (gone ++ ended) (a ∷ left) r.nonchildren
                (os.sleep (min poll_interval time) r.world)
                (omega
                  (arith, h, shorter, sleep_shortens os clock timeout start r.world positive)) in
            (o, rw (e, more, procs_loop) ran)
      ]

  procs_loop_total :
      (fuel : ℕ) (zombies : Bool) (timeout start : ℕ) → ComesBack fuel zombies timeout start
  unfolding procs_loop one_round
  procs_loop_total zero zombies timeout start gone left nonchildren w h = absurd (omega arith)
  procs_loop_total (suc fuel) zombies timeout start gone [] nonchildren w h = (_, refl)
  procs_loop_total (suc fuel) zombies timeout start gone (p ∷ []) nonchildren w h =
      let (l, ran) = wait_last_total fuel timeout zombies p w (omega (arith, h)) in
      (last_lists os calls p gone l, rw (ran, procs_loop))
  procs_loop_total (suc fuel) zombies timeout start gone (p ∷ q ∷ rest) nonchildren w h =
      next_total fuel zombies timeout start gone p q rest nonchildren w _ refl h
        (procs_loop_total fuel zombies timeout start)

  after_sort_total :
      (fuel : ℕ) (zombies : Bool) (timeout start : ℕ) (r : Lists × World)
      → rounds (left_at os clock timeout start r.1) + rounds timeout + 1 ≤ fuel
      → IsBack (after_sort os calls fuel zombies (some timeout) start r)
  unfolding after_sort
  after_sort_total fuel zombies timeout start (err ex, w) h = (_, refl)
  after_sort_total fuel zombies timeout start (ok (gone, []), w) h = (_, refl)
  after_sort_total fuel zombies timeout start (ok (gone, p ∷ left), w) h =
      procs_loop_total fuel zombies timeout start gone (p ∷ left) [] w h

  -- With a clock that nothing turns back, and on which a sleep lasts as long as it is asked to,
  -- `wait_procs` with a timeout comes back, within two rounds for each hundredth of a second of the
  -- timeout and three more. If it does not raise an exception, then the lists of gone and alive
  -- processes hold together every process that it was given, as often as it was given: whatever number
  -- is given to the PIDs, it adds up to the same.
  pub wait_procs_total :
      (fuel : ℕ) (zombies : Bool) (timeout : ℕ) (procs : List Waited) (w : World)
      → 2 * rounds timeout + 1 ≤ fuel
      → (r : Lists × World) × (wait_procs os calls fuel zombies (some timeout) procs w ≡ some r)
        × ((f : ℕ → ℕ) → Holds f (pid_sum f procs) r.0)
  unfolding wait_procs
  wait_procs_total fuel zombies timeout procs w h =
      let start : ℕ = if ltb 0 timeout then monotonic w else 0 in
      let sorted = sort_out os calls zombies procs w in
      let fits : rounds (left_at os clock timeout start sorted.1) ≤ rounds timeout =
        ground (arith, sort_out_forward zombies procs w) in
      let (r, ran) = after_sort_total fuel zombies timeout start sorted (omega (arith, fits, h)) in
      (r, ran, λ f. rw ran at (wait_procs-AllHeld os calls f fuel zombies (some timeout) procs w))
