-- ===== src/Process/Wait/Total.antt =====
-- `wait` with a timeout comes back: the polling loop has a bounded number of rounds.
use pypsutil.Prelude.{
  ℕ, zero, suc, ◌+◌, ◌-◌, ◌/◌, ◌≤◌, ◌<◌, min, ◌≡◌, ◌≢◌, refl, inl, inr, Bool, true, false, ◌&&◌,
  Option, some, arith, ◌==◌, ltb, if◌then◌else◌, Bool-cases,
}
use pypsutil.Prelude.Int.{ℤ, pos}
use pypsutil.Prelude.Exn.{Exn, Result, ok, err, Result-cases}
use pypsutil.Process.Handle.{Process, is_running}
use pypsutil.Process.Os.{Os}
use pypsutil.Process.Wait.{
  Outcome, outcome, Verdict, poll_interval, wait_child_poll, check_once, remaining_time, wait_loop,
  watch, pidfd_watch, kqueue_watch, after_poll, watch_and_poll, wait_running, wait, polled,
  exists_verdict, pid_exists,
}

-- The clock never goes back, and a sleep lasts at least as long as it was asked to.
pub record IsClock (os : Os) : Type 0 where
  pub sleep_lasts : (d : ℕ) (w : os.World) → os.monotonic w + d ≤ os.monotonic (os.sleep d w)
  pub waitpid_forward :
      (pid : ℕ) (w : os.World) → os.monotonic w ≤ os.monotonic (os.waitpid_nohang pid w).1
  pub pidfd_forward :
      (pid : ℕ) (w : os.World) → os.monotonic w ≤ os.monotonic (os.pidfd_open pid w).1
  pub select_forward :
      (fd : ℕ) (t : Option ℕ) (w : os.World) → os.monotonic w ≤ os.monotonic (os.select fd t w).1
  pub kqueue_forward :
      (pid : ℕ) (t : Option ℕ) (w : os.World)
      → os.monotonic w ≤ os.monotonic (os.kqueue_wait pid t w).1

-- The rounds that the loop needs for so much time: one for each interval begun, and a last one.
abbrev pub rounds : ℕ → ℕ
rounds left = (left + poll_interval - 1) / poll_interval + 1

module _ (os : Os) (clock : IsClock os) where
  open os use {World, monotonic}

  polled_world : (p : Process) (r : Result (ℕ × ℕ) × World) → (polled os p r).world ≡ r.1
  unfolding polled
  polled_world p (err e, w) = refl
  polled_world p (ok (wpid, status), w) = ground arith

  pub wait_child_poll_forward :
      (p : Process) (w : World) → monotonic w ≤ monotonic (wait_child_poll os p w).world
  unfolding wait_child_poll
  wait_child_poll_forward p w =
      rw (polled_world p (os.waitpid_nohang p.pid w)) (clock.waitpid_forward p.pid w)

  check_forward :
      (is_child : Bool) (p : Process) (w : World)
      → monotonic w ≤ monotonic (check_once os is_child p w).world
  unfolding check_once
  check_forward false p w = omega arith
  check_forward true p w = wait_child_poll_forward p w

  -- The time left of a timeout.
  abbrev pub left_at : ℕ → ℕ → World → ℕ
  left_at timeout start w = if ltb 0 timeout then start + timeout - monotonic w else 0

  pub left_falls :
      (timeout start : ℕ) (v w : World)
      → monotonic v ≤ monotonic w
      → left_at timeout start w ≤ left_at timeout start v
  left_falls timeout start v w h = ground arith

  abbrev extra : Bool → ℕ
  extra true = 1
  extra false = 0

  exists_answers : (r : Result Bool) → exists_verdict os r ≢ Verdict.not_a_child
  unfolding exists_verdict
  exists_answers (ok true) e = cc
  exists_answers (ok false) e = cc
  exists_answers (err x) e = cc

  child_only :
      (is_child : Bool) (p : Process) (w : World)
      → (check_once os is_child p w).verdict ≡ Verdict.not_a_child
      → is_child ≡ true
  unfolding check_once
  child_only true p w e = refl
  child_only false p w e = absurd (exists_answers (pid_exists os p.pid w) e)

  -- With so much fuel the loop comes back.
  abbrev ComesBack : ℕ → ℕ → ℕ → Type 0
  ComesBack fuel timeout start =
      (is_child : Bool) (p : Process) (w : World)
      → rounds (left_at timeout start w) + extra is_child ≤ fuel
      → (o : Outcome os (Option ℤ)) × (wait_loop os fuel (some timeout) start is_child p w ≡ some o)

  -- A sleep shortens the time left by an interval, or to nothing.
  pub sleep_shortens :
      (timeout start : ℕ) (w : World)
      → let left = left_at timeout start w in
        0 < left
        → rounds (left_at timeout start (os.sleep (min poll_interval left) w)) < rounds left
  sleep_shortens timeout start w more =
      ground (arith, clock.sleep_lasts (min poll_interval (left_at timeout start w)) w)

  round_total :
      (fuel timeout start : ℕ) (is_child : Bool) (p : Process) (w : World) (v : Verdict os)
      → (check_once os is_child p w).verdict ≡ v
      → rounds (left_at timeout start w) + extra is_child ≤ suc fuel
      → ComesBack fuel timeout start
      → (o : Outcome os (Option ℤ)) × (wait_loop os (suc fuel) (some timeout) start is_child p w
          ≡ some o)
  unfolding wait_loop
  round_total fuel timeout start is_child p w Verdict.finished e h ih =
      let r = check_once os is_child p w in
      (outcome os r.process (ok r.process.exitcode) r.world, rw (e, wait_loop))
  round_total fuel timeout start is_child p w (Verdict.raised x) e h ih =
      let r = check_once os is_child p w in
      (outcome os r.process (err x) r.world, rw (e, wait_loop))
  round_total fuel timeout start is_child p w Verdict.not_a_child e h ih =
      let r = check_once os is_child p w in
      let asked : is_child ≡ true = child_only is_child p w e in
      let shorter = left_falls timeout start w r.world (check_forward is_child p w) in
      let (o, ran) = ih false r.process r.world (omega (arith, shorter, rw asked at h)) in
      (o, rw (e, wait_loop) ran)
  round_total fuel timeout start is_child p w Verdict.still_alive e h ih =
      let r = check_once os is_child p w in
      let left = left_at timeout start r.world in
      let shorter = left_falls timeout start w r.world (check_forward is_child p w) in
      elim (Bool-cases (left == 0)) [
        | inl over ↦ (
          outcome os r.process (err (Exn.timeout_expired (pos p.pid))) r.world,
          rw (e, over, wait_loop),
        )
        | inr more ↦
            let positive : 0 < left = ground (arith, more) in
            let (o, ran) =
              ih is_child r.process (os.sleep (min poll_interval left) r.world)
                (omega (arith, h, shorter, sleep_shortens timeout start r.world positive)) in
            (o, rw (e, more, wait_loop) ran)
      ]

  wait_loop_total : (fuel timeout start : ℕ) → ComesBack fuel timeout start
  wait_loop_total zero timeout start is_child p w h = absurd (omega arith)
  wait_loop_total (suc fuel) timeout start is_child p w h =
      round_total fuel timeout start is_child p w _ refl h (wait_loop_total fuel timeout start)

  pidfd_watch_forward :
      (timeout : Option ℕ) (start : ℕ) (r : Result ℕ × World)
      → monotonic r.1 ≤ monotonic (pidfd_watch os timeout start r).1
  unfolding pidfd_watch
  pidfd_watch_forward timeout start (ok fd, w) =
      clock.select_forward fd (remaining_time os timeout start w) w
  pidfd_watch_forward timeout start (err x, w) = omega arith

  kqueue_watch_world : (r : Result Bool × World) → (kqueue_watch os r).1 ≡ r.1
  unfolding kqueue_watch
  kqueue_watch_world (ok event, w) = refl
  kqueue_watch_world (err x, w) = refl

  watch_forward :
      (timeout : Option ℕ) (start : ℕ) (p : Process) (w : World)
      → monotonic w ≤ monotonic (watch os timeout start p w).1
  unfolding watch
  watch_forward timeout start p w = elim (Bool-cases (os.has_pidfd_open && ltb 0 p.pid)) [
    | inl e ↦ rw e (
        omega (
          arith,
          clock.pidfd_forward p.pid w,
          pidfd_watch_forward timeout start (os.pidfd_open p.pid w),
        ))
    | inr e ↦ rw e (elim (Bool-cases os.has_kqueue) [
      | inl q ↦
          let t = remaining_time os timeout start w in
          rw (q, kqueue_watch_world (os.kqueue_wait p.pid t w)) (clock.kqueue_forward p.pid t w)
      | inr q ↦ rw q (omega arith)
    ])
  ]

  -- The result is there.
  abbrev IsBack : Option (Outcome os (Option ℤ)) → Type 0
  IsBack r = (o : Outcome os (Option ℤ)) × (r ≡ some o)

  watch_and_poll_total :
      (fuel timeout start : ℕ) (is_child : Bool) (p : Process) (w : World)
      → rounds (left_at timeout start w) + 1 ≤ fuel
      → IsBack (watch_and_poll os fuel (some timeout) start is_child p w)
  unfolding watch_and_poll
  watch_and_poll_total fuel timeout start is_child p w h =
      let seen = watch os (some timeout) start p w in
      let later = left_falls timeout start w seen.1 (watch_forward (some timeout) start p w) in
      elim (Bool-cases seen.0) [
        | inl event ↦
            let (o, ran) =
              wait_loop_total fuel timeout start is_child p seen.1 (extra_fits is_child later h) in
            (o, rw event ran)
        | inr nothing ↦ (outcome os p (err (Exn.timeout_expired (pos p.pid))) seen.1, rw nothing)
      ]
    where
      extra_fits :
          (b : Bool) {left left' : ℕ}
          → left' ≤ left
          → rounds left + 1 ≤ fuel
          → rounds left' + extra b ≤ fuel
      extra_fits true l f = omega arith
      extra_fits false l f = omega arith

  wait_running_total :
      (fuel timeout : ℕ) (p : Process) (w : World)
      → rounds timeout + 1 ≤ fuel
      → IsBack (wait_running os fuel (some timeout) p w)
  unfolding wait_running
  wait_running_total fuel timeout p w h = elim (Bool-cases (timeout == 0 && ltb 0 p.pid)) [
    | inl now ↦ (after_poll os p (wait_child_poll os p w), rw now)
    | inr later ↦
        let start : ℕ = if ltb 0 timeout then monotonic w else 0 in
        let fits : rounds (left_at timeout start w) ≤ rounds timeout = ground arith in
        let (o, ran) =
          watch_and_poll_total fuel timeout start (ltb 0 p.pid) p w (omega (arith, fits, h)) in
        (o, rw later ran)
  ]

  -- With a clock that does not go back, and on which a sleep lasts as long as it is asked to, `wait`
  -- with a timeout comes back, from any state of the process and of the world: the polling loop makes
  -- at most one round for each hundredth of a second of the timeout, and two more.
  pub wait_total :
      (fuel timeout : ℕ) (zombies : Bool) (p : Process) (w : World)
      → rounds timeout + 1 ≤ fuel
      → (o : Outcome os (Option ℤ)) × (wait os fuel zombies (some timeout) p w ≡ some o)
  unfolding wait
  wait_total fuel timeout zombies p w h =
      elim (Result-cases (is_running zombies p (os.create_time p.pid w)).1) [
        | inl (b, e) ↦ by_answer b e
        | inr (x, e) ↦
            (outcome os (is_running zombies p (os.create_time p.pid w)).0 (err x) w, rw (e, wait))
      ]
    where
      p' : Process
      p' = (is_running zombies p (os.create_time p.pid w)).0

      by_answer :
          (b : Bool)
          → (is_running zombies p (os.create_time p.pid w)).1 ≡ ok b
          → IsBack (wait os fuel zombies (some timeout) p w)
      by_answer true e =
          let (o, ran) = wait_running_total fuel timeout p' w h in (o, rw (e, wait) ran)
      by_answer false e = (outcome os p' (ok p'.exitcode) w, rw (e, wait))
