-- ===== src/Process/Wait/SamePid.antt =====
-- A wait changes what a handle knows, never which process it is for.
use pypsutil.Prelude.{
  ℕ, zero, suc, ◌+◌, ◌-◌, min, ◌≡◌, refl, ◌∙◌, inl, inr, Bool, true, false, ◌&&◌, Option, none,
  some, arith, ◌==◌, ltb, if◌then◌else◌, Bool-cases,
}
use pypsutil.Prelude.Int.{ℤ}
use pypsutil.Prelude.Exn.{Exn, Result, ok, err}
use pypsutil.Process.Handle.{Process, is_running}
use pypsutil.Process.Identity.{is_running_keeps}
use pypsutil.Process.Os.{Os}
use pypsutil.Process.Wait.{
  Outcome, outcome, Verdict, wait_child_poll, check_once, poll_interval, wait_loop, watch,
  watch_and_poll, after_waitpid, after_poll, wait_running, wait, polled,
}

module _ (os : Os) where
  open os use {World, monotonic}

  polled-pid : (p : Process) (r : Result (ℕ × ℕ) × World) → (polled os p r).process.pid ≡ p.pid
  unfolding polled
  polled-pid p (err e, w) = refl
  polled-pid p (ok (wpid, status), w) = ground arith

  pub wait_child_poll-pid : (p : Process) (w : World) → (wait_child_poll os p w).process.pid ≡ p.pid
  unfolding wait_child_poll
  wait_child_poll-pid p w = polled-pid p (os.waitpid_nohang p.pid w)

  pub check_once-pid :
      (is_child : Bool) (p : Process) (w : World) → (check_once os is_child p w).process.pid ≡ p.pid
  unfolding check_once
  check_once-pid true p w = wait_child_poll-pid p w
  check_once-pid false p w = refl

  -- What comes back, if something does, is for the same PID.
  abbrev pub Keeps : ℕ → Option (Outcome os (Option ℤ)) → Type 0
  Keeps pid none = Unit
  Keeps pid (some o) = o.process.pid ≡ pid

  abbrev LoopKeeps : ℕ → Option ℕ → ℕ → Type 0
  LoopKeeps fuel timeout start =
      (is_child : Bool) (p : Process) (w : World)
      → Keeps p.pid (wait_loop os fuel timeout start is_child p w)

  Keeps-trans : {i j : ℕ} (r : Option (Outcome os (Option ℤ))) → j ≡ i → Keeps j r → Keeps i r
  Keeps-trans none e k = tt
  Keeps-trans (some o) e k = k ∙ e

  Keeps-if :
      (pid : ℕ) (b : Bool) (r s : Option (Outcome os (Option ℤ)))
      → Keeps pid r
      → Keeps pid s
      → Keeps pid (if b then r else s)
  Keeps-if pid true r s k l = k
  Keeps-if pid false r s k l = l

  round-Keeps :
      (fuel : ℕ) (timeout : Option ℕ) (start : ℕ) (is_child : Bool) (p : Process) (w : World)
      (v : Verdict os)
      → (check_once os is_child p w).verdict ≡ v
      → LoopKeeps fuel timeout start
      → Keeps p.pid (wait_loop os (suc fuel) timeout start is_child p w)
  unfolding wait_loop
  round-Keeps fuel timeout start is_child p w Verdict.finished e ih =
      rw (e, wait_loop) (check_once-pid is_child p w)
  round-Keeps fuel timeout start is_child p w (Verdict.raised x) e ih =
      rw (e, wait_loop) (check_once-pid is_child p w)
  round-Keeps fuel timeout start is_child p w Verdict.not_a_child e ih =
      let r = check_once os is_child p w in
      rw (e, wait_loop) (Keeps-trans _ (check_once-pid is_child p w) (ih false r.process r.world))
  round-Keeps fuel none start is_child p w Verdict.still_alive e ih =
      let r = check_once os is_child p w in
      rw (e, wait_loop)
        (Keeps-trans _ (check_once-pid is_child p w)
          (ih is_child r.process (os.sleep poll_interval r.world)))
  round-Keeps fuel (some t) start is_child p w Verdict.still_alive e ih =
      let r = check_once os is_child p w in
      let left = if ltb 0 t then start + t - monotonic r.world else 0 in
      elim (Bool-cases (left == 0)) [
        | inl over ↦ rw (e, over, wait_loop) (check_once-pid is_child p w)
        | inr more ↦
            rw (e, more, wait_loop)
              (Keeps-trans _ (check_once-pid is_child p w)
                (ih is_child r.process (os.sleep (min poll_interval left) r.world)))
      ]

  wait_loop-Keeps : (fuel : ℕ) (timeout : Option ℕ) (start : ℕ) → LoopKeeps fuel timeout start
  unfolding wait_loop
  wait_loop-Keeps zero timeout start is_child p w = tt
  wait_loop-Keeps (suc fuel) timeout start is_child p w =
      round-Keeps fuel timeout start is_child p w _ refl (wait_loop-Keeps fuel timeout start)

  watch_and_poll-Keeps :
      (fuel : ℕ) (timeout : Option ℕ) (start : ℕ) (is_child : Bool) (p : Process) (w : World)
      → Keeps p.pid (watch_and_poll os fuel timeout start is_child p w)
  unfolding watch_and_poll
  watch_and_poll-Keeps fuel timeout start is_child p w =
      elim (Bool-cases (watch os timeout start p w).0) [
        | inl event ↦
            rw event (wait_loop-Keeps fuel timeout start is_child p (watch os timeout start p w).1)
        | inr nothing ↦ rw nothing refl
      ]

  after_waitpid-Keeps :
      (fuel : ℕ) (p : Process) (r : Result (ℕ × ℕ) × World)
      → Keeps p.pid (after_waitpid os fuel p r)
  unfolding after_waitpid
  after_waitpid-Keeps fuel p (ok (_, status), w) = refl
  after_waitpid-Keeps fuel p (err Exn.child_process_error, w) =
      watch_and_poll-Keeps fuel none 0 false p w
  after_waitpid-Keeps fuel p (err e, w) = refl

  after_poll-pid :
      (p q : Process) (r : Result Bool) (w : World)
      → (after_poll os p (outcome os q r w)).process.pid ≡ q.pid
  unfolding after_poll
  after_poll-pid p q (ok true) w = refl
  after_poll-pid p q (ok false) w = refl
  after_poll-pid p q (err Exn.child_process_error) w = refl
  after_poll-pid p q (err e) w = refl

  wait_running-Keeps :
      (fuel : ℕ) (timeout : Option ℕ) (p : Process) (w : World)
      → Keeps p.pid (wait_running os fuel timeout p w)
  unfolding wait_running
  wait_running-Keeps fuel none p w =
      Keeps-if p.pid (ltb 0 p.pid) _ _ (after_waitpid-Keeps fuel p (os.waitpid p.pid w))
        (watch_and_poll-Keeps fuel none 0 (ltb 0 p.pid) p w)
  wait_running-Keeps fuel (some t) p w = elim (Bool-cases (t == 0 && ltb 0 p.pid)) [
    | inl now ↦
        let o = wait_child_poll os p w in
        rw now (after_poll-pid p o.process o.result o.world ∙ wait_child_poll-pid p w)
    | inr later ↦
        rw later (
          watch_and_poll-Keeps fuel (some t) (if ltb 0 t then monotonic w else 0) (ltb 0 p.pid) p w)
  ]

  answered-Keeps :
      (fuel : ℕ) (zombies : Bool) (timeout : Option ℕ) (p : Process) (w : World) (r : Result Bool)
      → (is_running zombies p (os.create_time p.pid w)).1 ≡ r
      → Keeps p.pid (wait os fuel zombies timeout p w)
  unfolding wait
  answered-Keeps fuel zombies timeout p w (ok true) e =
      let p' = (is_running zombies p (os.create_time p.pid w)).0 in
      let same = (is_running_keeps zombies p (os.create_time p.pid w)).0 in
      rw (e, wait) (Keeps-trans _ same (wait_running-Keeps fuel timeout p' w))
  answered-Keeps fuel zombies timeout p w (ok false) e =
      rw (e, wait) (is_running_keeps zombies p (os.create_time p.pid w)).0
  answered-Keeps fuel zombies timeout p w (err x) e =
      rw (e, wait) (is_running_keeps zombies p (os.create_time p.pid w)).0

  -- `wait` returns or raises with the handle still for the same PID.
  pub wait-Keeps :
      (fuel : ℕ) (zombies : Bool) (timeout : Option ℕ) (p : Process) (w : World)
      → Keeps p.pid (wait os fuel zombies timeout p w)
  wait-Keeps fuel zombies timeout p w = answered-Keeps fuel zombies timeout p w _ refl
