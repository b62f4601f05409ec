-- ===== src/Process/Wait/Looks.antt =====
-- What a look of the polling loop of `wait` finds, and the worlds that it looks at.
use pypsutil.Prelude.{
  ℕ, ◌≤◌, ◌≡◌, refl, inl, inr, Bool, true, false, some, arith, ◌==◌, Bool-cases, ==_iff,
}
use pypsutil.Prelude.Exn.{Exn, Result, ok, err}
use pypsutil.Process.Handle.{Process}
use pypsutil.Process.Os.{Os}
use pypsutil.Process.Wait.{
  Verdict, poll_interval, wait_child_poll, check_once, child_verdict, exists_verdict, pid_exists,
  polled, exit_code,
}

module _ (os : Os) where
  open os use {World, monotonic}

  -- The worlds that the polling of a PID comes through: it asks, and it pauses for one interval at
  -- most.
  pub data Reached (pid : ℕ) (s : World) : World → Type 0 where
    at_start : Reached pid s s
    asked : {w : World} → Reached pid s w → Reached pid s (os.waitpid_nohang pid w).1
    slept : {w : World} (d : ℕ) → d ≤ poll_interval → Reached pid s w → Reached pid s (os.sleep d w)

  -- What the last look of the polling has found, which began in the world `s` and left `end`. The
  -- process is gone: reaped, with a status that the handle now holds, or no longer there.
  pub data Over (pid : ℕ) (s : World) (p : Process) (end : World) : Type 0 where
    by_reaping :
        {w : World} (wpid status : ℕ)
        → Reached pid s w
        → os.waitpid_nohang pid w ≡ (ok (wpid, status), end)
        → (wpid == 0) ≡ false
        → p.dead ≡ true
        → p.exitcode ≡ some (exit_code os status)
        → Over pid s p end
    by_absence : Reached pid s end → pid_exists os pid end ≡ ok false → Over pid s p end

  -- It is a child that has not ended, or a process that exists.
  pub data StillThere (pid : ℕ) (s : World) (end : World) : Type 0 where
    by_poll :
        {w : World} (status : ℕ)
        → Reached pid s w
        → os.waitpid_nohang pid w ≡ (ok (0, status), end)
        → StillThere pid s end
    by_presence : Reached pid s end → pid_exists os pid end ≡ ok true → StillThere pid s end

  -- An exception comes from a call of the system.
  pub data Raised (pid : ℕ) (s : World) (e : Exn) (end : World) : Type 0 where
    by_waitpid :
        {w : World} → Reached pid s w → os.waitpid_nohang pid w ≡ (err e, end) → Raised pid s e end
    by_exists : Reached pid s end → pid_exists os pid end ≡ err e → Raised pid s e end

  -- A poll that has an answer.
  polled_finished :
      (s : World) (p : Process) (w : World) (r : Result (ℕ × ℕ) × World)
      → Reached p.pid s w
      → os.waitpid_nohang p.pid w ≡ r
      → child_verdict os (polled os p r).result ≡ Verdict.finished
      → Over p.pid s (polled os p r).process (polled os p r).world
  unfolding polled child_verdict
  polled_finished s p w (err Exn.child_process_error, w') from answer e = absurd (cc)
  polled_finished s p w (err x, w') from answer e = absurd (cc)
  polled_finished s p w (ok (wpid, status), w') from answer e = elim (Bool-cases (wpid == 0)) [
    | inl none_yet ↦ absurd (ground arith)
    | inr one ↦ rw one (Over.by_reaping wpid status from answer one refl refl)
  ]

  polled_alive :
      (s : World) (p : Process) (w : World) (r : Result (ℕ × ℕ) × World)
      → Reached p.pid s w
      → os.waitpid_nohang p.pid w ≡ r
      → child_verdict os (polled os p r).result ≡ Verdict.still_alive
      → StillThere p.pid s (polled os p r).world
  unfolding polled child_verdict
  polled_alive s p w (err Exn.child_process_error, w') from answer e = absurd (cc)
  polled_alive s p w (err x, w') from answer e = absurd (cc)
  polled_alive s p w (ok (wpid, status), w') from answer e = elim (Bool-cases (wpid == 0)) [
    | inl none_yet ↦
        let zero_pid : wpid ≡ 0 = (==_iff wpid 0).0 none_yet in
        rw none_yet (StillThere.by_poll status from (rw zero_pid at answer))
    | inr one ↦ absurd (ground arith)
  ]

  polled_raised :
      (s : World) (p : Process) (w : World) (r : Result (ℕ × ℕ) × World) (x : Exn)
      → Reached p.pid s w
      → os.waitpid_nohang p.pid w ≡ r
      → child_verdict os (polled os p r).result ≡ Verdict.raised x
      → Raised p.pid s x (polled os p r).world
  unfolding polled child_verdict
  polled_raised s p w (err Exn.child_process_error, w') x from answer e = absurd (cc)
  polled_raised s p w (err y, w') x from answer e =
      let same : y ≡ x = cc in Raised.by_waitpid from (rw same at answer)
  polled_raised s p w (ok (wpid, status), w') x from answer e = absurd (ground arith)

  exists_finished : (r : Result Bool) → exists_verdict os r ≡ Verdict.finished → r ≡ ok false
  unfolding exists_verdict
  exists_finished (ok true) e = cc
  exists_finished (ok false) e = refl
  exists_finished (err x) e = cc

  exists_alive : (r : Result Bool) → exists_verdict os r ≡ Verdict.still_alive → r ≡ ok true
  unfolding exists_verdict
  exists_alive (ok true) e = refl
  exists_alive (ok false) e = cc
  exists_alive (err x) e = cc

  exists_raised : (r : Result Bool) (x : Exn) → exists_verdict os r ≡ Verdict.raised x → r ≡ err x
  unfolding exists_verdict
  exists_raised (ok true) x e = cc
  exists_raised (ok false) x e = cc
  exists_raised (err y) x e = cc

  pub check_finished :
      (s : World) (is_child : Bool) (p : Process) (w : World)
      → Reached p.pid s w
      → (check_once os is_child p w).verdict ≡ Verdict.finished
      → Over p.pid s (check_once os is_child p w).process (check_once os is_child p w).world
  unfolding check_once wait_child_poll
  check_finished s true p w from e = polled_finished s p w (os.waitpid_nohang p.pid w) from refl e
  check_finished s false p w from e =
      Over.by_absence from (exists_finished (pid_exists os p.pid w) e)

  pub check_alive :
      (s : World) (is_child : Bool) (p : Process) (w : World)
      → Reached p.pid s w
      → (check_once os is_child p w).verdict ≡ Verdict.still_alive
      → StillThere p.pid s (check_once os is_child p w).world
  unfolding check_once wait_child_poll
  check_alive s true p w from e = polled_alive s p w (os.waitpid_nohang p.pid w) from refl e
  check_alive s false p w from e =
      StillThere.by_presence from (exists_alive (pid_exists os p.pid w) e)

  pub check_raised :
      (s : World) (is_child : Bool) (p : Process) (w : World) (x : Exn)
      → Reached p.pid s w
      → (check_once os is_child p w).verdict ≡ Verdict.raised x
      → Raised p.pid s x (check_once os is_child p w).world
  unfolding check_once wait_child_poll
  check_raised s true p w x from e = polled_raised s p w (os.waitpid_nohang p.pid w) x from refl e
  check_raised s false p w x from e =
      Raised.by_exists from (exists_raised (pid_exists os p.pid w) x e)

  polled-world : (p : Process) (r : Result (ℕ × ℕ) × World) → (polled os p r).world ≡ r.1
  unfolding polled
  polled-world p (err x, w) = refl
  polled-world p (ok (wpid, status), w) = ground arith

  pub check_once-Reached :
      (s : World) (is_child : Bool) (p : Process) (w : World)
      → Reached p.pid s w
      → Reached p.pid s (check_once os is_child p w).world
  unfolding check_once wait_child_poll
  check_once-Reached s true p w from =
      rw (polled-world p (os.waitpid_nohang p.pid w)) (Reached.asked from)
  check_once-Reached s false p w from = from
