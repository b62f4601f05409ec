-- ===== src/Process/Wait.antt =====
-- `Process.wait`, `_wait_child_poll` and `pid_exists` of pypsutil/_process.py.
-- A timeout is a number of nanoseconds; a negative one takes the branches of 0. The `while True`
-- loop is on fuel. The locks are left out: one thread.
pub mod SamePid
pub mod Total
pub mod Looks
pub mod Ends
use pypsutil.Prelude.{
  ℕ, zero, suc, ◌+◌, ◌-◌, min, ◌≡◌, Bool, true, false, not, ◌&&◌, Option, none, some, arith, ◌==◌,
  ltb, if◌then◌else◌,
}
use pypsutil.Prelude.Int.{ℤ, pos, neg_ℕ}
use pypsutil.Prelude.Exn.{Exn, Result, ok, err}
use pypsutil.Process.Handle.{Process, is_running}
use pypsutil.Process.Os.{Os}

-- 0.01 seconds.
abbrev pub poll_interval : ℕ
poll_interval = 10_000_000

-- The two `except` clauses of `pid_exists`.
abbrev exists_answer {ℓ} : {A : Type ℓ} → Result A → Result Bool
exists_answer (ok _) = ok true
exists_answer (err Exn.process_lookup_error) = ok false
exists_answer (err (Exn.no_such_process _)) = ok false
exists_answer (err (Exn.zombie_process _)) = ok false
exists_answer (err Exn.permission_error) = ok true
exists_answer (err (Exn.access_denied _)) = ok true
exists_answer (err e) = err e

module _ (os : Os) where
  open os use {World, create_time, kill_zero, waitpid_nohang, waitpid, monotonic, sleep}

  -- What a call leaves: the process object, the value or the exception, and the world.
  pub record Outcome (A : Type 0) : Type 0 where
    pub process : Process
    pub result : Result A
    pub world : World

  abbrev outcome : {A : Type 0} → Process → Result A → World → Outcome A
  outcome p r w = record { process = p; result = r; world = w }

  -- `pid_exists(pid)`, for a PID that is not negative.
  unfoldable pub pid_exists : ℕ → World → Result Bool
  pid_exists pid w =
      if ltb 0 pid then exists_answer (kill_zero pid w) else exists_answer (create_time pid w)

  -- `-os.WTERMSIG(s) if os.WIFSIGNALED(s) else os.WEXITSTATUS(s)`
  unfoldable pub exit_code : ℕ → ℤ
  exit_code status =
      if os.if_signaled status then neg_ℕ (os.term_sig status) else pos (os.exit_status status)

  -- The assignments after a `waitpid` that has reaped the process.
  abbrev pub reaped : Process → ℕ → Process
  reaped p status = record p { dead = true; exitcode = some (exit_code status) }

  polled : Process → Result (ℕ × ℕ) × World → Outcome Bool
  polled p (err e, w) = outcome p (err e) w
  polled p (ok (wpid, status), w) =
      if wpid == 0 then outcome p (ok false) w else outcome (reaped p status) (ok true) w

  -- `_wait_child_poll`
  unfoldable pub wait_child_poll : Process → World → Outcome Bool
  unfolding polled
  wait_child_poll p w = polled p (waitpid_nohang p.pid w)

  -- `(start_time + timeout) - time.monotonic()` for a positive timeout, or 0; none without one. A
  -- deadline that has passed leaves 0.
  abbrev pub remaining_time : Option ℕ → ℕ → World → Option ℕ
  remaining_time none start w = none
  remaining_time (some timeout) start w =
      some (if ltb 0 timeout then start + timeout - monotonic w else 0)

  -- What a round of the polling loop finds before its pause.
  pub data Verdict : Type 0 where
    finished still_alive not_a_child : Verdict
    raised : Exn → Verdict

  pub record Round : Type 0 where
    pub process : Process
    pub verdict : Verdict
    pub world : World

  child_verdict : Result Bool → Verdict
  child_verdict (ok true) = Verdict.finished
  child_verdict (ok false) = Verdict.still_alive
  child_verdict (err Exn.child_process_error) = Verdict.not_a_child
  child_verdict (err e) = Verdict.raised e

  exists_verdict : Result Bool → Verdict
  exists_verdict (ok true) = Verdict.still_alive
  exists_verdict (ok false) = Verdict.finished
  exists_verdict (err e) = Verdict.raised e

  unfoldable pub check_once : Bool → Process → World → Round
  unfolding child_verdict exists_verdict
  check_once true p w =
      let o = wait_child_poll p w in
      record { process = o.process; verdict = child_verdict o.result; world = o.world }
  check_once false p w = record {
    process = p;
    verdict = exists_verdict (pid_exists p.pid w);
    world = w;
  }

  -- The loop `while True` at the end of `wait`.
  unfoldable pub wait_loop : ℕ → Option ℕ → ℕ → Bool → Process → World → Option (Outcome (Option ℤ))
  wait_loop zero timeout start is_child p w = none
  wait_loop (suc fuel) timeout start is_child p w =
      let r = check_once is_child p w in
      elim r.verdict [
        | Verdict.finished ↦ some (outcome r.process (ok r.process.exitcode) r.world)
        | Verdict.raised e ↦ some (outcome r.process (err e) r.world)
        | Verdict.not_a_child ↦ wait_loop fuel timeout start false r.process r.world
        | Verdict.still_alive ↦ elim (remaining_time timeout start r.world) [
          | none ↦ wait_loop fuel timeout start is_child r.process (sleep poll_interval r.world)
          | some left ↦
              let again =
                wait_loop fuel timeout start is_child r.process
                  (sleep (min poll_interval left) r.world) in
              if left == 0
              then some (outcome r.process (err (Exn.timeout_expired (pos p.pid))) r.world)
              else again
        ]
      ]

  -- Waiting for an event before the polling: on a file descriptor for the process, or on a kernel
  -- queue. False: the timeout has passed with no event.
  pidfd_watch : Option ℕ → ℕ → Result ℕ × World → Bool × World
  pidfd_watch timeout start (ok fd, w) = os.select fd (remaining_time timeout start w) w
  pidfd_watch timeout start (err _, w) = (true, w)

  kqueue_watch : Result Bool × World → Bool × World
  kqueue_watch (ok event, w) = (event, w)
  kqueue_watch (err _, w) = (true, w)

  watch : Option ℕ → ℕ → Process → World → Bool × World
  unfolding pidfd_watch kqueue_watch
  watch timeout start p w =
      if os.has_pidfd_open && ltb 0 p.pid
      then pidfd_watch timeout start (os.pidfd_open p.pid w)
      else if os.has_kqueue
      then kqueue_watch (os.kqueue_wait p.pid (remaining_time timeout start w) w)
      else (true, w)

  -- From the watch on.
  watch_and_poll : ℕ → Option ℕ → ℕ → Bool → Process → World → Option (Outcome (Option ℤ))
  unfolding watch wait_loop
  watch_and_poll fuel timeout start is_child p w =
      let (event, w') = watch timeout start p w in
      let polling = wait_loop fuel timeout start is_child p w' in
      if event then polling else some (outcome p (err (Exn.timeout_expired (pos p.pid))) w')

  -- After a blocking `waitpid`.
  after_waitpid : ℕ → Process → Result (ℕ × ℕ) × World → Option (Outcome (Option ℤ))
  after_waitpid fuel p (ok (_, status), w) =
      some (outcome (reaped p status) (ok (some (exit_code status))) w)
  after_waitpid fuel p (err Exn.child_process_error, w) = watch_and_poll fuel none 0 false p w
  after_waitpid fuel p (err e, w) = some (outcome p (err e) w)

  -- After the one poll of a zero timeout: all ways out.
  after_poll : Process → Outcome Bool → Outcome (Option ℤ)
  after_poll p o = elim o.result [
    | ok true ↦ outcome o.process (ok o.process.exitcode) o.world
    | ok false ↦ outcome o.process (err (Exn.timeout_expired (pos p.pid))) o.world
    | err Exn.child_process_error ↦
        outcome o.process (err (Exn.timeout_expired (pos p.pid))) o.world
    | err e ↦ outcome o.process (err e) o.world
  ]

  -- Once the process is known to run.
  wait_running : ℕ → Option ℕ → Process → World → Option (Outcome (Option ℤ))
  unfolding after_waitpid after_poll watch_and_poll
  wait_running fuel none p w =
      if ltb 0 p.pid
      then after_waitpid fuel p (waitpid p.pid w)
      else watch_and_poll fuel none 0 (ltb 0 p.pid) p w
  wait_running fuel (some timeout) p w =
      if timeout == 0 && ltb 0 p.pid
      then some (after_poll p (wait_child_poll p w))
      else watch_and_poll fuel (some timeout) (if ltb 0 timeout then monotonic w else 0)
          (ltb 0 p.pid) p w

  -- `wait(timeout=timeout)`; none if the fuel runs out.
  unfoldable pub wait : ℕ → Bool → Option ℕ → Process → World → Option (Outcome (Option ℤ))
  unfolding wait_running check_once wait_loop
  wait fuel zombies timeout p w =
      let (p', answer) = is_running zombies p (create_time p.pid w) in
      elim answer [
        | ok true ↦ wait_running fuel timeout p' w
        | ok false ↦ some (outcome p' (ok p'.exitcode) w)
        | err e ↦ some (outcome p' (err e) w)
      ]
