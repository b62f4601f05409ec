-- ===== src/Process/WaitProcs/Forward.antt =====
-- No part of a round of `wait_procs` turns the clock back.
use pypsutil.Prelude.{
  ℕ, ◌≤◌, ◌≡◌, refl, inl, inr, Bool, true, false, Option, none, some, List, [], ◌∷◌, arith,
  Bool-cases, Option-cases, any,
}
use pypsutil.Prelude.Int.{ℤ}
use pypsutil.Prelude.Exn.{Exn, Result, ok, err}
use pypsutil.Process.Handle.{Process, eq}
use pypsutil.Process.Os.{Os}
use pypsutil.Process.Wait.{wait_child_poll, pid_exists}
use pypsutil.Process.Wait.Total.{IsClock, wait_child_poll_forward}
use pypsutil.Process.WaitProcs.{
  Waited, Calls, Look, Lists, after_exists, after_child_poll, after_popen, with_code, look_at,
  one_round, add_gone, add_alive, call_back,
}

-- Neither the callback nor a `Popen` turns the clock back.
pub record IsForward (os : Os) (calls : Calls os) : Type 0 where
  pub callback_forward :
      (f : Waited → os.World → os.World)
      → calls.callback ≡ some f
      → (p : Waited) (w : os.World) → os.monotonic w ≤ os.monotonic (f p w)
  pub subprocess_forward :
      (pid : ℕ) (t : Option ℕ) (w : os.World)
      → os.monotonic w ≤ os.monotonic (calls.subprocess_wait pid t w).1

module _ (os : Os) (clock : IsClock os) (calls : Calls os) (forward : IsForward os calls) where
  open os use {World, monotonic}

  pub call_back_forward :
      (p : Waited) (w : World) → monotonic w ≤ monotonic (call_back os calls p w)
  call_back_forward p w = elim (Option-cases calls.callback) [
    | inl absent ↦ rw absent (omega arith)
    | inr (f, there) ↦ rw there (forward.callback_forward f there p w)
  ]

  after_exists-world :
      (look : Look os) (p : Process) (w : World) (r : Result Bool)
      → (after_exists os look p w r).world ≡ w
  unfolding after_exists
  after_exists-world look p w (ok true) = refl
  after_exists-world look p w (ok false) = refl
  after_exists-world look p w (err ex) = refl

  pub after_popen-world :
      (p : Process) (r : Result (Option ℤ) × World) → (after_popen os p r).world ≡ r.1
  unfolding after_popen
  after_popen-world p (ok none, w) = refl
  after_popen-world p (ok (some code), w) = refl
  after_popen-world p (err ex, w) = refl

  after_child_poll-world :
      (p : Process) (r : Result Bool) (w : World)
      → (after_child_poll os (record { process = p; result = r; world = w })).world ≡ w
  unfolding after_child_poll
  after_child_poll-world p (ok true) w = refl
  after_child_poll-world p (ok false) w = refl
  after_child_poll-world p (err Exn.child_process_error) w =
      after_exists-world Look.not_a_child p w (pid_exists os p.pid w)
  after_child_poll-world p (err ex) w = refl

  look_at_forward :
      (nonchild : Bool) (p : Waited) (w : World)
      → monotonic w ≤ monotonic (look_at os calls nonchild p w).world
  unfolding look_at
  look_at_forward nonchild p w = elim (Bool-cases p.is_popen) [
    | inl popen ↦ simp popen (
        rw (after_popen-world p.process (calls.subprocess_wait p.process.pid (some 0) w))
          (forward.subprocess_forward p.process.pid (some 0) w))
    | inr plain ↦ simp plain (elim (Bool-cases nonchild) [
      | inl e ↦
          rw (e, after_exists-world Look.still_alive p.process w (pid_exists os p.process.pid w))
            (omega arith)
      | inr e ↦
          let o = wait_child_poll os p.process w in
          rw (e, after_child_poll-world o.process o.result o.world)
            (wait_child_poll_forward os clock p.process w)
    ])
  ]

  pub add_gone-world : (p : Waited) (r : Lists × World) → (add_gone os p r).1 ≡ r.1
  add_gone-world p (ok (gone, left), w) = refl
  add_gone-world p (err ex, w) = refl

  pub add_alive-world : (p : Waited) (r : Lists × World) → (add_alive os p r).1 ≡ r.1
  add_alive-world p (ok (gone, left), w) = refl
  add_alive-world p (err ex, w) = refl

  abbrev GoesOn : Bool → List Waited → Type 0
  GoesOn zombies procs =
      (nonchildren : List Process) (w : World)
      → monotonic w ≤ monotonic (one_round os calls zombies procs nonchildren w).world

  step_forward :
      (zombies : Bool) (p : Waited) (procs : List Waited) (nonchildren : List Process) (w : World)
      (v : Look os)
      → (look_at os calls (any (eq zombies p.process) nonchildren) p w).look ≡ v
      → GoesOn zombies procs
      → monotonic w ≤ monotonic (one_round os calls zombies (p ∷ procs) nonchildren w).world
  unfolding one_round
  step_forward zombies p procs nonchildren w (Look.failed ex) e ih =
      rw (e, one_round) (look_at_forward (any (eq zombies p.process) nonchildren) p w)
  step_forward zombies p procs nonchildren w Look.still_alive e ih =
      let b = any (eq zombies p.process) nonchildren in
      let l = look_at os calls b p w in
      let r = one_round os calls zombies procs nonchildren l.world in
      rw (e, one_round)
        (rw (add_alive-world (record p { process = l.process }) (r.lists, r.world))
          (omega (arith, look_at_forward b p w, ih nonchildren l.world)))
  step_forward zombies p procs nonchildren w Look.not_a_child e ih =
      let b = any (eq zombies p.process) nonchildren in
      let l = look_at os calls b p w in
      let r = one_round os calls zombies procs (l.process ∷ nonchildren) l.world in
      rw (e, one_round)
        (rw (add_alive-world (record p { process = l.process }) (r.lists, r.world))
          (omega (arith, look_at_forward b p w, ih (l.process ∷ nonchildren) l.world)))
  step_forward zombies p procs nonchildren w (Look.dead res) e ih =
      let b = any (eq zombies p.process) nonchildren in
      let l = look_at os calls b p w in
      let ended = with_code os res p l.process in
      let w' = call_back os calls ended l.world in
      let r = one_round os calls zombies procs nonchildren w' in
      rw (e, one_round)
        (rw (add_gone-world ended (r.lists, r.world)) (
          omega (arith, look_at_forward b p w, call_back_forward ended l.world, ih nonchildren w')))

  pub one_round_forward : (zombies : Bool) (procs : List Waited) → GoesOn zombies procs
  unfolding one_round
  one_round_forward zombies [] nonchildren w = omega arith
  one_round_forward zombies (p ∷ procs) nonchildren w =
      step_forward zombies p procs nonchildren w _ refl (one_round_forward zombies procs)
