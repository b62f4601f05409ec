-- ===== src/Process/WaitProcs/Partition.antt =====
-- Every process that `wait_procs` is given ends in one of the two lists, once.
use pypsutil.Prelude.{
  ℕ, ◌+◌, ap, ◌≡◌, refl, ◌∙◌, inl, inr, Bool, true, false, Option, none, some, List, [], ◌∷◌, ◌++◌,
  arith, Bool-cases, any,
}
use pypsutil.Prelude.Int.{ℤ}
use pypsutil.Prelude.Exn.{Exn, Result, ok, err}
use pypsutil.Process.Handle.{Process, is_running, eq}
use pypsutil.Process.Identity.{is_running_keeps}
use pypsutil.Process.Os.{Os}
use pypsutil.Process.Wait.{wait_child_poll, pid_exists}
use pypsutil.Process.Wait.SamePid.{wait_child_poll-pid}
use pypsutil.Process.WaitProcs.{
  Waited, Calls, Look, Lists, after_exists, after_child_poll, after_popen, with_code, look_at,
  sort_out, one_round, add_gone, add_alive, call_back, has_returncode,
}

-- The sum of a number for each PID over a list of processes.
abbrev pub pid_sum : (ℕ → ℕ) → List Waited → ℕ
pid_sum f [] = 0
pid_sum f (p ∷ ps) = f p.process.pid + pid_sum f ps

pub pid_sum-append :
    (f : ℕ → ℕ) (ps qs : List Waited) → pid_sum f (ps ++ qs) ≡ pid_sum f ps + pid_sum f qs
pid_sum-append f [] qs = omega arith
pid_sum-append f (p ∷ ps) qs = omega (arith, pid_sum-append f ps qs)

-- Both lists together hold the PIDs that add up to `n`; an exception holds nothing.
abbrev pub Holds : (ℕ → ℕ) → ℕ → Lists → Type 0
Holds f n (ok (gone, alive)) = pid_sum f gone + pid_sum f alive ≡ n
Holds f n (err ex) = Unit

module _ (os : Os) (calls : Calls os) (f : ℕ → ℕ) where
  open os use {World}

  pub with_code-process :
      (res : Option ℤ) (p : Waited) (q : Process) → (with_code os res p q).process ≡ q
  with_code-process res p q = ground arith

  Holds-gone :
      (n i : ℕ) (p : Waited) (r : Lists × World)
      → p.process.pid ≡ i
      → Holds f n r.0
      → Holds f (f i + n) (add_gone os p r).0
  Holds-gone n i p (ok (gone, left), w) e h = rw (← e) (omega (arith, h))
  Holds-gone n i p (err ex, w) e h = tt

  Holds-alive :
      (n i : ℕ) (p : Waited) (r : Lists × World)
      → p.process.pid ≡ i
      → Holds f n r.0
      → Holds f (f i + n) (add_alive os p r).0
  Holds-alive n i p (ok (gone, left), w) e h = rw (← e) (omega (arith, h))
  Holds-alive n i p (err ex, w) e h = tt

  -- A process that is gone is counted for its PID, with whatever was stored in it.
  Holds-ended :
      (n i : ℕ) (res : Option ℤ) (p : Waited) (q : Process) (r : Lists × World)
      → q.pid ≡ i
      → Holds f n r.0
      → Holds f (f i + n) (add_gone os (with_code os res p q) r).0
  Holds-ended n i res p q r e h =
      Holds-gone n i (with_code os res p q) r
        (ap (λ (x : Process). x.pid) (with_code-process res p q) ∙ e) h

  after_exists-pid :
      (look : Look os) (p : Process) (w : World) (r : Result Bool)
      → (after_exists os look p w r).process.pid ≡ p.pid
  unfolding after_exists
  after_exists-pid look p w (ok true) = refl
  after_exists-pid look p w (ok false) = refl
  after_exists-pid look p w (err ex) = refl

  pub after_popen-pid :
      (p : Process) (r : Result (Option ℤ) × World) → (after_popen os p r).process.pid ≡ p.pid
  unfolding after_popen
  after_popen-pid p (ok none, w) = refl
  after_popen-pid p (ok (some code), w) = refl
  after_popen-pid p (err ex, w) = refl

  after_child_poll-pid :
      (p : Process) (r : Result Bool) (w : World)
      → (after_child_poll os (record { process = p; result = r; world = w })).process.pid ≡ p.pid
  unfolding after_child_poll
  after_child_poll-pid p (ok true) w = refl
  after_child_poll-pid p (ok false) w = refl
  after_child_poll-pid p (err Exn.child_process_error) w =
      after_exists-pid Look.not_a_child p w (pid_exists os p.pid w)
  after_child_poll-pid p (err ex) w = refl

  look_at-pid :
      (nonchild : Bool) (p : Waited) (w : World)
      → (look_at os calls nonchild p w).process.pid ≡ p.process.pid
  unfolding look_at
  look_at-pid nonchild p w = elim (Bool-cases p.is_popen) [
    | inl popen ↦
        simp popen (after_popen-pid p.process (calls.subprocess_wait p.process.pid (some 0) w))
    | inr plain ↦ simp plain (elim (Bool-cases nonchild) [
      | inl e ↦ rw e (after_exists-pid Look.still_alive p.process w (pid_exists os p.process.pid w))
      | inr e ↦
          let o = wait_child_poll os p.process w in
          rw e
            (after_child_poll-pid o.process o.result o.world ∙ wait_child_poll-pid os p.process w)
    ])
  ]

  abbrev RoundHolds : Bool → List Waited → Type 0
  RoundHolds zombies procs =
      (nonchildren : List Process) (w : World)
      → Holds f (pid_sum f procs) (one_round os calls zombies procs nonchildren w).lists

  step-Holds :
      (zombies : Bool) (p : Waited) (procs : List Waited) (nonchildren : List Process) (w : World)
      (v : Look os)
      → (look_at os calls (any (eq zombies p.process) nonchildren) p w).look ≡ v
      → RoundHolds zombies procs
      → Holds f
          (f p.process.pid + pid_sum f procs)
          (one_round os calls zombies (p ∷ procs) nonchildren w).lists
  unfolding one_round
  step-Holds zombies p procs nonchildren w (Look.failed ex) e ih = rw (e, one_round) tt
  step-Holds zombies p procs nonchildren w Look.still_alive e ih =
      let b = any (eq zombies p.process) nonchildren in
      let l = look_at os calls b p w in
      let r = one_round os calls zombies procs nonchildren l.world in
      rw (e, one_round)
        (Holds-alive (pid_sum f procs) p.process.pid (record p { process = l.process })
          (r.lists, r.world) (look_at-pid b p w) (ih nonchildren l.world))
  step-Holds zombies p procs nonchildren w Look.not_a_child e ih =
      let b = any (eq zombies p.process) nonchildren in
      let l = look_at os calls b p w in
      let r = one_round os calls zombies procs (l.process ∷ nonchildren) l.world in
      rw (e, one_round)
        (Holds-alive (pid_sum f procs) p.process.pid (record p { process = l.process })
          (r.lists, r.world) (look_at-pid b p w) (ih (l.process ∷ nonchildren) l.world))
  step-Holds zombies p procs nonchildren w (Look.dead res) e ih =
      let b = any (eq zombies p.process) nonchildren in
      let l = look_at os calls b p w in
      let w' = call_back os calls (with_code os res p l.process) l.world in
      let r = one_round os calls zombies procs nonchildren w' in
      rw (e, one_round)
        (Holds-ended (pid_sum f procs) p.process.pid res p l.process (r.lists, r.world)
          (look_at-pid b p w) (ih nonchildren w'))

  pub one_round-Holds : (zombies : Bool) (procs : List Waited) → RoundHolds zombies procs
  unfolding one_round
  one_round-Holds zombies [] nonchildren w = refl
  one_round-Holds zombies (p ∷ procs) nonchildren w =
      step-Holds zombies p procs nonchildren w _ refl (one_round-Holds zombies procs)

  sort_step-Holds :
      (zombies : Bool) (p : Waited) (procs : List Waited) (w : World) (r : Result Bool)
      → (is_running zombies p.process (os.create_time p.process.pid w)).1 ≡ r
      → ((v : World) → Holds f (pid_sum f procs) (sort_out os calls zombies procs v).0)
      → Holds f (f p.process.pid + pid_sum f procs) (sort_out os calls zombies (p ∷ procs) w).0
  unfolding sort_out
  sort_step-Holds zombies p procs w (ok true) e ih =
      let q = (is_running zombies p.process (os.create_time p.process.pid w)).0 in
      let same = (is_running_keeps zombies p.process (os.create_time p.process.pid w)).0 in
      rw (e, sort_out)
        (Holds-alive (pid_sum f procs) p.process.pid (record p { process = q })
          (sort_out os calls zombies procs w) same (ih w))
  sort_step-Holds zombies p procs w (ok false) e ih =
      let q = (is_running zombies p.process (os.create_time p.process.pid w)).0 in
      let same = (is_running_keeps zombies p.process (os.create_time p.process.pid w)).0 in
      elim (Bool-cases (has_returncode p)) [
        | inl has ↦
            let w' = call_back os calls (record p { process = q }) w in
            simp (has, e, sort_out)
              (Holds-gone (pid_sum f procs) p.process.pid (record p { process = q })
                (sort_out os calls zombies procs w') same (ih w'))
        | inr lacks ↦
            let w' = call_back os calls (with_code os q.exitcode p q) w in
            simp (lacks, e, sort_out)
              (Holds-ended (pid_sum f procs) p.process.pid q.exitcode p q
                (sort_out os calls zombies procs w') same (ih w'))
      ]
  sort_step-Holds zombies p procs w (err ex) e ih = rw (e, sort_out) tt

  pub sort_out-Holds :
      (zombies : Bool) (procs : List Waited) (w : World)
      → Holds f (pid_sum f procs) (sort_out os calls zombies procs w).0
  unfolding sort_out
  sort_out-Holds zombies [] w = refl
  sort_out-Holds zombies (p ∷ procs) w =
      sort_step-Holds zombies p procs w _ refl (sort_out-Holds zombies procs)
