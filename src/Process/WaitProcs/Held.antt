-- ===== src/Process/WaitProcs/Held.antt =====
-- The lists that `wait_procs` returns hold every process that it was given.
use pypsutil.Prelude.{
  ℕ, zero, suc, ◌+◌, ◌-◌, min, ltb, ap, ◌≡◌, refl, ◌∙◌, inl, inr, Bool, Option, none, some, List,
  [], ◌∷◌, ◌++◌, arith, ◌==◌, if◌then◌else◌, Bool-cases,
}
use pypsutil.Prelude.Int.{ℤ}
use pypsutil.Prelude.Exn.{Exn, Result, ok, err}
use pypsutil.Process.Handle.{Process}
use pypsutil.Process.Os.{Os}
use pypsutil.Process.Wait.{Outcome, poll_interval}
use pypsutil.Process.Wait.SamePid.{Keeps, wait-Keeps}
use pypsutil.Process.WaitProcs.{
  Waited, Calls, Look, Poll, Lists, with_code, sort_out, one_round, after_wait, wait_last,
  last_lists, procs_loop, after_sort, wait_procs,
}
use pypsutil.Process.WaitProcs.Partition.{
  pid_sum, pid_sum-append, Holds, with_code-process, after_popen-pid, one_round-Holds,
  sort_out-Holds,
}

module _ (os : Os) (calls : Calls os) (f : ℕ → ℕ) where
  open os use {World}

  -- What comes back, if something does, holds every process.
  abbrev pub AllHeld : ℕ → Option (Lists × World) → Type 0
  AllHeld n none = Unit
  AllHeld n (some r) = Holds f n r.0

  after_wait-pid :
      (p : Process) (r : Result (Option ℤ)) (w : World)
      → (after_wait os calls p r w).process.pid ≡ p.pid
  unfolding after_wait
  after_wait-pid p (ok res) w = refl
  after_wait-pid p (err (Exn.timeout_expired _)) w = refl
  after_wait-pid p (err ex) w = refl

  -- The last look is at the same process.
  abbrev LastKeeps : ℕ → Option (Poll os) → Type 0
  LastKeeps pid none = Unit
  LastKeeps pid (some l) = l.process.pid ≡ pid

  waited-LastKeeps :
      (pid : ℕ) (r : Option (Outcome os (Option ℤ)))
      → Keeps os pid r
      → LastKeeps pid
          (elim r [ none ↦ none | some o ↦ some (after_wait os calls o.process o.result o.world) ])
  waited-LastKeeps pid none k = tt
  waited-LastKeeps pid (some o) k = after_wait-pid o.process o.result o.world ∙ k

  wait_last-LastKeeps :
      (fuel : ℕ) (zombies : Bool) (timeout : Option ℕ) (p : Waited) (w : World)
      → LastKeeps p.process.pid (wait_last os calls fuel zombies timeout p w)
  unfolding wait_last
  wait_last-LastKeeps fuel zombies timeout p w = elim (Bool-cases p.is_popen) [
    | inl popen ↦
        simp popen
          (after_popen-pid os calls f p.process (calls.subprocess_wait p.process.pid timeout w))
    | inr plain ↦
        simp plain
          (waited-LastKeeps p.process.pid _ (wait-Keeps os fuel zombies timeout p.process w))
  ]

  last_look-Holds :
      (p : Waited) (gone : List Waited) (q : Process) (look : Look os) (w : World)
      → q.pid ≡ p.process.pid
      → Holds f
          (pid_sum f gone + f p.process.pid)
          (last_lists os calls p gone (record { process = q; look = look; world = w })).0
  unfolding last_lists
  last_look-Holds p gone q (Look.failed ex) w e = tt
  last_look-Holds p gone q (Look.dead res) w e =
      let ended = with_code os res p q in
      let same : ended.process.pid ≡ p.process.pid =
        ap (λ (x : Process). x.pid) (with_code-process os calls f res p q) ∙ e in
      omega (arith, pid_sum-append f gone (ended ∷ []), ap f same)
  last_look-Holds p gone q Look.still_alive w e = omega (arith, ap f e)
  last_look-Holds p gone q Look.not_a_child w e = omega (arith, ap f e)

  last-AllHeld :
      (p : Waited) (gone : List Waited) (r : Option (Poll os))
      → LastKeeps p.process.pid r
      → AllHeld
          (pid_sum f gone + f p.process.pid)
          (elim r [ none ↦ none | some l ↦ some (last_lists os calls p gone l) ])
  last-AllHeld p gone none k = tt
  last-AllHeld p gone (some l) k = last_look-Holds p gone l.process l.look l.world k

  abbrev LoopHolds : ℕ → Bool → Option ℕ → ℕ → Type 0
  LoopHolds fuel zombies timeout start =
      (gone left : List Waited) (nonchildren : List Process) (w : World)
      → AllHeld (pid_sum f gone + pid_sum f left)
          (procs_loop os calls fuel zombies timeout start gone left nonchildren w)

  AllHeld-cong : {m n : ℕ} (r : Option (Lists × World)) → m ≡ n → AllHeld m r → AllHeld n r
  AllHeld-cong r e h = rw (← e) h

  -- After a round with two processes or more.
  next-AllHeld :
      (fuel : ℕ) (zombies : Bool) (timeout : Option ℕ) (start : ℕ) (gone : List Waited)
      (p q : Waited) (rest : List Waited) (nonchildren : List Process) (w : World) (lists : Lists)
      → (one_round os calls zombies (p ∷ q ∷ rest) nonchildren w).lists ≡ lists
      → Holds f (pid_sum f (p ∷ q ∷ rest)) lists
      → LoopHolds fuel zombies timeout start
      → AllHeld
          (pid_sum f gone + pid_sum f (p ∷ q ∷ rest))
          (procs_loop os calls (suc fuel) zombies timeout start gone (p ∷ q ∷ rest) nonchildren w)
  unfolding procs_loop
  next-AllHeld fuel zombies timeout start gone p q rest nonchildren w (err ex) e h ih =
      rw (e, procs_loop) tt
  next-AllHeld fuel zombies timeout start gone p q rest nonchildren w (ok (ended, [])) e h ih =
      rw (e, procs_loop) (omega (arith, h, pid_sum-append f gone ended))
  next-AllHeld fuel zombies none start gone p q rest nonchildren w (ok (ended, a ∷ left)) e h ih =
      let r = one_round os calls zombies (p ∷ q ∷ rest) nonchildren w in
      rw (e, procs_loop)
        (AllHeld-cong _ (omega (arith, h, pid_sum-append f gone ended))
          (ih (gone ++ ended) (a ∷ left) r.nonchildren (os.sleep poll_interval r.world)))
  next-AllHeld fuel zombies (some t) start gone p q rest nonchildren w (ok (ended, a ∷ left)) e h
        ih =
      let r = one_round os calls zombies (p ∷ q ∷ rest) nonchildren w in
      let time = if ltb 0 t then start + t - os.monotonic r.world else 0 in
      elim (Bool-cases (time == 0)) [
        | inl over ↦ rw (e, over, procs_loop) (omega (arith, h, pid_sum-append f gone ended))
        | inr more ↦
            rw (e, more, procs_loop)
              (AllHeld-cong _ (omega (arith, h, pid_sum-append f gone ended)) (
                ih (gone ++ ended) (a ∷ left) r.nonchildren
                  (os.sleep (min poll_interval time) r.world)))
      ]

  procs_loop-AllHeld :
      (fuel : ℕ) (zombies : Bool) (timeout : Option ℕ) (start : ℕ)
      → LoopHolds fuel zombies timeout start
  unfolding procs_loop one_round
  procs_loop-AllHeld zero zombies timeout start gone left nonchildren w = tt
  procs_loop-AllHeld (suc fuel) zombies timeout start gone [] nonchildren w =
      omega (arith, pid_sum-append f gone [])
  procs_loop-AllHeld (suc fuel) zombies timeout start gone (p ∷ []) nonchildren w =
      AllHeld-cong _ (omega arith)
        (last-AllHeld p gone _ (wait_last-LastKeeps fuel zombies timeout p w))
  procs_loop-AllHeld (suc fuel) zombies timeout start gone (p ∷ q ∷ rest) nonchildren w =
      next-AllHeld fuel zombies timeout start gone p q rest nonchildren w _ refl
        (one_round-Holds os calls f zombies (p ∷ q ∷ rest) nonchildren w)
        (procs_loop-AllHeld fuel zombies timeout start)

  after_sort-AllHeld :
      (n fuel : ℕ) (zombies : Bool) (timeout : Option ℕ) (start : ℕ) (r : Lists × World)
      → Holds f n r.0
      → AllHeld n (after_sort os calls fuel zombies timeout start r)
  unfolding after_sort
  after_sort-AllHeld n fuel zombies timeout start (err ex, w) h = tt
  after_sort-AllHeld n fuel zombies timeout start (ok (gone, []), w) h = h
  after_sort-AllHeld n fuel zombies timeout start (ok (gone, p ∷ left), w) h =
      AllHeld-cong _ h (procs_loop-AllHeld fuel zombies timeout start gone (p ∷ left) [] w)

  pub wait_procs-AllHeld :
      (fuel : ℕ) (zombies : Bool) (timeout : Option ℕ) (procs : List Waited) (w : World)
      → AllHeld (pid_sum f procs) (wait_procs os calls fuel zombies timeout procs w)
  unfolding wait_procs
  wait_procs-AllHeld fuel zombies timeout procs w =
      after_sort-AllHeld (pid_sum f procs) fuel zombies timeout _
        (sort_out os calls zombies procs w) (sort_out-Holds os calls f zombies procs w)
