-- ===== src/Process/WaitProcs.antt =====
-- `wait_procs` of pypsutil/_process.py, with `Popen.wait`. The handles are taken to be pairwise
-- distinct, so that `alive.remove(proc)` takes out `proc` itself. What `subprocess.Popen` answers and
-- what the callback does to the world are arguments, and it raises no exception; the locks are left out:
-- one thread.
pub mod Partition
pub mod Held
pub mod Forward
pub mod Total
use pypsutil.Prelude.{
  ℕ, zero, suc, ◌-◌, min, ◌≡◌, Bool, true, false, Option, none, some, List, [], ◌∷◌, ◌++◌, ◌==◌,
  ltb, if◌then◌else◌, any,
}
use pypsutil.Prelude.Int.{ℤ, pos}
use pypsutil.Prelude.Exn.{Exn, Result, ok, err}
use pypsutil.Process.Handle.{Process, is_running, eq}
use pypsutil.Process.Os.{Os}
use pypsutil.Process.Wait.{
  Outcome, pid_exists, poll_interval, remaining_time, wait, wait_child_poll,
}

-- An object of the list: its process part, whether it is a `Popen`, and its attribute `returncode`,
-- if it has one. A `Popen` always has one.
pub record Waited : Type 0 where
  pub process : Process
  pub is_popen : Bool
  pub returncode : Option (Option ℤ)

abbrev has_returncode : Waited → Bool
has_returncode p = if p.is_popen then true else elim p.returncode [ none ↦ false | some _ ↦ true ]

-- `(gone, alive)`, or an exception.
abbrev pub Lists : Type 0
Lists = Result (List Waited × List Waited)

module _ (os : Os) where
  open os use {World, create_time, monotonic, sleep}

  -- `callback`, and `self._proc.wait(timeout)` of a `Popen`: none is `subprocess.TimeoutExpired`.
  pub record Calls : Type 0 where
    pub callback : Option (Waited → World → World)
    pub subprocess_wait : ℕ → Option ℕ → World → Result (Option ℤ) × World

  -- What one look at a process finds.
  pub data Look : Type 0 where
    still_alive not_a_child : Look
    dead : Option ℤ → Look
    failed : Exn → Look

  pub record Poll : Type 0 where
    pub process : Process
    pub look : Look
    pub world : World

  abbrev poll : Process → Look → World → Poll
  poll p look w = record { process = p; look = look; world = w }

  abbrev killed : Process → Process
  killed p = record p { dead = true }

  -- `if not pid_exists(proc.pid): proc._dead = dead = True; res = proc._exitcode`, and what `look` is
  -- where the process exists.
  after_exists : Look → Process → World → Result Bool → Poll
  after_exists look p w (ok true) = poll p look w
  after_exists look p w (ok false) = poll (killed p) (Look.dead p.exitcode) w
  after_exists look p w (err ex) = poll p (Look.failed ex) w

  -- The branch with `_wait_child_poll`.
  after_child_poll : Outcome os Bool → Poll
  unfolding after_exists
  after_child_poll o = elim o.result [
    | ok true ↦ poll o.process (Look.dead o.process.exitcode) o.world
    | ok false ↦ poll o.process Look.still_alive o.world
    | err Exn.child_process_error ↦
        after_exists Look.not_a_child o.process o.world (pid_exists os o.process.pid o.world)
    | err ex ↦ poll o.process (Look.failed ex) o.world
  ]

  -- `Popen.wait`: a code, none for `TimeoutExpired`, or another exception.
  pub after_popen : Process → Result (Option ℤ) × World → Poll
  after_popen p (ok none, w) = poll p Look.still_alive w
  after_popen p (ok (some code), w) = poll (killed p) (Look.dead (some code)) w
  after_popen p (err ex, w) = poll p (Look.failed ex) w

  -- The object when it is counted as gone: `returncode` is set if it is no `Popen`.
  abbrev with_code : Option ℤ → Waited → Process → Waited
  with_code res p process =
      if p.is_popen
      then record p { process = process }
      else record p { process = process; returncode = some res }

  abbrev add_gone : Waited → Lists × World → Lists × World
  add_gone p (ok (gone, alive), w) = (ok (p ∷ gone, alive), w)
  add_gone p (err ex, w) = (err ex, w)

  abbrev add_alive : Waited → Lists × World → Lists × World
  add_alive p (ok (gone, alive), w) = (ok (gone, p ∷ alive), w)
  add_alive p (err ex, w) = (err ex, w)

  module _ (calls : Calls) where
    abbrev call_back : Waited → World → World
    call_back p w = elim calls.callback [ none ↦ w | some f ↦ f p w ]

    -- One look at a process in the `for` loop, by the kind of the object.
    pub look_at : Bool → Waited → World → Poll
    unfolding after_exists after_child_poll after_popen
    look_at nonchild p w =
        if p.is_popen
        then after_popen p.process (calls.subprocess_wait p.process.pid (some 0) w)
        else if nonchild
        then after_exists Look.still_alive p.process w (pid_exists os p.process.pid w)
        else after_child_poll (wait_child_poll os p.process w)

    -- The loop in front: what does not run is gone from the start.
    pub sort_out : Bool → List Waited → World → Lists × World
    sort_out zombies [] w = (ok ([], []), w)
    sort_out zombies (p ∷ procs) w =
        let (process, answer) = is_running zombies p.process (create_time p.process.pid w) in
        let running = record p { process = process } in
        let ended = if has_returncode p then running else with_code process.exitcode p process in
        elim answer [
          | err ex ↦ (err ex, w)
          | ok true ↦ add_alive running (sort_out zombies procs w)
          | ok false ↦ add_gone ended (sort_out zombies procs (call_back ended w))
        ]

    -- What a round leaves: the processes newly gone and those alive, `nonchildren`, the world.
    pub record Round : Type 0 where
      pub lists : Lists
      pub nonchildren : List Process
      pub world : World

    abbrev round : Lists × World → List Process → Round
    round (lists, w) nonchildren = record { lists = lists; nonchildren = nonchildren; world = w }

    abbrev also_gone : Waited → Round → Round
    also_gone p r = round (add_gone p (r.lists, r.world)) r.nonchildren

    abbrev also_alive : Waited → Round → Round
    also_alive p r = round (add_alive p (r.lists, r.world)) r.nonchildren

    -- `for proc in list(alive)`
    pub one_round : Bool → List Waited → List Process → World → Round
    unfolding look_at
    one_round zombies [] nonchildren w = round (ok ([], []), w) nonchildren
    one_round zombies (p ∷ procs) nonchildren w =
        let l = look_at (any (eq zombies p.process) nonchildren) p w in
        let here = record p { process = l.process } in
        elim l.look [
          | Look.failed ex ↦ round (err ex, l.world) nonchildren
          | Look.still_alive ↦ also_alive here (one_round zombies procs nonchildren l.world)
          | Look.not_a_child ↦
              also_alive here (one_round zombies procs (l.process ∷ nonchildren) l.world)
          | Look.dead res ↦
              let ended = with_code res p l.process in
              also_gone ended (one_round zombies procs nonchildren (call_back ended l.world))
        ]

    -- `proc.wait(timeout=timeout)` for the last one: the result of `Process.wait` or `Popen.wait`.
    after_wait : Process → Result (Option ℤ) → World → Poll
    after_wait p (ok res) w = poll p (Look.dead res) w
    after_wait p (err (Exn.timeout_expired _)) w = poll p Look.still_alive w
    after_wait p (err ex) w = poll p (Look.failed ex) w

    wait_last : ℕ → Bool → Option ℕ → Waited → World → Option Poll
    unfolding after_wait after_popen
    wait_last fuel zombies timeout p w =
        if p.is_popen
        then some (after_popen p.process (calls.subprocess_wait p.process.pid timeout w))
        else elim (wait os fuel zombies timeout p.process w) [
          | none ↦ none
          | some o ↦ some (after_wait o.process o.result o.world)
        ]

    -- The return in the branch with one process left.
    last_lists : Waited → List Waited → Poll → Lists × World
    last_lists p gone l = elim l.look [
      | Look.failed ex ↦ (err ex, l.world)
      | Look.dead res ↦
          let ended = with_code res p l.process in
          (ok (gone ++ (ended ∷ []), []), call_back ended l.world)
      | _ ↦ (ok (gone, record p { process = l.process } ∷ []), l.world)
    ]

    -- The loop `while True`, on fuel.
    procs_loop :
        ℕ
        → Bool
        → Option ℕ
        → ℕ
        → List Waited
        → List Waited
        → List Process
        → World
        → Option (Lists × World)
    unfolding one_round wait_last last_lists
    procs_loop zero zombies timeout start gone alive nonchildren w = none
    procs_loop (suc fuel) zombies timeout start gone (p ∷ []) nonchildren w =
        elim (wait_last fuel zombies timeout p w) [
          | none ↦ none
          | some l ↦ some (last_lists p gone l)
        ]
    procs_loop (suc fuel) zombies timeout start gone alive nonchildren w =
        let r = one_round zombies alive nonchildren w in
        elim r.lists [
          | err ex ↦ some (err ex, r.world)
          | ok (ended, []) ↦ some (ok (gone ++ ended, []), r.world)
          | ok (ended, q ∷ rest) ↦ elim (remaining_time os timeout start r.world) [
            | none ↦
                procs_loop fuel zombies timeout start (gone ++ ended) (q ∷ rest) r.nonchildren
                  (sleep poll_interval r.world)
            | some left ↦
                let again =
                  procs_loop fuel zombies timeout start (gone ++ ended) (q ∷ rest) r.nonchildren
                    (sleep (min poll_interval left) r.world) in
                if left == 0 then some (ok (gone ++ ended, q ∷ rest), r.world) else again
          ]
        ]

    -- After the loop in front.
    after_sort : ℕ → Bool → Option ℕ → ℕ → Lists × World → Option (Lists × World)
    unfolding procs_loop
    after_sort fuel zombies timeout start (err ex, w) = some (err ex, w)
    after_sort fuel zombies timeout start (ok (gone, []), w) = some (ok (gone, []), w)
    after_sort fuel zombies timeout start (ok (gone, p ∷ alive), w) =
        procs_loop fuel zombies timeout start gone (p ∷ alive) [] w

    -- `wait_procs(procs, timeout, callback)`; none if the fuel runs out.
    unfoldable pub wait_procs : ℕ → Bool → Option ℕ → List Waited → World → Option (Lists × World)
    unfolding sort_out after_sort
    wait_procs fuel zombies timeout procs w =
        let start : ℕ = elim timeout [ none ↦ 0 | some t ↦ if ltb 0 t then monotonic w else 0 ] in
        after_sort fuel zombies timeout start (sort_out zombies procs w)
