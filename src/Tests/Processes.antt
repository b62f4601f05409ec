-- ===== src/Tests/Processes.antt =====
-- The theorems on pypsutil/_process.py, at concrete inputs.
use mathlib.Core.Bool.{false≢true}
use mathlib.Core.Option.{none-ne-some}
use native.Mathlib.Nat.{le_trans}
use pypsutil.Prelude.{
  ◌<◌, ◌==◌, Bool-cases, inl, inr, ℕ, suc, ap, sym, some-inj, ◌+◌, ◌≤◌, ◌≡◌, ◌≢◌, refl, ◌↔◌, true,
  false, Option, none, some, List, [], ◌∷◌, arith, All, contains, if◌then◌else◌, ltb, nat_eq,
}
use pypsutil.Prelude.Int.{ℤ, pos}
use pypsutil.Prelude.Exn.{Exn, Result, ok, err, ok-inj}
use pypsutil.Prelude.Dict.{Dict, lookup}
use pypsutil.Process.Handle.{Process, is_running, create}
use pypsutil.Process.Identity.{Kernel, is_running_iff, is_running-DeadIsRight}
use pypsutil.Process.Iter.{
  Cache, process_iter, handles, kept, listed, process_iter-handles, process_iter-cache,
}
use pypsutil.Process.Os.{Os}
use pypsutil.Process.Wait.{Outcome, wait, poll_interval}
use pypsutil.Process.Wait.Total.{IsClock, wait_total}
use pypsutil.Process.Wait.Ends.{Ends}
use pypsutil.Process.WaitProcs.{Waited, Calls, Lists, wait_procs}
use pypsutil.Process.WaitProcs.Forward.{IsForward}
use pypsutil.Process.WaitProcs.Partition.{Holds, pid_sum}
use pypsutil.Process.WaitProcs.Total.{wait_procs_total}
use pypsutil.Process.Parents.{parents_loop, ChainOrError, parents_loop-ChainOrError}
use pypsutil.Process.Children.{descendants}
use pypsutil.Process.Children.Rows.{Rows, readable, parents, pids, Matches}
use pypsutil.Process.Children.Below.{descendants-Descends}
use pypsutil.Process.Children.Pids.{Descends}

-- A system in which PID 7 goes from start time 1 to 2 at time 5.
abbrev start_at : ℕ → ℕ
start_at w = if ltb w 5 then 1 else 2

reused :
    (u v w time : ℕ)
    → ◌≡◌ {A = Result ℕ} (ok (start_at u)) (ok time)
    → u ≤ v
    → v ≤ w
    → start_at v ≢ time
    → ◌≢◌ {A = Result ℕ} (ok (start_at w)) (ok time)
reused u v w time origin since later gone back = ground arith

abbrev reuse : Kernel
reuse = record {
  World = ℕ;
  create_time = λ w pid. ok (start_at w);
  Later = λ v w. v ≤ w;
  later_trans = λ u v w p q. le_trans p q;
  stays_gone = λ u v w pid time origin since later gone. reused u v w time origin since later gone;
}

abbrev first : Process
first = create 7 1

-- Asked at time 9, the handle of the first process does not take the second one for it.
is_running_iff_example : (false ≡ true) ↔ (◌≡◌ {A = Result ℕ} (ok (start_at 9)) (ok 1))
unfolding is_running
is_running_iff_example =
    is_running_iff reuse 0 0 9 first refl (omega arith) (omega arith) (λ e. absurd (false≢true e))
      refl

is_running-DeadIsRight_example : ◌≢◌ {A = Result ℕ} (ok (start_at 11)) (ok 1)
unfolding is_running
is_running-DeadIsRight_example =
    is_running-DeadIsRight reuse 0 0 9 first refl (omega arith) (omega arith)
      (λ e. absurd (false≢true e)) refl 11 (omega arith)

abbrev known : Cache
known = (7, record (create 7 1) { dead = true }) ∷ (8, create 8 3) ∷ []

abbrev now : Dict ℕ ℕ
now = (5, 9) ∷ (7, 1) ∷ []

process_iter-handles_example : (process_iter now none known).0 ≡ handles known now
process_iter-handles_example = process_iter-handles now none known (refl, (refl, tt))

process_iter-cache_example :
    (lookup 8 (process_iter now none known).2 ≡ kept (lookup 8 now) 8 (lookup 8 known))
    × (lookup 8 (process_iter now (some Exn.permission_error) known).2
        ≡ listed (lookup 8 now) 8 (lookup 8 known))
process_iter-cache_example = process_iter-cache 8 now Exn.permission_error known (refl, (refl, tt))

-- 2 and 3 are children of 1, 4 is a child of 3, 9 is not below 1.
abbrev rows : Rows
rows =
    (4, record { ppid = 3; ctime = 40 })
    ∷ (2, record { ppid = 1; ctime = 20 })
    ∷ (3, record { ppid = 1; ctime = 30 })
    ∷ (9, record { ppid = 0; ctime = 90 })
    ∷ []

descendants-Descends_example :
    (cs : List Process) × (cache' : Cache) × (descendants true (λ _. readable rows) 5 1 []
      ≡ some (ok cs, cache'))
    × All (Matches rows) cs
    × ((x : ℕ) → (contains x (pids cs) ≡ true) ↔ Descends (parents rows) 1 x)
descendants-Descends_example =
    descendants-Descends rows 5 1 [] (refl, (refl, (refl, (refl, tt))))
      (λ pid p e. absurd (none-ne-some p e)) (omega arith)

-- A world is the time in nanoseconds. The process is no child of this one and ends at 25 ms.
abbrev stranger : Os
stranger = record {
  World = ℕ;
  create_time = λ pid w. ok 1;
  kill_zero = λ pid w. if ltb w 25_000_000 then ok tt else err Exn.process_lookup_error;
  waitpid_nohang = λ pid w. (err Exn.child_process_error, w);
  waitpid = λ pid w. (err Exn.child_process_error, w);
  if_signaled = λ s. false;
  term_sig = λ s. 0;
  exit_status = λ s. s;
  monotonic = λ w. w;
  sleep = λ d w. w + d;
  has_pidfd_open = false;
  pidfd_open = λ pid w. (err Exn.runtime_error, w);
  select = λ fd t w. (true, w);
  has_kqueue = false;
  kqueue_wait = λ pid t w. (ok true, w);
}

stranger-IsClock : IsClock stranger
stranger-IsClock = record {
  sleep_lasts = λ d w. omega arith;
  waitpid_forward = λ pid w. omega arith;
  pidfd_forward = λ pid w. omega arith;
  select_forward = λ fd t w. omega arith;
  kqueue_forward = λ pid t w. omega arith;
}

wait_total_example :
    (o : Outcome stranger (Option ℤ)) × (wait stranger 12 true (some 100_000_000) first 0 ≡ some o)
wait_total_example = wait_total stranger stranger-IsClock 12 100_000_000 true first 0 (omega arith)

-- A timeout of 12 ms is over before the process ends.
abbrev gave_up : Outcome stranger (Option ℤ)
gave_up = record { process = first; result = err (Exn.timeout_expired (pos 7)); world = 12_000_000 }

-- Two strangers, with a callback that takes a nanosecond.
abbrev waited : ℕ → Waited
waited pid = record { process = create pid 1; is_popen = false; returncode = none }

abbrev calls : Calls stranger
calls = record { callback = some (λ p w. suc w); subprocess_wait = λ pid t w. (ok none, w) }

later_by_one :
    (f : Waited → ℕ → ℕ)
    → ◌≡◌ {A = Waited → ℕ → ℕ} (λ p w. suc w) f
    → (p : Waited) (w : ℕ) → w ≤ f p w
later_by_one f e p w = rw (sym (ap (λ g. g p w) e)) (omega arith)

calls-IsForward : IsForward stranger calls
calls-IsForward = record {
  callback_forward = λ f e p w. later_by_one f (some-inj e) p w;
  subprocess_forward = λ pid t w. omega arith;
}

wait_procs_total_example :
    (r : Lists × ℕ) × (wait_procs stranger calls 21 true
        (some 50_000_000)
        (waited 7 ∷ waited 8 ∷ [])
        0
      ≡ some r)
    × ((f : ℕ → ℕ) → Holds f (pid_sum f (waited 7 ∷ waited 8 ∷ [])) r.0)
wait_procs_total_example =
    wait_procs_total stranger stranger-IsClock calls calls-IsForward 21 true 50_000_000
      (waited 7 ∷ waited 8 ∷ []) 0 (omega arith)

-- 9 is a child of 4, 4 of 1.
abbrev ppid_of : ℕ → Result ℕ
ppid_of pid = if pid == 9 then ok 4 else if pid == 4 then ok 1 else ok 0

climbs : (pid ppid : ℕ) → ppid_of pid ≡ ok ppid → 0 < ppid → ppid < pid
climbs pid ppid e low = elim (Bool-cases (pid == 9)) [
  | inl nine ↦ let up : 4 ≡ ppid = ok-inj (rw nine at e) in ground (arith, nine, up)
  | inr other ↦ elim (Bool-cases (pid == 4)) [
    | inl four ↦ let up : 1 ≡ ppid = ok-inj (rw (other, four) at e) in ground (arith, four, up)
    | inr neither ↦ let up : 0 ≡ ppid = ok-inj (rw (other, neither) at e) in ground (arith, up, low)
  ]
]

parents_loop-ChainOrError_example :
    (r : Result (List Process)) × (parents_loop true (λ pid. ok 5) ppid_of 10 (create 9 5) ≡ some r)
    × ChainOrError true (λ pid. ok 5) ppid_of 9 r
parents_loop-ChainOrError_example =
    parents_loop-ChainOrError true (λ pid. ok 5) ppid_of (λ pid. pid) climbs 10 (create 9 5)
      (omega arith)
