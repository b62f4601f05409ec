-- ===== src/Process/Children.antt =====
-- `children` of pypsutil/_process.py, where the platform cannot list the children of one process:
-- each round lists every process whose parent is among those found in the round before.
pub mod Pids
pub mod Search
pub mod Rows
pub mod Below
use pypsutil.Prelude.{
  ℕ, zero, suc, ◌+◌, Bool, true, false, Option, none, some, List, [], ◌∷◌, ◌++◌, if◌then◌else◌, any,
  add, is_empty,
}
use pypsutil.Prelude.Exn.{Exn, Result, ok, err}
use pypsutil.Process.Handle.{Process, eq}
use pypsutil.Process.Iter.{Cache, process_iter}
use pypsutil.Linux.Listing.{Scan, iter_pid_raw_create_time}

-- The `for` loop of a round: `children` and `children_set` hold the same processes.
collect : Bool → List Process → List Process → List ℕ → List Process × List ℕ
collect zombies [] children new = (children, new)
collect zombies (proc ∷ procs) children new =
    if any (eq zombies proc) children
    then collect zombies procs children new
    else collect zombies procs (children ++ (proc ∷ [])) (add proc.pid new)

-- The `while True` loop, on fuel. Round `n` reads the system as `scan n`. An exception of the
-- listing passes through. The handle cache is the one that all listings share.
children_loop :
    Bool
    → (ℕ → Scan)
    → ℕ
    → ℕ
    → List ℕ
    → List Process
    → Cache
    → Option (Result (List Process) × Cache)
children_loop zombies scan zero round search children cache = none
children_loop zombies scan (suc fuel) round search children cache =
    let (listing, ended) = iter_pid_raw_create_time (some search) false (scan round) in
    let (procs, raised, cache') = process_iter listing ended cache in
    let (children', new) = collect zombies procs children [] in
    let again = children_loop zombies scan fuel (round + 1) new children' cache' in
    elim raised [
      | some ex ↦ some (err ex, cache')
      | none ↦ if is_empty new then some (ok children', cache') else again
    ]

-- `children(recursive=True)` behind its `_check_running`.
unfoldable pub descendants :
    Bool → (ℕ → Scan) → ℕ → ℕ → Cache → Option (Result (List Process) × Cache)
unfolding children_loop collect
descendants zombies scan fuel pid cache = children_loop zombies scan fuel 0 (pid ∷ []) [] cache

-- `children(recursive=False)`
unfoldable pub direct_children : Scan → ℕ → Cache → Result (List Process) × Cache
direct_children scan pid cache =
    let (listing, ended) = iter_pid_raw_create_time (some (pid ∷ [])) false scan in
    let (procs, raised, cache') = process_iter listing ended cache in
    elim raised [ some ex ↦ (err ex, cache') | none ↦ (ok procs, cache') ]
