-- ===== src/Process/Children/Below.antt =====
-- `children(recursive=True)` on one unchanged list of processes: handles follow the search on PIDs.
use mathlib.Core.Option.{none-ne-some}
use pypsutil.Prelude.{
  some-inj, All-append, ℕ, zero, suc, ◌+◌, ◌<◌, ◌≡◌, refl, sym, ap, ◌∙◌, ◌↔◌, inl, inr, true,
  Option, none, some, List, [], ◌∷◌, ◌++◌, arith, ◌==◌, ==_iff, if◌then◌else◌, Bool-cases, any,
  contains, add, length, All, is_empty, nat_eq,
}
use pypsutil.Prelude.Exn.{Exn, Result, ok, err}
use pypsutil.Prelude.Dict.{Dict, NodupKeys}
use pypsutil.Process.Handle.{Process, eq}
use pypsutil.Process.Iter.{
  Cache, process_iter, handles, process_iter-handles, process_iter-cache, process_iter_ended,
}
use pypsutil.Process.Children.{children_loop, collect, descendants}
use pypsutil.Process.Children.Pids.{Descends, collect_pids, pid_loop}
use pypsutil.Process.Children.Search.{pid_search}
use pypsutil.Process.Children.Rows.{
  Rows, readable, parents, pids, Matches, IsKeyed, selected, listing-selected, selected-NodupKeys,
  pids-handles, handles-Matches,
}

-- Among matching handles equality is equality of PIDs.
any-eq :
    (rows : Rows) (p : Process) (ps : List Process)
    → Matches rows p
    → All (Matches rows) ps
    → any (eq true p) ps ≡ contains p.pid (pids ps)
any-eq rows p [] m ms = refl
any-eq rows p (q ∷ ps) m (mq, ms) = elim (Bool-cases (p.pid == q.pid)) [
  | inl e ↦
      let same : p.pid ≡ q.pid = (==_iff p.pid q.pid).0 e in
      let times_same : p.raw_create_time ≡ q.raw_create_time = some-inj (sym (rw same at m) ∙ mq) in
      rw e (ground (arith, times_same))
  | inr e ↦ rw e (any-eq rows p ps m ms)
]

pids-append : (ps qs : List Process) → pids (ps ++ qs) ≡ pids ps ++ pids qs
pids-append [] qs = refl
pids-append (p ∷ ps) qs = ap (λ (l : List ℕ). p.pid ∷ l) (pids-append ps qs)

collect_lem :
    (rows : Rows) (procs children : List Process) (new : List ℕ)
    → All (Matches rows) procs
    → All (Matches rows) children
    → let (cs, found) = collect true procs children new in
      let (l, found') = collect_pids (pids procs) (pids children) new in
      (pids cs ≡ l) × (found ≡ found') × All (Matches rows) cs
unfolding collect collect_pids
collect_lem rows [] children new mp mc = (refl, refl, mc)
collect_lem rows (p ∷ procs) children new (m, mp) mc =
    elim (Bool-cases (contains p.pid (pids children))) [
      | inl e ↦ rw (any-eq rows p children m mc, e) (collect_lem rows procs children new mp mc)
      | inr e ↦
          rw (any-eq rows p children m mc, e)
            (rw (pids-append children (p ∷ [])) at (
              collect_lem rows procs (children ++ (p ∷ [])) (add p.pid new) mp
                (All-append (Matches rows) children (p ∷ []) mc (m, tt))))
    ]

process_iter-IsKeyed :
    (listing : Dict ℕ ℕ) (cache : Cache)
    → NodupKeys listing
    → IsKeyed cache
    → IsKeyed (process_iter listing none cache).2
process_iter-IsKeyed listing cache u k pid p found =
    ground (arith, (process_iter-cache pid listing (Exn.runtime_error) cache u).0, found, k pid p)

length-parents : (rows : Rows) → length (parents rows) ≡ length rows
length-parents [] = refl
length-parents ((pid, f) ∷ rows) = ap suc (length-parents rows)

-- A round, with its listing and its handles worked out.
children_round :
    (rows : Rows) (fuel round : ℕ) (search : List ℕ) (children : List Process) (cache : Cache)
    → NodupKeys rows
    → children_loop true (λ _. readable rows) (suc fuel) round search children cache ≡ (
        let sel = selected search rows in
        let cache' = (process_iter sel none cache).2 in
        let (cs, new) = collect true (handles cache sel) children [] in
        if is_empty new
        then some (ok cs, cache')
        else children_loop true (λ _. readable rows) fuel (round + 1) new cs cache')
unfolding children_loop
children_round rows fuel round search children cache u =
    ap after_listing (listing-selected search rows)
    ∙ rw (
      process_iter_ended (selected search rows) none cache,
      process_iter-handles (selected search rows) none cache (selected-NodupKeys search rows u),
    )
  where
    after_listing : Dict ℕ ℕ × Option Exn → Option (Result (List Process) × Cache)
    after_listing listed =
        let (procs, raised, cache') = process_iter listed.0 listed.1 cache in
        let (children', new) = collect true procs children [] in
        let again = children_loop true (λ _. readable rows) fuel (round + 1) new children' cache' in
        elim raised [
          | some ex ↦ some (err ex, cache')
          | none ↦ if is_empty new then some (ok children', cache') else again
        ]

-- What the search on PIDs finds, the search on handles finds.
children_loop_lem :
    (rows : Rows) (fuel round : ℕ) (search : List ℕ) (children : List Process) (cache : Cache)
    (l : List ℕ)
    → NodupKeys rows
    → IsKeyed cache
    → All (Matches rows) children
    → pid_loop fuel (parents rows) search (pids children) ≡ some l
    → (cs : List Process) × (cache' : Cache) × (children_loop true
          (λ _. readable rows)
          fuel
          round
          search
          children
          cache
        ≡ some (ok cs, cache'))
      × (pids cs ≡ l)
      × All (Matches rows) cs
unfolding pid_loop
children_loop_lem rows zero round search children cache l u k mc h = absurd (none-ne-some l h)
children_loop_lem rows (suc fuel) round search children cache l u k mc h =
    let sel = selected search rows in
    let cache' = (process_iter sel none cache).2 in
    let (cs, new) = collect true (handles cache sel) children [] in
    let (same, same_new, mcs) =
      collect_lem rows (handles cache sel) children [] (handles-Matches search rows cache k u) mc in
    let step = children_round rows fuel round search children cache u in
    let h' = rw (← pids-handles search rows cache k, ← same, ← same_new) at h in
    elim (Bool-cases (is_empty new)) [
      | inl done ↦ (cs, cache', step ∙ rw done, some-inj (rw done at h'), mcs)
      | inr more ↦
          let (ds, last, e, found, md) =
            children_loop_lem rows fuel (round + 1) new cs cache' l u
              (process_iter-IsKeyed sel cache (selected-NodupKeys search rows u) k) mcs
              (rw more at h') in
          (ds, last, step ∙ rw more e, found, md)
    ]

-- On a list of processes that stays the same and can be read, with distinct PIDs, and with every
-- cached handle under its own PID, `children(recursive=True)` returns after at most one round more than
-- there are processes. It returns handles of listed processes, with their start times, and exactly of
-- those below the process in the tree. The platform tells the start times of zombies.
pub descendants-Descends :
    (rows : Rows) (fuel pid : ℕ) (cache : Cache)
    → NodupKeys rows
    → IsKeyed cache
    → length rows < fuel
    → (cs : List Process) × (cache' : Cache) × (descendants true (λ _. readable rows) fuel pid cache
        ≡ some (ok cs, cache'))
      × All (Matches rows) cs
      × ((x : ℕ) → (contains x (pids cs) ≡ true) ↔ Descends (parents rows) pid x)
unfolding descendants
descendants-Descends rows fuel pid cache u k h =
    let (l, e, both) = pid_search (parents rows) pid fuel (rw (length-parents rows) h) in
    let (cs, cache', ran, found, mcs) =
      children_loop_lem rows fuel 0 (pid ∷ []) [] cache l u k tt e in
    (cs, cache', ran, mcs, rw found both)
