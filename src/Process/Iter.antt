-- ===== src/Process/Iter.antt =====
-- `_process_iter_impl` of pypsutil/_process.py with its cache of handles. What the platform lists
-- is an argument: PIDs with start times, and the exception that ended the listing, if one did.
use pypsutil.Prelude.{
  ℕ, ◌≡◌, refl, sym, ◌∙◌, inl, inr, false, ◌||◌, Option, none, some, List, [], ◌∷◌, arith, ◌==◌,
  ==_iff, if◌then◌else◌, Bool-cases, Option-cases, keep, contains, add, contains-add, contains-keep,
  nat_eq,
}
use mathlib.Core.Bool.{not}
use mathlib.Core.Option.{none-ne-some}
use pypsutil.Prelude.Exn.{Exn}
use pypsutil.Prelude.Dict.{
  Dict, lookup, insert, erase, keys, NodupKeys, lookup-insert, lookup-erase,
}
use pypsutil.Process.Handle.{Process, create}

abbrev pub Cache : Type 0
Cache = Dict ℕ Process

-- One listed process: a cached handle with the same start time is used again, any other is popped
-- and a new one takes its place.
visit : ℕ → ℕ → Cache → Process × Cache
visit pid time cache = elim (lookup pid cache) [
  | none ↦ (create pid time, insert pid (create pid time) cache)
  | some proc ↦
      if proc.raw_create_time == time
      then (proc, cache)
      else (create pid time, insert pid (create pid time) (erase pid cache))
]

-- The loop: what is yielded, `seen_pids` and the cache.
visit_all : Dict ℕ ℕ → List ℕ → Cache → List Process × List ℕ × Cache
visit_all [] seen cache = ([], seen, cache)
visit_all ((pid, time) ∷ listing) seen cache =
    let (proc, cache') = visit pid time cache in
    let (procs, seen', last) = visit_all listing (add pid seen) cache' in
    (proc ∷ procs, seen', last)

pop_all : List ℕ → Cache → Cache
pop_all [] cache = cache
pop_all (pid ∷ pids) cache = pop_all pids (erase pid cache)

-- `set(cached_pids) - seen_pids` is popped.
clean_up : List ℕ → Cache → Cache
unfolding pop_all
clean_up seen cache = pop_all (keep (λ pid. not (contains pid seen)) (keys cache)) cache

-- The processes yielded, the exception that passed through, and the cache at the end. An exception
-- skips the cleaning.
unfoldable pub process_iter : Dict ℕ ℕ → Option Exn → Cache → List Process × Option Exn × Cache
unfolding visit visit_all clean_up
process_iter listing none cache =
    let (procs, seen, cache') = visit_all listing [] cache in (procs, none, clean_up seen cache')
process_iter listing (some ex) cache =
    let (procs, seen, cache') = visit_all listing [] cache in (procs, some ex, cache')

-- The handle that a listed process should get.
abbrev pub handle : Option Process → ℕ → ℕ → Process
handle none pid time = create pid time
handle (some proc) pid time = if proc.raw_create_time == time then proc else create pid time

abbrev pub handles : Cache → Dict ℕ ℕ → List Process
handles cache [] = []
handles cache ((pid, time) ∷ listing) = handle (lookup pid cache) pid time ∷ handles cache listing

visit-handle :
    (pid time : ℕ) (cache : Cache) → (visit pid time cache).0 ≡ handle (lookup pid cache) pid time
unfolding visit
visit-handle pid time cache = ground arith

visit-lookup :
    (j pid time : ℕ) (cache : Cache)
    → lookup j (visit pid time cache).1
      ≡ (if j == pid then some (handle (lookup pid cache) pid time) else lookup j cache)
unfolding visit
visit-lookup j pid time cache = elim (Option-cases (lookup pid cache)) [
  | inl absent ↦ ground (arith, absent, lookup-insert j pid (create pid time) cache)
  | inr (p, found) ↦ ground (
    arith,
    found,
    lookup-insert j pid (create pid time) (erase pid cache),
    lookup-erase j pid cache,
  )
]

-- A listed process that does not stand further on keeps its handle under the rest of the loop.
abbrev pub listed : Option ℕ → ℕ → Option Process → Option Process
listed none pid old = old
listed (some time) pid old = some (handle old pid time)

visit_all-lookup :
    (j : ℕ) (listing : Dict ℕ ℕ) (seen : List ℕ) (cache : Cache)
    → NodupKeys listing
    → lookup j (visit_all listing seen cache).2 ≡ listed (lookup j listing) j (lookup j cache)
unfolding visit_all
visit_all-lookup j [] seen cache u = refl
visit_all-lookup j ((pid, time) ∷ listing) seen cache (new, u) =
    let ih = visit_all-lookup j listing (add pid seen) (visit pid time cache).1 u in
    elim (Bool-cases (j == pid)) [
      | inl e ↦
          let same : j ≡ pid = (==_iff j pid).0 e in
          let absent : lookup j listing ≡ none = rw same new in
          ih ∙ rw (absent, visit-lookup j pid time cache, e, same)
      | inr e ↦ ih ∙ rw (visit-lookup j pid time cache, e)
    ]

handles-skip :
    (pid time : ℕ) (cache : Cache) (listing : Dict ℕ ℕ)
    → lookup pid listing ≡ none
    → handles (visit pid time cache).1 listing ≡ handles cache listing
handles-skip pid time cache [] absent = refl
handles-skip pid time cache ((j, t) ∷ listing) absent = elim (Bool-cases (pid == j)) [
  | inl e ↦ absurd (none-ne-some t (sym absent ∙ rw e))
  | inr e ↦
      let other : (j == pid) ≡ false = ground arith in
      rw
        (visit-lookup j pid time cache, other, handles-skip pid time cache listing (rw e at absent))
]

visit_all-handles :
    (listing : Dict ℕ ℕ) (seen : List ℕ) (cache : Cache)
    → NodupKeys listing
    → (visit_all listing seen cache).0 ≡ handles cache listing
unfolding visit_all
visit_all-handles [] seen cache u = refl
visit_all-handles ((pid, time) ∷ listing) seen cache (new, u) = rw (
  visit-handle pid time cache,
  visit_all-handles listing (add pid seen) (visit pid time cache).1 u,
  handles-skip pid time cache listing new,
)

visit_all-seen :
    (j : ℕ) (listing : Dict ℕ ℕ) (seen : List ℕ) (cache : Cache)
    → contains j (visit_all listing seen cache).1 ≡ (contains j seen || contains j (keys listing))
unfolding visit_all
visit_all-seen j [] seen cache = ground arith
visit_all-seen j ((pid, time) ∷ listing) seen cache =
    visit_all-seen j listing (add pid seen) (visit pid time cache).1
    ∙ ground (arith, contains-add j pid seen)

pop_all-lookup :
    (j : ℕ) (pids : List ℕ) (cache : Cache)
    → lookup j (pop_all pids cache) ≡ (if contains j pids then none else lookup j cache)
unfolding pop_all
pop_all-lookup j [] cache = refl
pop_all-lookup j (pid ∷ pids) cache =
    ground (arith, pop_all-lookup j pids (erase pid cache), lookup-erase j pid cache)

lookup-keys : {V : Type 0} (j : ℕ) (d : Dict ℕ V) → contains j (keys d) ≡ false → lookup j d ≡ none
lookup-keys j [] h = refl
lookup-keys j ((pid, p) ∷ d) h = ground (arith, lookup-keys j d)

keys-lookup : {V : Type 0} (j : ℕ) (d : Dict ℕ V) → lookup j d ≡ none → contains j (keys d) ≡ false
keys-lookup j [] h = refl
keys-lookup j ((pid, p) ∷ d) h = ground (arith, keys-lookup j d)

clean_up-lookup :
    (j : ℕ) (seen : List ℕ) (cache : Cache)
    → lookup j (clean_up seen cache) ≡ (if contains j seen then lookup j cache else none)
unfolding clean_up
clean_up-lookup j seen cache = ground (
  arith,
  pop_all-lookup j (keep (λ pid. not (contains pid seen)) (keys cache)) cache,
  contains-keep j (λ pid. not (contains pid seen)) (keys cache),
  lookup-keys j cache,
)

-- A full run over a listing without repeated PIDs yields one handle for each listed process, in
-- order: the cached one if it has the same start time, with all that it knows, and else a new one.
pub process_iter-handles :
    (listing : Dict ℕ ℕ) (ended : Option Exn) (cache : Cache)
    → NodupKeys listing
    → (process_iter listing ended cache).0 ≡ handles cache listing
unfolding process_iter
process_iter-handles listing none cache u = visit_all-handles listing [] cache u
process_iter-handles listing (some ex) cache u = visit_all-handles listing [] cache u

-- What a full run leaves in the cache for a PID.
abbrev pub kept : Option ℕ → ℕ → Option Process → Option Process
kept none pid old = none
kept (some time) pid old = some (handle old pid time)

-- After a full run the cache holds the yielded handle of every listed PID and nothing else. A run
-- that an exception ends keeps the entries of the PIDs that it has not reached.
pub process_iter-cache :
    (j : ℕ) (listing : Dict ℕ ℕ) (ex : Exn) (cache : Cache)
    → NodupKeys listing
    → (lookup j (process_iter listing none cache).2 ≡ kept (lookup j listing) j (lookup j cache))
      × (lookup j (process_iter listing (some ex) cache).2
          ≡ listed (lookup j listing) j (lookup j cache))
unfolding process_iter
process_iter-cache j listing ex cache u = (
  clean_up-lookup j (visit_all listing [] cache).1 (visit_all listing [] cache).2
      ∙ ground (
        arith,
        visit_all-lookup j listing [] cache u,
        visit_all-seen j listing [] cache,
        lookup-keys j listing,
        keys-lookup j listing,
      ),
  visit_all-lookup j listing [] cache u,
)

-- Only an exception of the listing is raised.
pub process_iter_ended :
    (listing : Dict ℕ ℕ) (ended : Option Exn) (cache : Cache)
    → (process_iter listing ended cache).1 ≡ ended
unfolding process_iter
process_iter_ended listing none cache = refl
process_iter_ended listing (some ex) cache = refl
