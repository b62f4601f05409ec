-- ===== src/Process/Parents.antt =====
-- `parent` and `parents` of pypsutil/_process.py. What the platform answers for a PID, its start time
-- and the PID of its parent, stays the same during a call and is an argument.
use mathlib.Core.Option.{none-ne-some}
use pypsutil.Prelude.{
  ℕ, zero, suc, ◌<◌, ◌≡◌, refl, sym, ap, ◌∙◌, inl, inr, Bool, false, Option, none, some, List, [],
  ◌∷◌, ◌==◌, ==_iff, if◌then◌else◌, arith, Bool-cases, Option-cases, some-inj,
}
use pypsutil.Prelude.Int.{pos}
use pypsutil.Prelude.Exn.{Exn, Result, ok, err, ◌>>=◌, bind_ok, ok-inj, err≢ok, Result-cases}
use pypsutil.Process.Handle.{Process, translate_proc_errors, init, check_running}

module _ (zombies : Bool) (ask proc_ppid : ℕ → Result ℕ) where
  -- `except NoSuchProcess: return None`; `ZombieProcess` is a subclass.
  abbrev or_none : Result Process → Result (Option Process)
  or_none (ok q) = ok (some q)
  or_none (err (Exn.no_such_process _)) = ok none
  or_none (err (Exn.zombie_process _)) = ok none
  or_none (err ex) = err ex

  abbrev parent_of : ℕ → Result (Option Process)
  parent_of ppid = if ppid == 0 then ok none else or_none (init (pos ppid) ask)

  -- `_parent_unchecked`
  unfoldable pub parent_unchecked : Process → Result (Option Process)
  parent_unchecked p = translate_proc_errors p.pid (proc_ppid p.pid) >>= parent_of

  -- The loop of `parents`, on fuel.
  unfoldable pub parents_loop : ℕ → Process → Option (Result (List Process))
  parents_loop zero p = none
  parents_loop (suc fuel) p = elim (parent_unchecked p) [
    | err ex ↦ some (err ex)
    | ok none ↦ some (ok [])
    | ok (some q) ↦ elim (parents_loop fuel q) [
      | none ↦ none
      | some r ↦ some (r >>= λ ps. ok (q ∷ ps))
    ]
  ]

  abbrev if_running {ℓ} : {A : Type ℓ} → Result (Unit {0}) → Option (Result A) → Option (Result A)
  if_running (ok _) r = r
  if_running (err ex) r = some (err ex)

  -- `parent`, and `parents`; the object comes back from `_check_running`.
  unfoldable pub parent : Process → Process × Result (Option Process)
  parent p =
      let (p', r) = check_running zombies p (ask p.pid) in (p', r >>= λ _. parent_unchecked p')

  unfoldable pub parents : ℕ → Process → Process × Option (Result (List Process))
  parents fuel p =
      let (p', r) = check_running zombies p (ask p.pid) in (p', if_running r (parents_loop fuel p'))

  -- The platform's answers for a PID without a process.
  abbrev pub IsGone : Result ℕ → Type 0
  IsGone (err Exn.process_lookup_error) = Unit
  IsGone (err (Exn.no_such_process _)) = Unit
  IsGone (err (Exn.zombie_process _)) = Unit
  IsGone _ = ⊥

  -- Each process is the parent of the one before, with the start time that its PID has, and the last
  -- one has no parent, or one that is gone.
  pub data IsChain : ℕ → List Process → Type 0 where
    root : {pid : ℕ} → proc_ppid pid ≡ ok 0 → IsChain pid []
    orphan :
        {pid ppid : ℕ} → proc_ppid pid ≡ ok ppid → 0 < ppid → IsGone (ask ppid) → IsChain pid []
    child :
        {pid : ℕ} {q : Process} {qs : List Process}
        → proc_ppid pid ≡ ok q.pid
        → 0 < q.pid
        → ask q.pid ≡ ok q.raw_create_time
        → IsChain q.pid qs
        → IsChain pid (q ∷ qs)

  -- An exception comes from asking the platform about a process, about its parent, or further up.
  pub data Fails (ex : Exn) : ℕ → Type 0 where
    by_ppid : {pid : ℕ} → translate_proc_errors pid (proc_ppid pid) ≡ err ex → Fails ex pid
    by_init :
        {pid ppid : ℕ}
        → proc_ppid pid ≡ ok ppid
        → 0 < ppid
        → translate_proc_errors ppid (ask ppid) ≡ err ex
        → ¬ IsGone (ask ppid)
        → Fails ex pid
    higher :
        {pid ppid time : ℕ}
        → proc_ppid pid ≡ ok ppid
        → 0 < ppid
        → ask ppid ≡ ok time
        → Fails ex ppid
        → Fails ex pid

  abbrev pub ChainOrError : ℕ → Result (List Process) → Type 0
  ChainOrError pid (ok ps) = IsChain pid ps
  ChainOrError pid (err ex) = Fails ex pid

  untranslated : (pid n : ℕ) (r : Result ℕ) → translate_proc_errors pid r ≡ ok n → r ≡ ok n
  untranslated pid n (ok a) h = h
  untranslated pid n (err Exn.process_lookup_error) h = absurd (err≢ok h)
  untranslated pid n (err ex) h = absurd (err≢ok h)

  found_in : (r : Result Process) (q : Process) → or_none r ≡ ok (some q) → r ≡ ok q
  found_in (ok p) q h = ap (λ (x : Process). ok x) (some-inj (ok-inj h))
  found_in (err (Exn.no_such_process n)) q h = absurd (none-ne-some q (ok-inj h))
  found_in (err (Exn.zombie_process n)) q h = absurd (none-ne-some q (ok-inj h))
  found_in (err ex) q h = absurd (err≢ok h)

  above :
      (pid : ℕ) (q : Process) (r : Result (List Process))
      → proc_ppid pid ≡ ok q.pid
      → 0 < q.pid
      → ask q.pid ≡ ok q.raw_create_time
      → ChainOrError q.pid r
      → ChainOrError pid (r >>= λ ps. ok (q ∷ ps))
  above pid q (ok ps) told low asked chain = IsChain.child told low asked chain
  above pid q (err ex) told low asked fails = Fails.higher told low asked fails

  fresh : ℕ → ℕ → Result Process
  fresh ppid time =
      ok (record { pid = ppid; raw_create_time = time; dead = false; exitcode = none })

  or_none-IsGone :
      (ppid : ℕ) (r : Result ℕ)
      → or_none (translate_proc_errors ppid r >>= fresh ppid) ≡ ok none
      → IsGone r
  unfolding fresh
  or_none-IsGone ppid (ok time) h = absurd (none-ne-some _ (sym (ok-inj h)))
  or_none-IsGone ppid (err Exn.process_lookup_error) h = tt
  or_none-IsGone ppid (err (Exn.no_such_process n)) h = tt
  or_none-IsGone ppid (err (Exn.zombie_process n)) h = tt
  or_none-IsGone ppid (err ex) h = absurd (err≢ok h)

  raised_in :
      (ppid : ℕ) (r : Result ℕ) (ex : Exn)
      → or_none (translate_proc_errors ppid r >>= fresh ppid) ≡ err ex
      → (translate_proc_errors ppid r ≡ err ex) × (¬ IsGone r)
  unfolding fresh
  raised_in ppid (ok time) ex h = absurd (err≢ok (sym h))
  raised_in ppid (err Exn.process_lookup_error) ex h = absurd (err≢ok (sym h))
  raised_in ppid (err (Exn.no_such_process n)) ex h = absurd (err≢ok (sym h))
  raised_in ppid (err (Exn.zombie_process n)) ex h = absurd (err≢ok (sym h))
  raised_in ppid (err Exn.permission_error) ex h = (cc, λ gone. gone)
  raised_in ppid (err e) ex h = (cc, λ gone. gone)

  parent_missing : (p : Process) → parent_unchecked p ≡ ok none → IsChain p.pid []
  unfolding parent_unchecked init fresh
  parent_missing p h =
      let (ppid, told, made) =
        bind_ok (translate_proc_errors p.pid (proc_ppid p.pid)) parent_of none h in
      let answer : proc_ppid p.pid ≡ ok ppid = untranslated p.pid ppid (proc_ppid p.pid) told in
      elim (Bool-cases (ppid == 0)) [
        | inl top ↦
            let zero_pid : ppid ≡ 0 = (==_iff ppid 0).0 top in
            IsChain.root (answer ∙ ap (λ (n : ℕ). ok n) zero_pid)
        | inr below ↦
            IsChain.orphan answer (ground (arith, below))
              (or_none-IsGone ppid (ask ppid) (rw below at made))
      ]

  parent_raised : (p : Process) (ex : Exn) → parent_unchecked p ≡ err ex → Fails ex p.pid
  unfolding parent_unchecked init fresh
  parent_raised p ex h = elim (Result-cases (translate_proc_errors p.pid (proc_ppid p.pid))) [
    | inr (e, raised) ↦
        let passed : ◌≡◌ {A = Result (Option Process)} (err e) (err ex) = rw raised at h in
        let same : e ≡ ex = cc in Fails.by_ppid (rw same at raised)
    | inl (ppid, told) ↦ elim (Bool-cases (ppid == 0)) [
      | inl top ↦ absurd (err≢ok (sym (rw (told, top) at h)))
      | inr below ↦
          let (failed, there) = raised_in ppid (ask ppid) ex (rw (told, below) at h) in
          Fails.by_init (untranslated p.pid ppid (proc_ppid p.pid) told) (ground (arith, below))
            failed there
    ]
  ]

  parent_found :
      (p q : Process)
      → parent_unchecked p ≡ ok (some q)
      → (proc_ppid p.pid ≡ ok q.pid) × (0 < q.pid) × (ask q.pid ≡ ok q.raw_create_time)
  unfolding parent_unchecked init fresh
  parent_found p q h =
      let (ppid, told, made) =
        bind_ok (translate_proc_errors p.pid (proc_ppid p.pid)) parent_of (some q) h in
      elim (Bool-cases (ppid == 0)) [
        | inl top ↦ absurd (none-ne-some q (ok-inj (rw top at made)))
        | inr below ↦
            let (time, asked, built) =
              bind_ok (translate_proc_errors ppid (ask ppid)) (fresh ppid) q
                (found_in (init (pos ppid) ask) q (rw below at made)) in
            let same : record { pid = ppid; raw_create_time = time; dead = false; exitcode = none }
                ≡ q =
              ok-inj built in
            let number : ppid ≡ q.pid = ap (λ x. x.pid) same in
            let answer : ask ppid ≡ ok time = untranslated ppid time (ask ppid) asked in
            (
              untranslated p.pid ppid (proc_ppid p.pid) told ∙ ap (λ (n : ℕ). ok n) number,
              ground (arith, below, number),
              ap ask (sym number) ∙ answer ∙ ap (λ x. ok x.raw_create_time) same,
            )
      ]

  -- Where each parent stands higher than its child, in whatever numbering, the loop of `parents` comes
  -- to an end within as many rounds as the height of the process and one more. Without an exception,
  -- it gives the whole chain upwards: each process is the parent of the one before and has the start
  -- time that belongs to its PID, and the last one has the PID 0 for its parent, or a parent that is
  -- gone. With one, it is the exception, translated, of asking for the parent's PID of the process or
  -- of one of its ancestors, or for the start time of such a parent that is not gone.
  pub parents_loop-ChainOrError :
      (height : ℕ → ℕ)
      (falls : (pid ppid : ℕ) → proc_ppid pid ≡ ok ppid → 0 < ppid → height ppid < height pid)
      (fuel : ℕ) (p : Process)
      → height p.pid < fuel
      → (r : Result (List Process)) × (parents_loop fuel p ≡ some r) × ChainOrError p.pid r
  unfolding parents_loop
  parents_loop-ChainOrError height falls zero p h = absurd (omega (arith, h))
  parents_loop-ChainOrError height falls (suc fuel) p h = elim (Result-cases (parent_unchecked p)) [
    | inr (ex, e) ↦ (err ex, rw (e, parents_loop) refl, parent_raised p ex e)
    | inl (found, e) ↦ elim (Option-cases found) [
      | inl top ↦
          let none_up : parent_unchecked p ≡ ok none = e ∙ ap (λ (o : Option Process). ok o) top in
          (ok [], rw (none_up, parents_loop) refl, parent_missing p none_up)
      | inr (q, up) ↦
          let step : parent_unchecked p ≡ ok (some q) = e ∙ ap (λ (o : Option Process). ok o) up in
          let (told, low, asked) = parent_found p q step in
          let (r, ran, chain) =
            parents_loop-ChainOrError height falls fuel q
              (omega (arith, h, falls p.pid q.pid told low)) in
          (
            r >>= λ ps. ok (q ∷ ps),
            rw (step, ran, parents_loop) refl,
            above p.pid q r told low asked chain,
          )
    ]
  ]
