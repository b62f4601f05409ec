-- ===== src/Process/Children/Rows.antt =====
-- A list of processes that stays the same, as `children` sees it: what a round lists, and the handles
-- that it gets.
use mathlib.Core.Option.{none-ne-some}
use pypsutil.Prelude.{
  All-imp, ℕ, ◌≡◌, refl, sym, ◌∙◌, inl, inr, false, none, some, List, [], ◌∷◌, arith, ◌==◌, ==_iff,
  if◌then◌else◌, Bool-cases, Option-cases, contains, All, nat_eq,
}
use pypsutil.Prelude.Exn.{ok}
use pypsutil.Prelude.Dict.{Dict, lookup, NodupKeys}
use pypsutil.Process.Handle.{Process}
use pypsutil.Process.Iter.{Cache, handle, handles}
use pypsutil.Linux.Listing.{StatFields, Scan, iter_pid_raw_create_time}
use pypsutil.Process.Children.Pids.{Parents, below}

-- A list of processes that can all be read.
abbrev pub Rows : Type 0
Rows = Dict ℕ StatFields

abbrev pub readable : Rows → Scan
readable [] = []
readable ((pid, f) ∷ rows) = (pid, ok f) ∷ readable rows

abbrev pub parents : Rows → Parents
parents [] = []
parents ((pid, f) ∷ rows) = (pid, f.ppid) ∷ parents rows

abbrev pub times : Rows → Dict ℕ ℕ
times [] = []
times ((pid, f) ∷ rows) = (pid, f.ctime) ∷ times rows

abbrev pub pids : List Process → List ℕ
pids [] = []
pids (p ∷ ps) = p.pid ∷ pids ps

-- The handle is of a listed process: same PID, same start time.
abbrev pub Matches : Rows → Process → Type 0
Matches rows p = lookup p.pid (times rows) ≡ some p.raw_create_time

-- A cached handle stands under its own PID.
abbrev pub IsKeyed : Cache → Type 0
IsKeyed cache = (pid : ℕ) (p : Process) → lookup pid cache ≡ some p → p.pid ≡ pid

pub selected : List ℕ → Rows → Dict ℕ ℕ
selected search [] = []
selected search ((pid, f) ∷ rows) =
    if contains f.ppid search then (pid, f.ctime) ∷ selected search rows else selected search rows

pub listing-selected :
    (search : List ℕ) (rows : Rows)
    → iter_pid_raw_create_time (some search) false (readable rows) ≡ (selected search rows, none)
unfolding iter_pid_raw_create_time selected
listing-selected search [] = refl
listing-selected search ((pid, f) ∷ rows) = ground (arith, listing-selected search rows)

lookup-selected-none :
    (x : ℕ) (search : List ℕ) (rows : Rows)
    → lookup x (times rows) ≡ none
    → lookup x (selected search rows) ≡ none
unfolding selected
lookup-selected-none x search [] h = refl
lookup-selected-none x search ((pid, f) ∷ rows) h =
    ground (arith, lookup-selected-none x search rows)

lookup-times-none : (x : ℕ) (rows : Rows) → lookup x rows ≡ none → lookup x (times rows) ≡ none
lookup-times-none x [] h = refl
lookup-times-none x ((pid, f) ∷ rows) h = ground (arith, lookup-times-none x rows)

pub selected-NodupKeys :
    (search : List ℕ) (rows : Rows) → NodupKeys rows → NodupKeys (selected search rows)
unfolding selected
selected-NodupKeys search [] u = tt
selected-NodupKeys search ((pid, f) ∷ rows) (new, u) = elim (Bool-cases (contains f.ppid search)) [
  | inl e ↦ rw e (
    lookup-selected-none pid search rows (lookup-times-none pid rows new),
    selected-NodupKeys search rows u,
  )
  | inr e ↦ rw e (selected-NodupKeys search rows u)
]

-- The handles of a listing have its PIDs and start times.
handle_fields :
    (cache : Cache) (pid time : ℕ)
    → IsKeyed cache
    → let p = handle (lookup pid cache) pid time in (p.pid ≡ pid) × (p.raw_create_time ≡ time)
handle_fields cache pid time k = elim (Option-cases (lookup pid cache)) [
  | inl absent ↦ rw absent (refl, refl)
  | inr (p, found) ↦ ground (arith, found, k pid p found)
]

pub pids-handles :
    (search : List ℕ) (rows : Rows) (cache : Cache)
    → IsKeyed cache
    → pids (handles cache (selected search rows)) ≡ below search (parents rows)
unfolding selected below
pids-handles search [] cache k = refl
pids-handles search ((pid, f) ∷ rows) cache k =
    ground (arith, pids-handles search rows cache k, handle_fields cache pid f.ctime k)

Matches-cons :
    (pid : ℕ) (f : StatFields) (rows : Rows)
    → lookup pid rows ≡ none
    → (p : Process) → Matches rows p
    → Matches ((pid, f) ∷ rows) p
Matches-cons pid f rows new p m = elim (Bool-cases (p.pid == pid)) [
  | inl e ↦
      let same : p.pid ≡ pid = (==_iff p.pid pid).0 e in
      absurd (none-ne-some p.raw_create_time (sym (lookup-times-none pid rows new) ∙ rw same at m))
  | inr e ↦ rw e m
]

pub handles-Matches :
    (search : List ℕ) (rows : Rows) (cache : Cache)
    → IsKeyed cache
    → NodupKeys rows
    → All (Matches rows) (handles cache (selected search rows))
unfolding selected
handles-Matches search [] cache k u = tt
handles-Matches search ((pid, f) ∷ rows) cache k (new, u) =
    let rest =
      All-imp (Matches rows) (Matches ((pid, f) ∷ rows)) (Matches-cons pid f rows new)
        (handles cache (selected search rows)) (handles-Matches search rows cache k u) in
    elim (Bool-cases (contains f.ppid search)) [
      | inl e ↦ rw e (ground (arith, handle_fields cache pid f.ctime k), rest)
      | inr e ↦ rw e rest
    ]
