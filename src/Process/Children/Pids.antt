-- ===== src/Process/Children/Pids.antt =====
-- The search of `children` on PIDs alone: every round finds the children of the last one.
use mathlib.Core.Bool.{false≢true}
use pypsutil.Prelude.{
  ap, In, is_empty, ℕ, zero, suc, ◌≡◌, inl, inr, true, not, ◌||◌, ◌&&◌, Option, none, some, List,
  [], ◌∷◌, ◌++◌, arith, ◌==◌, ==_iff, if◌then◌else◌, Bool-cases, contains, add, contains-add,
  contains-append, contains_cong,
}

-- PIDs with the PIDs of their parents.
abbrev pub Parents : Type 0
Parents = List (ℕ × ℕ)

-- The listed processes whose parent is searched for.
unfoldable pub below : List ℕ → Parents → List ℕ
below search [] = []
below search ((pid, ppid) ∷ rows) =
    if contains ppid search then pid ∷ below search rows else below search rows

unfoldable pub collect_pids : List ℕ → List ℕ → List ℕ → List ℕ × List ℕ
collect_pids [] found new = (found, new)
collect_pids (pid ∷ pids) found new =
    if contains pid found
    then collect_pids pids found new
    else collect_pids pids (found ++ (pid ∷ [])) (add pid new)

unfoldable pub pid_loop : ℕ → Parents → List ℕ → List ℕ → Option (List ℕ)
pid_loop zero rows search found = none
pid_loop (suc fuel) rows search found =
    let (found', new) = collect_pids (below search rows) found [] in
    let again = pid_loop fuel rows new found' in if is_empty new then some found' else again

pub contains-collect_found :
    (x : ℕ) (pids found new : List ℕ)
    → contains x (collect_pids pids found new).0 ≡ (contains x found || contains x pids)
unfolding collect_pids
contains-collect_found x [] found new = ground arith
contains-collect_found x (p ∷ pids) found new = elim (Bool-cases (contains p found)) [
  | inl old ↦
      rw (old, contains-collect_found x pids found new) (ground (arith, contains_cong x p found))
  | inr fresh ↦
      rw (fresh, contains-collect_found x pids (found ++ (p ∷ [])) (add p new))
        (ground (arith, contains-append x found (p ∷ [])))
]

pub contains-collect_new :
    (x : ℕ) (pids found new : List ℕ)
    → contains x (collect_pids pids found new).1
      ≡ (contains x new || (contains x pids && not (contains x found)))
unfolding collect_pids
contains-collect_new x [] found new = ground arith
contains-collect_new x (p ∷ pids) found new = elim (Bool-cases (contains p found)) [
  | inl old ↦
      rw (old, contains-collect_new x pids found new) (ground (arith, contains_cong x p found))
  | inr fresh ↦
      rw (fresh, contains-collect_new x pids (found ++ (p ∷ [])) (add p new))
        (ground
          (arith, contains_cong x p found, contains-add x p new, contains-append x found (p ∷ [])))
]

pub contains-below :
    (x : ℕ) (search : List ℕ) (rows : Parents)
    → contains x (below search rows) ≡ true
    → (ppid : ℕ) × In (x, ppid) rows × (contains ppid search ≡ true)
unfolding below
contains-below x search [] h = absurd (false≢true h)
contains-below x search ((pid, ppid) ∷ rows) h = elim (Bool-cases (contains ppid search)) [
  | inl wanted ↦ elim (Bool-cases (x == pid)) [
    | inl e ↦ (ppid, inl (let same : x ≡ pid = (==_iff x pid).0 e in rw same), wanted)
    | inr e ↦
        let (q, found, w) = contains-below x search rows (rw (wanted, e) at h) in (q, inr found, w)
  ]
  | inr other ↦
      let (q, found, w) = contains-below x search rows (rw other at h) in (q, inr found, w)
]

pub below-contains :
    (x ppid : ℕ) (search : List ℕ) (rows : Parents)
    → In (x, ppid) rows
    → contains ppid search ≡ true
    → contains x (below search rows) ≡ true
unfolding below
below-contains x ppid search [] m w = elim m [ ]
below-contains x ppid search ((pid, q) ∷ rows) (inl e) w =
    let first : x ≡ pid = ap (λ (r : ℕ × ℕ). r.0) e in
    let second : ppid ≡ q = ap (λ (r : ℕ × ℕ). r.1) e in
    rw (rw second at w) (rw first (ground arith))
below-contains x ppid search ((pid, q) ∷ rows) (inr m) w =
    ground (arith, below-contains x ppid search rows m w)

-- The processes below a root: its children, their children, and so on.
pub data Descends (rows : Parents) (root : ℕ) : ℕ → Type 0 where
  child : {pid : ℕ} → In (pid, root) rows → Descends rows root pid
  deeper : {pid ppid : ℕ} → Descends rows root ppid → In (pid, ppid) rows → Descends rows root pid
