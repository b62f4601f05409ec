-- ===== src/Process/Identity.antt =====
-- `is_running` of pypsutil/_process.py against PIDs that the system hands out again.
use mathlib.Core.Bool.{false≢true}
use pypsutil.Prelude.{
  ℕ, ◌≡◌, ◌≢◌, refl, sym, ◌∙◌, ◌⊎◌, ◌↔◌, inl, inr, Bool, true, false, arith, ◌==◌, Bool-cases,
}
use pypsutil.Prelude.Exn.{Exn, Result, ok, err}
use pypsutil.Process.Handle.{Process, is_running}

-- The answer shows that the process that started at `time` is gone: the PID is free, or another
-- process has it.
abbrev pub Gone : ℕ → Result ℕ → Type 0
Gone time (ok other) = other ≢ time
Gone time (err Exn.process_lookup_error) = Unit
Gone time (err _) = ⊥

pub is_running_keeps :
    (zombies : Bool) (p : Process) (r : Result ℕ)
    → let p' = (is_running zombies p r).0 in
      (p'.pid ≡ p.pid) × (p'.raw_create_time ≡ p.raw_create_time) × (p'.exitcode ≡ p.exitcode)
unfolding is_running
is_running_keeps zombies p (ok time) = ground arith
is_running_keeps zombies p (err Exn.process_lookup_error) = ground arith
is_running_keeps zombies p (err _) = ground arith

is_running_dead :
    (p : Process) (r : Result ℕ)
    → (is_running true p r).0.dead ≡ true
    → (p.dead ≡ true) ⊎ Gone p.raw_create_time r
unfolding is_running
is_running_dead p (ok time) h = elim (Bool-cases p.dead) [
  | inl d ↦ inl d
  | inr d ↦ inr (λ same. absurd (false≢true (ground arith)))
]
is_running_dead p (err Exn.process_lookup_error) h = inr tt
is_running_dead p (err _) h = inl (ground arith)

is_running_answer :
    (p : Process) (r : Result ℕ) (b : Bool)
    → (is_running true p r).1 ≡ ok b
    → ((b ≡ true) × (r ≡ ok p.raw_create_time))
      ⊎ ((b ≡ false) × ((p.dead ≡ true) ⊎ Gone p.raw_create_time r))
unfolding is_running
is_running_answer p (ok time) b h = elim (Bool-cases p.dead) [
  | inl d ↦ inr (ground arith, inl d)
  | inr d ↦ elim (Bool-cases (p.raw_create_time == time)) [
    | inl same ↦ inl (ground arith, ground arith)
    | inr other ↦ inr (ground arith, inr (λ e. absurd (false≢true (ground arith))))
  ]
]
is_running_answer p (err Exn.process_lookup_error) b h = inr (ground arith, inr tt)
is_running_answer p (err _) b h = inr (ground arith, inl (ground arith))

not-Gone : (time : ℕ) {r : Result ℕ} → r ≡ ok time → ¬ (Gone time r)
not-Gone time there gone = (rw there at gone) refl

-- The system over time, as far as `pid_raw_create_time` shows it. A process that was there and is gone
-- does not come back: no later process has both its PID and its start time.
pub record Kernel : Type 1 where
  pub World : Type 0
  pub create_time : World → ℕ → Result ℕ
  pub Later : World → World → Type 0
  pub later_trans : (u v w : World) → Later u v → Later v w → Later u w
  pub stays_gone :
      (u v w : World) (pid time : ℕ)
      → create_time u pid ≡ ok time
      → Later u v
      → Later v w
      → Gone time (create_time v pid)
      → create_time w pid ≢ ok time

module _ (k : Kernel) where
  open k use {World, create_time, Later, later_trans, stays_gone}

  -- A set `_dead` flag is right: from `w` on, the process of the handle does not exist.
  abbrev pub DeadIsRight : World → Process → Type 0
  DeadIsRight w p =
      p.dead ≡ true → (v : World) → Later w v → create_time v p.pid ≢ ok p.raw_create_time

  -- If `is_running` leaves the dead flag of a handle set, then from that time on the process of the
  -- handle is never there. This supposes that the process was there at some time, that the flag, if it
  -- was set before, was right, and a platform that tells the start times of zombies.
  pub is_running-DeadIsRight :
      (o u w : World) (p : Process)
      → create_time o p.pid ≡ ok p.raw_create_time
      → Later o w
      → Later u w
      → DeadIsRight u p
      → (is_running true p (create_time w p.pid)).0.dead ≡ true
      → (v : World) → Later w v
      → create_time v p.pid ≢ ok p.raw_create_time
  is_running-DeadIsRight o u w p origin since later right dead v from_w =
      (elim (is_running_dead p (create_time w p.pid) dead) [
        | inl already ↦ right already v (later_trans u w v later from_w)
        | inr gone ↦ stays_gone o w v p.pid p.raw_create_time origin since from_w gone
      ])

  -- For a handle of a process that was there at some time, with the flag right, an answer without an
  -- exception is the truth: true exactly if that process is there now, whoever has had its PID in
  -- between. The platform tells the start times of zombies.
  pub is_running_iff :
      (o u w : World) (p : Process) {b : Bool}
      → create_time o p.pid ≡ ok p.raw_create_time
      → Later o w
      → Later u w
      → DeadIsRight u p
      → (is_running true p (create_time w p.pid)).1 ≡ ok b
      → (b ≡ true) ↔ (create_time w p.pid ≡ ok p.raw_create_time)
  is_running_iff o u w p {b} origin since later right e =
      elim (is_running_answer p (create_time w p.pid) b e) [
        | inl (yes', there) ↦ ((λ _. there), (λ _. yes'))
        | inr (no', why) ↦ (
          (λ b_true. absurd (false≢true (sym no' ∙ b_true))),
          (λ there. absurd (elim why [
            | inl dead ↦ right dead w later there
            | inr gone ↦ not-Gone p.raw_create_time there gone
          ])),
        )
      ]
