-- ===== src/Process/Wait/Ends.antt =====
-- The ways in which the polling loop of `wait` ends.
use pypsutil.Prelude.{ℕ, ◌+◌, ◌≤◌, ◌<◌, ◌≡◌, Bool, Option, some}
use pypsutil.Prelude.Int.{ℤ, pos}
use pypsutil.Prelude.Exn.{Exn, ok, err}
use pypsutil.Process.Handle.{Process}
use pypsutil.Process.Os.{Os}
use pypsutil.Process.Wait.{Outcome, wait_loop}
use pypsutil.Process.Wait.Looks.{Reached, Over, StillThere, Raised}

module _ (os : Os) where
  open os use {World, monotonic}

  -- The ways to end, for a timeout and a start time.
  pub data Ends (timeout : Option ℕ) (start : ℕ) (pid : ℕ) (s : World) (o : Outcome os (Option ℤ))
      : Type 0 where
    returned :
        o.result ≡ ok o.process.exitcode
        → Over os pid s o.process o.world
        → Ends timeout start pid s o
    expired :
        {t : ℕ}
        → timeout ≡ some t
        → o.result ≡ err (Exn.timeout_expired (pos pid))
        → (0 < t → start + t ≤ monotonic o.world)
        → StillThere os pid s o.world
        → Ends timeout start pid s o
    failed : {e : Exn} → o.result ≡ err e → Raised os pid s e o.world → Ends timeout start pid s o

  -- Every end of the rest of the loop is one of the three.
  abbrev EndsWell : ℕ → Option ℕ → ℕ → World → Type 0
  EndsWell fuel timeout start s =
      (is_child : Bool) (p : Process) (w : World) (o : Outcome os (Option ℤ))
      → Reached os p.pid s w
      → wait_loop os fuel timeout start is_child p w ≡ some o
      → Ends timeout start p.pid s o
