-- ===== src/Process/Os.antt =====
-- The calls of the operating system that waiting uses, over an unknown world. A time is a number of
-- nanoseconds. Signatures only: what a theorem assumes of them it says itself.
use pypsutil.Prelude.{ℕ, Bool, Option}
use pypsutil.Prelude.Exn.{Result}

pub record Os : Type 1 where
  pub World : Type 0
  -- `_psimpl.pid_raw_create_time(pid)`
  pub create_time : ℕ → World → Result ℕ
  -- `os.kill(pid, 0)`
  pub kill_zero : ℕ → World → Result (Unit {0})
  -- `os.waitpid(pid, os.WNOHANG)` and `os.waitpid(pid, 0)`: a PID and a wait status
  pub waitpid_nohang : ℕ → World → Result (ℕ × ℕ) × World
  pub waitpid : ℕ → World → Result (ℕ × ℕ) × World
  -- `os.WIFSIGNALED`, `os.WTERMSIG`, `os.WEXITSTATUS`
  pub if_signaled : ℕ → Bool
  pub term_sig : ℕ → ℕ
  pub exit_status : ℕ → ℕ
  -- `time.monotonic()` and `time.sleep(interval)`
  pub monotonic : World → ℕ
  pub sleep : ℕ → World → World
  -- `os.pidfd_open(pid)` where it exists, and whether `select.select([pidfd], [], [], remaining)`,
  -- with the descriptor closed afterwards, finds it readable
  pub has_pidfd_open : Bool
  pub pidfd_open : ℕ → World → Result ℕ × World
  pub select : ℕ → Option ℕ → World → Bool × World
  -- where `select.kqueue` exists: whether the queue, made, asked for the exit of the PID and closed,
  -- reports an event; an error is an OSError
  pub has_kqueue : Bool
  pub kqueue_wait : ℕ → Option ℕ → World → Result Bool × World
