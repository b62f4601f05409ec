-- ===== src/Process/Handle.antt =====
-- The `Process` object of pypsutil/_process.py: its state, `__init__`, `_create`, `is_running`,
-- `_check_running`, `__eq__` and `raw_create_times_eq`.
-- A start time is what `pid_raw_create_time` returns; only equality and zero matter, so it is a
-- number of clock ticks. What that function answers is an argument.
use pypsutil.Prelude.{ℕ, Bool, true, false, not, ◌||◌, ◌&&◌, Option, none, ◌==◌, if◌then◌else◌}
use pypsutil.Prelude.Exn.{Exn, Result, ok, err, ◌>>=◌}
use pypsutil.Prelude.Int.{ℤ, pos, negsuc}

pub record Process : Type 0 where
  pub pid : ℕ
  pub raw_create_time : ℕ
  pub dead : Bool
  pub exitcode : Option ℤ

-- `works_on_zombies` is false where the platform reports a start time of 0 for a zombie.
abbrev pub raw_create_times_eq : Bool → ℕ → ℕ → Bool
raw_create_times_eq true time1 time2 = time1 == time2
raw_create_times_eq false time1 time2 = time1 == time2 || (time1 == 0 || time2 == 0)

-- `translate_proc_errors` around the platform's call.
abbrev pub translate_proc_errors {ℓ} : {A : Type ℓ} → ℕ → Result A → Result A
translate_proc_errors pid (ok a) = ok a
translate_proc_errors pid (err Exn.process_lookup_error) = err (Exn.no_such_process (pos pid))
translate_proc_errors pid (err Exn.permission_error) = err (Exn.access_denied (pos pid))
translate_proc_errors pid (err e) = err e

-- `Process(pid)`: the start time is asked for, and its errors are translated.
unfoldable pub init : ℤ → (ℕ → Result ℕ) → Result Process
init (negsuc n) ask = err (Exn.no_such_process (negsuc n))
init (pos pid) ask = do
  time ← translate_proc_errors pid (ask pid)
  ok (record { pid = pid; raw_create_time = time; dead = false; exitcode = none })

-- `Process._create(pid, raw_create_time)`: nothing is asked.
abbrev pub create : ℕ → ℕ → Process
create pid time = record { pid = pid; raw_create_time = time; dead = false; exitcode = none }

-- `is_running`, on the platform's answer for this PID. The object comes back changed also when the
-- call raises.
unfoldable pub is_running : Bool → Process → Result ℕ → Process × Result Bool
is_running zombies p (ok time) = if p.dead then (p, ok false) else (
  record p { dead = not (raw_create_times_eq zombies p.raw_create_time time) },
  ok (raw_create_times_eq zombies p.raw_create_time time),
)
is_running zombies p (err Exn.process_lookup_error) =
    if p.dead then (p, ok false) else (record p { dead = true }, ok false)
is_running zombies p (err Exn.permission_error) =
    if p.dead then (p, ok false) else (p, err (Exn.access_denied (pos p.pid)))
is_running zombies p (err e) = if p.dead then (p, ok false) else (p, err e)

-- `_check_running`
unfoldable pub check_running : Bool → Process → Result ℕ → Process × Result (Unit {0})
unfolding is_running
check_running zombies p answer =
    let (p', r) = is_running zombies p answer in
    (p', do running ← r; if running then ok tt else err (Exn.no_such_process (pos p.pid)))

-- `__eq__`, on two processes.
abbrev pub eq : Bool → Process → Process → Bool
eq zombies p q = p.pid == q.pid && raw_create_times_eq zombies p.raw_create_time q.raw_create_time
