-- ===== src/Process/Oneshot.antt =====
-- `CachedByProcess` of pypsutil/_cache.py, and `_get_cache`, `_set_cache` and `oneshot` of
-- pypsutil/_process.py. The thread's attribute `data` is there or not; what a cached function reads
-- from the system, and leaves of it, is an argument. A value of any type is a `V`.
pub mod Snapshot
pub mod Left
pub mod Steady
use pypsutil.Prelude.{Option, none, some, List, [], ◌∷◌, ◌++◌, if◌then◌else◌}
use pypsutil.Prelude.Dict.{Dict, lookup, insert}
use pypsutil.Prelude.Exn.{Exn, Result, ok, err}
use pypsutil.Prelude.Text.{Text, text_keys}

module _ (V World : Type 0) (func : Text → World → Result V × World) where
  -- `_cache_storage`
  abbrev pub Storage : Type 0
  Storage = Option (Dict Text V)

  -- `_get_cache`, without the difference between the two reasons for its KeyError.
  abbrev pub get_cache : Text → Storage → Option V
  get_cache name none = none
  get_cache name (some cached) = lookup name cached

  abbrev pub set_cache : Text → V → Storage → Storage
  set_cache name value none = none
  set_cache name value (some cached) = some (insert name value cached)

  pub record State : Type 0 where
    pub storage : Storage
    pub world : World

  -- The call of a `CachedByProcess` with a name.
  unfoldable pub call : Text → State → Result V × State
  call name s = elim (get_cache name s.storage) [
    | some value ↦ (ok value, s)
    | none ↦
        let (answer, w) = func name s.world in
        elim answer [
          | ok value ↦ (ok value, record { storage = set_cache name value s.storage; world = w })
          | err ex ↦ (err ex, record { storage = s.storage; world = w })
        ]
  ]

  mutual
    -- What stands in a block: calls, and further `with proc.oneshot()` blocks.
    pub data Step : Type 0 where
      calls : Text → Step
      block : Body → Step

    pub data Body : Type 0 where
      done : Body
      next : Step → Body → Body

  -- What a block came to: the values that its calls returned, in order, with their names; the
  -- exception that ended it, if one did; the state.
  pub record Run : Type 0 where
    pub values : List (Text × V)
    pub raised : Option Exn
    pub state : State

  abbrev pub ended : State → Run
  ended s = record { values = []; raised = none; state = s }

  abbrev pub after_call : Text → Result V × State → Run
  after_call name (ok value, s) = record { values = (name, value) ∷ []; raised = none; state = s }
  after_call name (err ex, s) = record { values = []; raised = some ex; state = s }

  -- `self._cache_storage.data = {}` if it is not there.
  abbrev pub enter : State → State
  enter s = elim s.storage [ none ↦ record s { storage = some [] } | some _ ↦ s ]

  -- What follows `yield`; an exception of the block comes out of `yield`, so that it is not reached.
  abbrev pub leave : Storage → Run → Run
  leave none r = elim r.raised [
    | none ↦ record r { state = record { storage = none; world = r.state.world } }
    | some _ ↦ r
  ]
  leave (some _) r = r

  abbrev pub then_run : Run → (State → Run) → Run
  then_run r further = elim r.raised [
    | some _ ↦ r
    | none ↦ let q = further r.state in record q { values = r.values ++ q.values }
  ]

  unfoldable mutual
    pub run_step : Step → State → Run
    run_step (Step.calls name) s = after_call name (call name s)
    run_step (Step.block body) s = leave s.storage (run body (enter s))

    pub run : Body → State → Run
    run Body.done s = ended s
    run (Body.next step body) s = then_run (run_step step s) (run body)
