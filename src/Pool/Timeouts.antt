-- ===== src/Pool/Timeouts.antt =====
-- billiard/pool.py, `class TimeoutHandler`: soft and hard time limits. Times are clock readings in
-- whole ticks.
mod Soft
mod Hard
mod Tests
use billiard.Prelude.{
  ℕ, ◌+◌, Bool, true, false, Option, none, some, List, [], ◌∷◌, ◌++◌, leb, ◌==◌, if◌then◌else◌,
  ◌||◌, ◌&&◌, not,
}

-- The attributes that the handler reads, by the class of the job: `_time_accepted` of an
-- `ApplyResult` is a time, that of a `MapResult` is a list, and an `IMapIterator` has none.
pub record Applied : Type 0 where
  pub time_accepted : Option ℕ
  pub soft_timeout : Option ℕ
  pub timeout : Option ℕ
  pub is_ready : Bool
  pub worker_pid : Option ℕ

pub data Job : Type 0 where
  applied : Applied → Job
  mapped : List (Option ℕ) → Job
  iterated : Job

-- The limits of the pool, each possibly None.
pub record Limits : Type 0 where
  pub t_soft : Option ℕ
  pub t_hard : Option ℕ

pub data Exn : Type 0 where
  attribute_error type_error os_error callback_error : Exn

-- What the handler does. `settled i` is `job._set(job._job, (False, ExceptionInfo()))` with
-- TimeLimitExceeded.
pub data Action : Type 0 where
  settled : ℕ → Action
  called_back : Bool → ℕ → Action
  -- the job, and the process
  signalled_soft : ℕ → ℕ → Action
  terminated killed : Bool → ℕ → Action

-- The process table as the handler finds it.
pub record Env : Type 0 where
  -- `_process_by_pid` finds a worker
  pub is_worker : Option ℕ → Option ℕ
  -- the callbacks of the job return when it is settled
  pub set_returns : ℕ → Bool
  -- the timeout callback returns
  pub callback_returns : Bool → ℕ → Bool
  -- `os.kill` with the soft signal works or says ESRCH
  pub signal_allowed : ℕ → Bool
  -- the process leads its group, and the platform can tell
  pub is_leader : ℕ → Bool
  -- TERM raises OSError
  pub term_fails : ℕ → Bool
  -- the wait of 0.1 s gives an exit status other than 0
  pub exits_in_time : ℕ → Bool

-- The default of the pool where the job has None.
abbrev pub limit : Option ℕ → Option ℕ → Option ℕ
limit none default = default
limit (some t) default = some t

abbrev pub truthy : Option ℕ → Bool
truthy none = false
truthy (some n) = not (n == 0)

-- `_timed_out` on a time; None and 0 are false.
unfoldable pub timed_out : ℕ → Option ℕ → Option ℕ → Bool
timed_out now none limit = false
timed_out now (some start) none = false
timed_out now (some start) (some limit) =
    if start == 0 || limit == 0 then false else leb (start + limit) now

-- What the body of the loop finds for one job.
pub data Check : Type 0 where
  quiet soft hard : Check
  raises : Exn → Check

-- `_timed_out` on a list: a list that is not empty plus a number is a TypeError.
abbrev list_check : Bool → Option ℕ → List (Option ℕ) → Check → Check
list_check skip limit [] other = other
list_check skip limit (t ∷ times) other =
    if skip || not (truthy limit) then other else raises type_error

-- `dirty` says whether the job has had its soft timeout.
unfoldable pub check : Limits → ℕ → Bool → Job → Check
unfolding timed_out
check l now dirty (applied job) =
    if timed_out now job.time_accepted (limit job.timeout l.t_hard)
    then hard
    else if not dirty && timed_out now job.time_accepted (limit job.soft_timeout l.t_soft)
    then soft
    else quiet
check l now dirty (mapped times) =
    list_check false l.t_hard times (list_check dirty l.t_soft times quiet)
check l now dirty iterated = raises attribute_error

-- `_trywaitkill`
unfoldable pub trywaitkill : Env → ℕ → List Action
trywaitkill env pid =
    let kill = killed (env.is_leader pid) pid ∷ [] in
    if env.term_fails pid
    then kill
    else terminated (env.is_leader pid) pid ∷ (if env.exits_in_time pid then [] else kill)

-- Actions, and an exception if one ended them.
pub record Done : Type 0 where
  pub actions : List Action
  pub exn : Option Exn

-- `on_soft_timeout`
unfoldable pub on_soft_timeout : Env → ℕ → Applied → Done
on_soft_timeout env i job = elim (env.is_worker job.worker_pid) [
  | none ↦ record { actions = []; exn = none }
  | some pid ↦
      if env.callback_returns true i
      then (if env.signal_allowed pid
          then record { actions = called_back true i ∷ signalled_soft i pid ∷ []; exn = none }
          else record { actions = called_back true i ∷ []; exn = some os_error })
      else record { actions = called_back true i ∷ []; exn = some callback_error }
]

-- `on_hard_timeout`
unfoldable pub on_hard_timeout : Env → ℕ → Applied → Done
unfolding trywaitkill
on_hard_timeout env i job =
    if job.is_ready
    then record { actions = []; exn = none }
    else if not (env.set_returns i)
    then record { actions = settled i ∷ []; exn = some callback_error }
    else if env.callback_returns false i
    then record {
      actions =
          settled i
          ∷ called_back false i
          ∷ elim (env.is_worker job.worker_pid) [ none ↦ [] | some pid ↦ trywaitkill env pid ];
      exn = none;
    }
    else record { actions = settled i ∷ called_back false i ∷ []; exn = some callback_error }

abbrev pub elem : ℕ → List ℕ → Bool
elem i [] = false
elem i (j ∷ rest) = j == i || elem i rest

abbrev pub has_key : ℕ → List (ℕ × Job) → Bool
has_key i [] = false
has_key i ((j, job) ∷ rest) = j == i || has_key i rest

-- One pass over the cache ends with the jobs that have had their soft timeout, or an exception.
pub data Pass : Type 0 where
  swept : List ℕ → List Action → Pass
  crashed : Exn → List Action → Pass

abbrev before : List Action → Pass → Pass
before l (swept dirty actions) = swept dirty (l ++ actions)
before l (crashed e actions) = crashed e (l ++ actions)

abbrev proceed : Done → Pass → Pass
proceed d rest = elim d.exn [ none ↦ before d.actions rest | some e ↦ crashed e d.actions ]

-- What a finding leads to; a job that is no `ApplyResult` has neither.
abbrev act : (Applied → Done) → Job → Done
act f (applied job) = f job
act f (mapped times) = record { actions = []; exn = none }
act f iterated = record { actions = []; exn = none }

-- The branches of the loop's body; `noted` is the rest of the pass with the job noted in `dirty`.
abbrev pub follow : Env → ℕ → Job → Check → Pass → Pass → Pass
follow env i job quiet rest noted = rest
follow env i job hard rest noted = proceed (act (on_hard_timeout env i) job) rest
follow env i job soft rest noted = proceed (act (on_soft_timeout env i) job) noted
follow env i job (raises e) rest noted = crashed e []

-- `for i, job in cache.items()`
unfoldable pub sweep : Env → Limits → ℕ → List (ℕ × Job) → List ℕ → Pass
unfolding check on_soft_timeout on_hard_timeout
sweep env l now [] dirty = swept dirty []
sweep env l now ((i, job) ∷ cache) dirty =
    let rest = sweep env l now cache dirty in
    let noted = sweep env l now cache (i ∷ dirty) in
    follow env i job (check l now (elem i dirty) job) rest noted

-- `set(k for k in dirty if k in cache)`
abbrev pub keep_cached : List (ℕ × Job) → List ℕ → List ℕ
keep_cached cache [] = []
keep_cached cache (i ∷ dirty) =
    if has_key i cache then i ∷ keep_cached cache dirty else keep_cached cache dirty

-- One round of `handle_timeouts` up to its `yield`.
unfoldable pub round : Env → Limits → ℕ → List (ℕ × Job) → List ℕ → Pass
unfolding sweep
round env l now cache dirty = sweep env l now cache (keep_cached cache dirty)
