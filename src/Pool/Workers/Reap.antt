-- ===== src/Pool/Workers/Reap.antt =====
-- `Pool._join_exited_workers`: exited workers leave the pool, and the jobs that they had accepted are
-- looked after. Times are clock readings in whole ticks.
use billiard.Prelude.{
  ℕ, ◌+◌, Bool, true, false, Option, none, some, List, [], ◌∷◌, ◌++◌, ltb, if◌then◌else◌, ◌&&◌,
  ◌||◌, not,
}
use billiard.Prelude.Int.{ℤ, pos}
use billiard.Prelude.Dict.{Dict, lookup, insert, contains}
use billiard.Pool.Workers.{Worker, has_exited, elem, pids}

-- The pool without its exited workers, and the dicts `cleaned` and `exitcodes`.
pub record Reaped : Type 0 where
  pub kept : List Worker
  pub cleaned : Dict Worker
  pub exitcodes : Dict (Option ℤ)

-- `for i in reversed(range(len(self._pool)))`: the last worker comes first.
unfoldable pub reap : List Worker → Reaped
reap [] = record { kept = []; cleaned = []; exitcodes = [] }
reap (w ∷ rest) =
    let r = reap rest in
    if has_exited w
    then record {
      kept = r.kept;
      cleaned = insert w.pid w r.cleaned;
      exitcodes = insert w.pid w.exitcode r.exitcodes;
    }
    else record r { kept = w ∷ r.kept }

-- The worker that a job is being written to, `_write_to` or `_scheduled_for`.
pub record Link : Type 0 where
  pub pid : ℕ
  pub is_alive : Bool

-- What `_set(None, (False, error))` does to a job: it becomes ready and leaves the cache, as an accepted
-- `ApplyResult` does, it becomes ready and stays, or, in an `IMapIterator`, neither.
pub data Settling : Type 0 where
  leaves stays ignores : Settling

-- A job of the cache. `lost` is `_worker_lost`, `links` is none for a job without the attributes
-- `_write_to` and `_scheduled_for`.
pub record Job : Type 0 where
  pub is_ready : Bool
  pub worker_pids : List ℕ
  pub lost : Option (ℕ × Option ℤ)
  pub lost_worker_timeout : ℕ
  pub settling : Settling
  pub links : Option (Option Link × Option Link)

-- What is asked of job j: `mark_as_worker_lost`, `on_job_process_down`, `_set_terminated`.
pub data Action : Type 0 where
  marked_lost : ℕ → Option ℤ → Action
  process_down : ℕ → ℕ → Action
  set_terminated : ℕ → Option ℤ → Action

-- `now - lost_time > job._lost_worker_timeout`, of a job that is not ready and is lost
unfoldable pub is_overdue : ℕ → Job → Option (Option ℤ)
is_overdue now job = elim job.lost [
  | none ↦ none
  | some (t, code) ↦
      if not job.is_ready && ltb (t + job.lost_worker_timeout) now then some code else none
]

-- The cache after that.
abbrev pub settle : Settling → ℕ → Job → Dict Job → Dict Job
settle leaves j job cache = cache
settle stays j job cache = (j, record job { is_ready = true }) ∷ cache
settle ignores j job cache = (j, job) ∷ cache

-- The first loop, with the cache that it leaves.
unfoldable pub mark_overdue : ℕ → Dict Job → Dict Job × List Action
mark_overdue now [] = ([], [])
mark_overdue now ((j, job) ∷ cache) =
    let (cache', acts) = mark_overdue now cache in
    elim (is_overdue now job) [
      | none ↦ ((j, job) ∷ cache', acts)
      | some code ↦ (settle job.settling j job cache', marked_lost j code ∷ acts)
    ]

-- `next((pid for pid in job.worker_pids() if pid in cleaned or pid not in all_pids), None)`
unfoldable pub acked_by_gone : Dict Worker → List Worker → List ℕ → Option ℕ
acked_by_gone cleaned kept [] = none
acked_by_gone cleaned kept (pid ∷ rest) =
    let later = acked_by_gone cleaned kept rest in
    if contains pid cleaned || not (elem pid (pids kept)) then some pid else later

-- `exitcodes.get(pid) or 0`
unfoldable pub code_or_zero : ℕ → Dict (Option ℤ) → Option ℤ
code_or_zero pid codes = elim (lookup pid codes) [
  | none ↦ some (pos 0)
  | some none ↦ some (pos 0)
  | some (some code) ↦ some code
]

-- `proc and getattr(proc, '_job_terminated', False)`
abbrev pub is_job_terminated : ℕ → Dict Worker → Bool
is_job_terminated pid cleaned = elim (lookup pid cleaned) [
  | none ↦ false
  | some w ↦ w.job_terminated
]

-- `if link and not link._is_alive()`
abbrev down_if_dead : ℕ → Option Link → List Action → List Action
down_if_dead j none other = other
down_if_dead j (some l) other = if l.is_alive then other else process_down j l.pid ∷ []

-- The branch of a job that no gone worker acknowledged.
abbrev link_actions : ℕ → Option Link → Option Link → List Action
link_actions j write_to sched_for = down_if_dead j write_to (down_if_dead j sched_for [])

-- `_set_terminated`, which an `IMapIterator` does not have; the callbacks of the job return.
abbrev pub set_ready : Settling → Job → Option Job
set_ready leaves job = some (record job { is_ready = true })
set_ready stays job = some (record job { is_ready = true })
set_ready ignores job = none

abbrev pub after_terminated : Option Job → List Action → Option (Job × List Action)
after_terminated none acts = none
after_terminated (some job) acts = some (job, acts)

-- A job after the reaping, with what is asked of it; none is the AttributeError.
unfoldable pub look_after : ℕ → Reaped → ℕ → Job → Option (Job × List Action)
look_after now r j job = elim (acked_by_gone r.cleaned r.kept job.worker_pids) [
  | none ↦ elim job.links [
    | none ↦ none
    | some (write_to, sched_for) ↦ some (job, link_actions j write_to sched_for)
  ]
  | some pid ↦
      if job.is_ready
      then some (job, process_down j pid ∷ [])
      else if is_job_terminated pid r.cleaned
      then after_terminated (set_ready job.settling job)
          (process_down j pid ∷ set_terminated j (code_or_zero pid r.exitcodes) ∷ [])
      else some
          (record job { lost = some (now, code_or_zero pid r.exitcodes) }, process_down j pid ∷ [])
]

-- The cache with the job as it is now; one that has become ready may leave it.
abbrev pub keep_job : Settling → Bool → Bool → ℕ → Job → Dict Job → Dict Job
keep_job leaves false true j job cache = cache
keep_job leaves false false j job cache = (j, job) ∷ cache
keep_job leaves true b j job cache = (j, job) ∷ cache
keep_job stays a b j job cache = (j, job) ∷ cache
keep_job ignores a b j job cache = (j, job) ∷ cache

-- The second loop, over `list(self._cache.values())`.
unfoldable pub look_after_all : ℕ → Reaped → Dict Job → Option (Dict Job × List Action)
look_after_all now r [] = some ([], [])
look_after_all now r ((j, job) ∷ cache) =
    let rest = look_after_all now r cache in
    elim (look_after now r j job) [
      | none ↦ none
      | some (job', acts) ↦ elim rest [
        | none ↦ none
        | some (cache', more) ↦
            some (keep_job job.settling job.is_ready job'.is_ready j job' cache', acts ++ more)
      ]
    ]

-- The values of a dict, in the order of insertion.
abbrev pub dict_values {ℓ} : {V : Type ℓ} → Dict V → List V
dict_values [] = []
dict_values ((k, v) ∷ d) = v ∷ dict_values d

pub data Joined : Type 0 where
  workers_joined : Dict Job → List Action → Joined
  attribute_error : List Action → Joined
  -- the pool, the cache, what was asked of the jobs, and the returned exit codes
  joined : List Worker → Dict Job → List Action → List (Option ℤ) → Joined

abbrev is_empty : List Worker → Bool
is_empty [] = true
is_empty (w ∷ rest) = false

-- All of `_join_exited_workers`, with one reading of the clock.
unfoldable pub join_exited_workers : Bool → ℕ → List Worker → Dict Job → Joined
join_exited_workers shutdown now pool cache =
    let (cache, overdue) = mark_overdue now cache in
    let r = reap pool in
    if shutdown && is_empty pool then workers_joined cache overdue else elim r.cleaned [
      | [] ↦ joined r.kept cache overdue []
      | e ∷ more ↦ elim (look_after_all now r cache) [
        | none ↦ attribute_error overdue
        | some (cache', acts) ↦ joined r.kept cache' (overdue ++ acts) (dict_values r.exitcodes)
      ]
    ]
