-- ===== src/Pool/Workers.antt =====
-- billiard/pool.py, `class Pool`: the worker processes, how they are reaped and replaced, and the jobs
-- that they leave behind. Times are clock readings in whole ticks.
pub mod Index
pub mod Reap
pub mod Refill
pub mod Fill
mod Grow
pub mod Maintain
pub mod Resize
mod Lost
mod Forgets
mod Tests
use billiard.Prelude.{
  ℕ, ◌<◌, ◌≡◌, Bool, true, false, Option, none, some, List, [], ◌∷◌, ◌==◌, if◌then◌else◌, ◌||◌,
}
use billiard.Prelude.Int.{ℤ, pos, negsuc}
use billiard.Common.RestartState.{RestartState}
use billiard.Pool.Semaphore.{Semaphore}

-- A worker process. `started` says that its `_popen` is not None; the exit code is None while it runs
-- and negative after a signal.
pub record Worker : Type 0 where
  pub pid : ℕ
  pub index : ℕ
  pub started : Bool
  pub exitcode : Option ℤ
  pub controlled_termination : Bool
  pub job_terminated : Bool

-- `popen is None or exitcode is not None`
unfoldable pub has_exited : Worker → Bool
has_exited w = elim w.exitcode [ none ↦ if w.started then false else true | some code ↦ true ]

-- `exitcode in (EX_OK, EX_RECYCLE)`
unfoldable pub is_clean : Option ℤ → Bool
is_clean none = false
is_clean (some (pos n)) = n == 0 || n == 0x9B
is_clean (some (negsuc n)) = false

abbrev pub elem : ℕ → List ℕ → Bool
elem i [] = false
elem i (j ∷ rest) = j == i || elem i rest

abbrev pub pids : List Worker → List ℕ
pids [] = []
pids (w ∷ rest) = w.pid ∷ pids rest

abbrev pub indices : List Worker → List ℕ
indices [] = []
indices (w ∷ rest) = w.index ∷ indices rest

-- The attributes of the pool that concern the workers. The pool has a semaphore unless `putlock` is
-- None, and `processes` is the number of workers that it should have.
pub record PoolState : Type 0 where
  pub processes : ℕ
  pub pool : List Worker
  pub restart_state : RestartState
  pub putlock : Option Semaphore

-- No index is used twice.
abbrev pub Distinct : List ℕ → Type 0
Distinct [] = Unit {0}
Distinct (i ∷ rest) = (elem i rest ≡ false) × Distinct rest

abbrev pub Below : ℕ → List ℕ → Type 0
Below n [] = Unit {0}
Below n (i ∷ rest) = (i < n) × Below n rest

-- Every worker has an index of its own, below the number of processes.
pub record IsSlotted (s : PoolState) : Type 0 where
  pub distinct : Distinct (indices s.pool)
  pub below : Below s.processes (indices s.pool)
