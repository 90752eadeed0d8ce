-- ===== src/Pool/Workers/Resize.antt =====
-- `Pool.shrink` and `Pool.grow`.
use billiard.Prelude.{
  ℕ, zero, suc, ◌+◌, ◌≤◌, ◌<◌, ◌≡◌, Bool, true, false, List, [], ◌∷◌, ◌++◌, length, leb,
  if◌then◌else◌, ◌||◌,
}
use billiard.Prelude.Int.{ℤ, pos, ◌-ℤ◌}
use billiard.Prelude.Dict.{Dict}
use billiard.Pool.Workers.{Worker, elem}
use billiard.Pool.Workers.Reap.{Job}

-- A job of the cache was accepted by a worker of this pid.
unfoldable pub pid_active : Dict Job → ℕ → Bool
pid_active [] pid = false
pid_active ((j, job) ∷ cache) pid = elem pid job.worker_pids || pid_active cache pid

-- `_worker_active`
unfoldable pub worker_active : Dict Job → Worker → Bool
worker_active cache w = pid_active cache w.pid

-- The state of a pool that shrinks: `_processes`, how often `_putlock.shrink()` was called, and the
-- pids that got `terminate_controlled()`.
pub record Shrunk : Type 0 where
  pub processes : ℤ
  pub lowered : ℕ
  pub terminated : List ℕ

pub data Result : Type 0 where
  shrunk : Shrunk → Result
  value_error : Shrunk → Result

abbrev note_worker : Worker → Shrunk → Shrunk
note_worker w s = record {
  processes = s.processes -ℤ pos 1;
  lowered = s.lowered + 1;
  terminated = s.terminated ++ w.pid ∷ [];
}

-- The loop over `_iterinactive()`, with its `else`; i counts the inactive workers. `i >= n - 1` is
-- written without the difference.
unfoldable pub shrink_from : ℕ → ℕ → Dict Job → List Worker → Shrunk → Result
shrink_from i n cache [] s = value_error s
shrink_from i n cache (w ∷ rest) s = elim (worker_active cache w) [
  | true ↦ shrink_from i n cache rest s
  | false ↦
      if leb n (i + 1)
      then shrunk (note_worker w s)
      else shrink_from (suc i) n cache rest (note_worker w s)
]

unfoldable pub shrink : ℕ → Dict Job → List Worker → Shrunk → Result
shrink n cache pool s = shrink_from 0 n cache pool s

-- How many workers are idle.
unfoldable pub idle : Dict Job → List Worker → ℕ
idle cache [] = 0
idle cache (w ∷ rest) = if worker_active cache w then idle cache rest else suc (idle cache rest)

-- One round for n = 0 too.
abbrev pub at_least_one : ℕ → ℕ
at_least_one zero = 1
at_least_one (suc n) = suc n

-- No job of the cache was accepted by a worker of these pids.
abbrev pub AllIdle : Dict Job → List ℕ → Type 0
AllIdle cache [] = Unit {0}
AllIdle cache (pid ∷ rest) = (pid_active cache pid ≡ false) × AllIdle cache rest

-- m more workers were told to terminate, none of them busy, and the counts follow.
pub record Lowered (cache : Dict Job) (m : ℕ) (b s : Shrunk) : Type 0 where
  pub count : length s.terminated ≡ length b.terminated + m
  pub slots : s.lowered ≡ b.lowered + m
  pub fewer : s.processes ≡ b.processes -ℤ pos m
  pub spared : AllIdle cache s.terminated

abbrev pub Shrinks : Dict Job → ℕ → ℕ → Shrunk → Result → Type 0
Shrinks cache goal found b (shrunk s) = (goal ≤ found) × Lowered cache goal b s
Shrinks cache goal found b (value_error s) = (found < goal) × Lowered cache found b s
