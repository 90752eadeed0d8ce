-- ===== src/Pool/Front/History.antt =====
-- The task queue of a pool over any history of calls.
use billiard.Prelude.{ℕ, ◌+◌, ◌≤◌, length}
use billiard.Pool.Semaphore.{Semaphore}
use billiard.Pool.Front.{Front}
use billiard.Pool.Front.Calls.{Session}
use billiard.Pool.Front.Submits.{Inv}

module _ {A : Type 0} where
  -- The late jobs and the callers that still wait are among those that ever waited.
  abbrev Kept : Session A → Type 0
  Kept s = (k : ℕ) × (k + length s.waiting ≤ s.waited) × Inv k s.life.front
