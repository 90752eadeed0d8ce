-- ===== src/Pool/Workers/Maintain.antt =====
-- `Pool._maintain_pool` and `Pool.grow`: what the pool has after it replaced the workers that exited.
use billiard.Prelude.{
  ℕ, inl, inr, le_or_lt, ap, ◌∙◌, zero, suc, ◌+◌, ◌≤◌, ◌≡◌, refl, true, Option, none, some, List,
  length, arith, min,
}
use billiard.Prelude.Int.{ℤ, pos}
use billiard.Pool.Semaphore.{Semaphore, release}
use billiard.Pool.Workers.{PoolState}
use billiard.Pool.Workers.Refill.{Births, Refilled, done, raised, repopulate_pool}
use billiard.Pool.Workers.Fill.{AllClean, repopulate_pool-clean}

-- `self._putlock.release()`, n times
unfoldable pub release_times : ℕ → Semaphore → Semaphore
release_times zero s = s
release_times (suc n) s = release_times n (release s)

abbrev release_putlock : ℕ → PoolState → PoolState
release_putlock n s = elim s.putlock [
  | none ↦ s
  | some lock ↦ record s { putlock = some (release_times n lock) }
]

-- `_maintain_pool` after `_join_exited_workers` left s and returned these exit codes. Nothing is
-- released when the refilling raises.
unfoldable pub maintain_pool : Births → List (Option ℤ) → PoolState → Refilled
maintain_pool env codes s = elim (repopulate_pool env codes s) [
  | raised e t ↦ raised e t
  | done t ↦ done (release_putlock (length codes) t)
]

release_times-min :
    (k n : ℕ) (lock : Semaphore)
    → lock.initial_value ≡ pos n
    → lock.value ≤ n
    → release_times k lock ≡ record lock { value = min (lock.value + k) n }
unfolding release_times release
release_times-min zero n lock bound fits = ground arith
release_times-min (suc k) n lock bound fits = elim (le_or_lt n lock.value) [
  | inl full ↦ ground (arith, release_times-min k n lock)
  | inr room ↦ ground (arith, release_times-min k n (record lock { value = lock.value + 1 }))
]

release_putlock-min :
    (k n : ℕ) (t : PoolState) (lock : Semaphore)
    → t.putlock ≡ some lock
    → lock.initial_value ≡ pos n
    → lock.value ≤ n
    → release_putlock k t
      ≡ record t { putlock = some (record lock { value = min (lock.value + k) n }) }
release_putlock-min k n t lock has bound fits =
    ground (arith, release_times-min k n lock bound fits)

-- One call of `_maintain_pool` in a running pool that can start processes, after a reaping in which as many workers exited as
-- are missing, all with EX_OK or EX_RECYCLE: the pool is full again, the restart limiter has counted
-- nothing, and each exited worker gave a slot back, up to the bound n of the semaphore.
pub maintain_pool-clean :
    (env : Births) (codes : List (Option ℤ)) (s : PoolState) (lock : Semaphore) (n : ℕ)
    → ((j : ℕ) → env.running j ≡ true)
    → ((j : ℕ) → env.starts j ≡ true)
    → length s.pool + length codes ≡ s.processes
    → AllClean codes
    → s.putlock ≡ some lock
    → lock.initial_value ≡ pos n
    → lock.value ≤ n
    → (t : PoolState) × (maintain_pool env codes s ≡ done t)
      × (length t.pool ≡ s.processes)
      × (t.restart_state ≡ s.restart_state)
      × (t.putlock ≡ some (record lock { value = min (lock.value + length codes) n }))
unfolding maintain_pool
maintain_pool-clean env codes s lock n run begins missing clean has bound fits =
    let (t, e, same, kept, full) = repopulate_pool-clean env codes s run begins missing clean in
    (
      record t { putlock = some (record lock { value = min (lock.value + length codes) n }) },
      rw (e, maintain_pool)
          (ap done (release_putlock-min (length codes) n t lock (kept ∙ has) bound fits)),
      full,
      same,
      refl,
    )
