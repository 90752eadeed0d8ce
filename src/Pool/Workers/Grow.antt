-- ===== src/Pool/Workers/Grow.antt =====
-- `Pool.grow`, and the workers that the supervisor then starts.
use billiard.Prelude.{
  ℕ, zero, suc, ◌+◌, ◌-◌, ◌≡◌, refl, ap, ◌∙◌, true, Option, none, some, [], length, arith,
}
use billiard.Pool.Semaphore.{Semaphore, grow}
use billiard.Pool.Workers.{PoolState}
use billiard.Pool.Workers.Refill.{Births, done, needs_step, repopulate_pool}
use billiard.Pool.Workers.Fill.{refill-Quiet}

abbrev map_lock : (Semaphore → Semaphore) → Option Semaphore → Option Semaphore
map_lock f none = none
map_lock f (some lock) = some (f lock)

-- `Pool.grow`
unfoldable pub grow_pool : ℕ → PoolState → PoolState
grow_pool zero s = s
grow_pool (suc n) s =
    grow_pool n (record s { processes = s.processes + 1; putlock = map_lock grow s.putlock })

-- `_putlock.grow()`, n times
unfoldable pub grow_times : ℕ → Semaphore → Semaphore
grow_times zero lock = lock
grow_times (suc n) lock = grow_times n (grow lock)

map_lock_id : (o : Option Semaphore) → o ≡ map_lock (grow_times 0) o
unfolding grow_times
map_lock_id none = refl
map_lock_id (some lock) = refl

map_lock_twice :
    (n : ℕ) (o : Option Semaphore)
    → map_lock (grow_times n) (map_lock grow o) ≡ map_lock (grow_times (suc n)) o
unfolding grow_times
map_lock_twice n none = refl
map_lock_twice n (some lock) = refl

grow_pool-keeps :
    (n : ℕ) (s : PoolState)
    → ((grow_pool n s).pool ≡ s.pool)
      × ((grow_pool n s).restart_state ≡ s.restart_state)
      × ((grow_pool n s).processes ≡ s.processes + n)
      × ((grow_pool n s).putlock ≡ map_lock (grow_times n) s.putlock)
unfolding grow_pool grow_times
grow_pool-keeps zero s = (refl, refl, omega arith, map_lock_id s.putlock)
grow_pool-keeps (suc n) s =
    let (a, b, c, d) =
      grow_pool-keeps n
        (record s { processes = s.processes + 1; putlock = map_lock grow s.putlock }) in
    (a, b, omega (arith, c), d ∙ map_lock_twice n s.putlock)

-- A full pool that grows by n, in which no worker exited: the next refilling of the running pool
-- starts exactly n workers if it can, none of them counts as a restart, and the semaphore has grown n times.
pub repopulate_pool-grow_pool :
    (n : ℕ) (env : Births) (s : PoolState) (lock : Semaphore)
    → ((j : ℕ) → env.running j ≡ true)
    → ((j : ℕ) → env.starts j ≡ true)
    → length s.pool ≡ s.processes
    → s.putlock ≡ some lock
    → (t : PoolState) × (repopulate_pool env [] (grow_pool n s) ≡ done t)
      × (length t.pool ≡ length s.pool + n)
      × (t.restart_state ≡ s.restart_state)
      × (t.putlock ≡ some (grow_times n lock))
unfolding repopulate_pool needs_step
repopulate_pool-grow_pool n env s lock run begins full has =
    let (a, b, c, d) = grow_pool-keeps n s in
    let size : length (grow_pool n s).pool ≡ length s.pool = ap length a in
    let (t, e, same, kept, filled) =
      refill-Quiet ((grow_pool n s).processes - length (grow_pool n s).pool) 0 env []
        (grow_pool n s) run begins (omega (arith, c, size)) (λ j low high. refl) in
    (t, e, omega (arith, c, filled), same ∙ b, kept ∙ d ∙ ap (map_lock (grow_times n)) has)
