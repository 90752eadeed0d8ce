-- ===== src/Synchronize/Condition.antt =====
-- billiard/synchronize.py, `class Condition`, as the interleaving of the callers of `wait` and of one
-- caller of `notify` or `notify_all`, who holds the lock all the while.
pub mod Steps
pub mod Kept
pub mod Wakes
mod Tests
use billiard.Prelude.{
  ℕ, zero, suc, ◌+◌, ◌-◌, Bool, true, false, ◌==◌, if◌then◌else◌, Option, none, some,
}

-- Where the caller of `notify` (false) or `notify_all` (true) is: none has the lock, at the first loop, at
-- the loop over the sleepers with the number that it woke, at `_woken_count.acquire()` with the number of
-- times to go beside this one, or at the last lines.
pub data Phase : Type 0 where
  idle : Phase
  draining : Bool → Phase
  grabbing : ℕ → Phase
  collecting : Bool → ℕ → Phase
  rezeroing : Bool → Phase

-- The values of the semaphores, and how many callers of `wait` are at `_wait_semaphore.acquire` or past
-- it and before `_woken_count.release()`.
pub record Condition : Type 0 where
  pub sleeping_count : ℕ
  pub woken_count : ℕ
  pub wait_semaphore : ℕ
  pub asleep : ℕ
  pub waking : ℕ
  pub phase : Phase

-- `__init__`
unfoldable pub init : Condition
init = record {
  sleeping_count = 0;
  woken_count = 0;
  wait_semaphore = 0;
  asleep = 0;
  waking = 0;
  phase = idle;
}

-- The next action of the notifier: there is none, it waits, an assertion fails, or the state after it.
pub data Outcome : Type 0 where
  resting blocked failed : Outcome
  next : Condition → Outcome

-- `wait` up to the release of the lock.
unfoldable pub fall_asleep : Condition → Condition
fall_asleep c = record c { sleeping_count = c.sleeping_count + 1; asleep = c.asleep + 1 }

-- `_wait_semaphore.acquire` succeeds, or ends at its timeout.
unfoldable pub wake_up : Condition → Condition
wake_up c = record c {
  wait_semaphore = c.wait_semaphore - 1;
  asleep = c.asleep - 1;
  waking = c.waking + 1;
}

unfoldable pub time_out : Condition → Condition
time_out c = record c { asleep = c.asleep - 1; waking = c.waking + 1 }

-- `_woken_count.release()`
unfoldable pub report : Condition → Condition
report c = record c { waking = c.waking - 1; woken_count = c.woken_count + 1 }

-- The call of `notify` or `notify_all` up to the first loop.
unfoldable pub begin : Bool → Condition → Outcome
begin all c = if c.wait_semaphore == 0 then next (record c { phase = draining all }) else failed

-- `_sleeping_count.acquire(False)` and `_wait_semaphore.release()`
abbrev pub grab : Phase → Condition → Condition
grab phase c = record c {
  sleeping_count = c.sleeping_count - 1;
  wait_semaphore = c.wait_semaphore + 1;
  phase = phase;
}

-- One round of the first loop.
abbrev pub drain : Condition → Outcome
drain c =
    if c.sleeping_count == 0
    then failed
    else next (record c { woken_count = c.woken_count - 1; sleeping_count = c.sleeping_count - 1 })

abbrev pub after_drain : Bool → Condition → Outcome
after_drain true c = next (record c { phase = grabbing 0 })
after_drain false c =
    next (if c.sleeping_count == 0 then record c { phase = idle } else grab (collecting false 0) c)

-- After the loop over the sleepers.
abbrev pub after_grab : ℕ → Condition → Outcome
after_grab zero c = next (record c { phase = idle })
after_grab (suc n) c = next (record c { phase = collecting true n })

abbrev pub after_collect : Bool → ℕ → Phase
after_collect all zero = rezeroing all
after_collect all (suc n) = collecting all n

-- The last loop of `notify_all`, and the last line of `notify`.
abbrev pub rezero : Bool → Condition → Outcome
rezero true c = next (
    if c.wait_semaphore == 0
    then record c { phase = idle }
    else record c { wait_semaphore = c.wait_semaphore - 1 })
rezero false c = next (record c { wait_semaphore = c.wait_semaphore - 1; phase = idle })

abbrev pub advance_at : Phase → Condition → Outcome
advance_at idle c = resting
advance_at (draining all) c = if c.woken_count == 0 then after_drain all c else drain c
advance_at (grabbing n) c =
    if c.sleeping_count == 0 then after_grab n c else next (grab (grabbing (suc n)) c)
advance_at (collecting all n) c =
    if c.woken_count == 0
    then blocked
    else next (record c { woken_count = c.woken_count - 1; phase = after_collect all n })
advance_at (rezeroing all) c = rezero all c

unfoldable pub advance : Condition → Outcome
advance c = advance_at c.phase c

-- `__repr__`
unfoldable pub num_waiters : Condition → ℕ
num_waiters c = c.sleeping_count - c.woken_count
