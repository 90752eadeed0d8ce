-- ===== src/Synchronize/Condition/Steps.antt =====
-- Which steps may follow one another, in any number of processes.
use billiard.Prelude.{◌<◌, ◌≡◌, Bool}
use billiard.Synchronize.Condition.{
  Condition, idle, next, fall_asleep, wake_up, time_out, report, begin, advance,
}

-- A wait and a notification begin only while no notifier has the lock.
pub data Step : Condition → Condition → Type 0 where
  waits : {c : Condition} → c.phase ≡ idle → Step c (fall_asleep c)
  wakes : {c : Condition} → 0 < c.asleep → 0 < c.wait_semaphore → Step c (wake_up c)
  times_out : {c : Condition} → 0 < c.asleep → Step c (time_out c)
  reports : {c : Condition} → 0 < c.waking → Step c (report c)
  begins : {c d : Condition} (all : Bool) → c.phase ≡ idle → begin all c ≡ next d → Step c d
  advances : {c d : Condition} → advance c ≡ next d → Step c d

pub data Reaches : Condition → Condition → Type 0 where
  here : {c : Condition} → Reaches c c
  then : {c d e : Condition} → Step c d → Reaches d e → Reaches c e
