-- ===== src/Synchronize/Condition/Tests.antt =====
-- Two waiters, of which one times out while a notifier wakes both.
use billiard.Prelude.{◌+◌, ◌<◌, ◌≡◌, ◌≢◌, ◌⊎◌, refl, Bool, true, arith}
use billiard.Synchronize.Condition.{
  Condition, idle, collecting, rezeroing, init, blocked, failed, next, fall_asleep, wake_up,
  time_out, report, begin, advance, num_waiters,
}
use billiard.Synchronize.Condition.Steps.{
  Reaches, here, then, waits, wakes, times_out, reports, begins, advances,
}
use billiard.Synchronize.Condition.Wakes.{notify_all-awake, notify-safe}

abbrev grabbed : Condition
grabbed = record {
  sleeping_count = 0;
  woken_count = 0;
  wait_semaphore = 2;
  asleep = 2;
  waking = 0;
  phase = collecting true 1;
}

Reaches-grabbed : Reaches init grabbed
unfolding init fall_asleep begin advance
Reaches-grabbed = then (waits refl) (
    then (waits refl) (
      then (begins true refl refl) (
        then (advances refl)
          (then (advances refl) (then (advances refl) (then (advances refl) here))))))

notify-safe_example :
    (advance grabbed ≢ failed)
    × ((all : Bool) → grabbed.phase ≡ idle → begin all grabbed ≢ failed)
    × (advance grabbed ≡ blocked
        → (0 < grabbed.waking) ⊎ ((0 < grabbed.asleep) × (0 < grabbed.wait_semaphore)))
    × (grabbed.phase ≡ idle → num_waiters grabbed ≡ grabbed.asleep + grabbed.waking)
notify-safe_example = notify-safe Reaches-grabbed

one : 0 < 1
one = omega arith

two : 0 < 2
two = omega arith

-- The end of the notification; the wake-up of the waiter that timed out is taken back.
abbrev last : Condition
last = record {
  sleeping_count = 0;
  woken_count = 0;
  wait_semaphore = 0;
  asleep = 0;
  waking = 0;
  phase = rezeroing true;
}

Reaches-last : Reaches init last
unfolding init fall_asleep begin advance wake_up time_out report
Reaches-last = then (waits refl) (
    then (waits refl) (
      then (begins true refl refl) (
        then (advances refl) (
          then (advances refl) (
            then (advances refl) (
              then (advances refl) (
                then (wakes two two) (
                  then (times_out one) (
                    then (reports two) (
                      then (reports one) (
                        then (advances refl)
                          (then (advances refl) (then (advances refl) here)))))))))))))

abbrev rested : Condition
rested = record last { phase = idle }

advance-last : advance last ≡ next rested
unfolding advance
advance-last = refl

notify_all-awake_example :
    (rested.asleep ≡ 0)
    × (rested.waking ≡ 0)
    × (rested.woken_count ≡ 0)
    × (rested.sleeping_count ≡ 0)
notify_all-awake_example = notify_all-awake Reaches-last refl advance-last refl
