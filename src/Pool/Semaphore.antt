-- ===== src/Pool/Semaphore.antt =====
-- billiard/pool.py, `class LaxBoundedSemaphore`: the slots of the pool, behind `putlocks`.
mod Bound
mod Tests
use billiard.Prelude.{
  ℕ, zero, suc, ◌+◌, ◌-◌, Bool, Option, none, some, List, [], ◌∷◌, ◌==◌, if◌then◌else◌,
}
use billiard.Prelude.Int.{ℤ, pos, ◌+ℤ◌, ◌-ℤ◌, ltb_ℤ, pos_part}

-- `_value` of the standard semaphore is never negative; `_initial_value` is lowered with no test.
pub record Semaphore : Type 0 where
  pub value : ℕ
  pub initial_value : ℤ

-- `__init__`
unfoldable pub init : ℕ → Semaphore
init value = record { value = value; initial_value = pos value }

-- `threading.Semaphore.acquire`; none says that the caller waits.
unfoldable pub acquire : Semaphore → Option Semaphore
acquire s = if s.value == 0 then none else some (record s { value = s.value - 1 })

-- `shrink`: the bound falls at once, and then a slot is acquired. The first part and the second are
-- kept apart, since the caller may wait between them.
unfoldable pub lower : Semaphore → Semaphore
lower s = record s { initial_value = s.initial_value -ℤ pos 1 }

unfoldable pub shrink : Semaphore → Option Semaphore
unfolding lower acquire
shrink s = acquire (lower s)

unfoldable pub grow : Semaphore → Semaphore
grow s = record s { initial_value = s.initial_value +ℤ pos 1; value = s.value + 1 }

-- A release above the bound is ignored.
unfoldable pub release : Semaphore → Semaphore
release s = if ltb_ℤ (pos s.value) s.initial_value then record s { value = s.value + 1 } else s

-- The loop of `clear`; each round adds 1 to `_value`, so the bound is enough rounds.
unfoldable pub clear_rounds : ℕ → Semaphore → Semaphore
clear_rounds zero s = s
clear_rounds (suc rounds) s =
    let rest = clear_rounds rounds (record s { value = s.value + 1 }) in
    if ltb_ℤ (pos s.value) s.initial_value then rest else s

unfoldable pub clear : Semaphore → Semaphore
unfolding clear_rounds
clear s = clear_rounds (pos_part s.initial_value) s
