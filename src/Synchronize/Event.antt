-- ===== src/Synchronize/Event.antt =====
-- billiard/synchronize.py, `class Event`: a flag that is a counting semaphore. Each method runs under the
-- lock of the condition, so that it is one step, and `wait` is two, before and after the sleep.
pub mod Flag
mod Tests
use billiard.Prelude.{ℕ, ◌+◌, ◌-◌, Bool, true, false, List, [], ◌∷◌, ◌==◌, if◌then◌else◌}

-- `_flag`
pub record Event : Type 0 where
  pub flag : ℕ

-- `__init__`
unfoldable pub init : Event
init = record { flag = 0 }

-- `_flag.acquire(False)`, whose answer says if it was above 0, and `_flag.release()`.
abbrev pub take : Event → Event
take e = record e { flag = e.flag - 1 }

abbrev pub put_back : Event → Event
put_back e = record e { flag = e.flag + 1 }

-- The answer, with the flag after it.
unfoldable pub is_set : Event → Bool × Event
is_set e = if e.flag == 0 then (false, take e) else (true, put_back (take e))

-- `set`, which goes on to `notify_all`.
unfoldable pub set : Event → Event
set e = put_back (take e)

unfoldable pub clear : Event → Event
clear e = take e

-- The first part of `wait`: whether it sleeps.
unfoldable pub before_wait : Event → Bool × Event
before_wait e = if e.flag == 0 then (true, take e) else (false, put_back (take e))

-- The second part, after the sleep if there was one.
unfoldable pub after_wait : Event → Bool × Event
after_wait e = if e.flag == 0 then (false, take e) else (true, put_back (take e))
