-- ===== src/Common/RestartState.antt =====
-- billiard/common.py, `class restart_state`: how often the pool may replace dead workers.
-- Times are readings of the monotonic clock in whole ticks.
mod Burst
mod Tests
use billiard.Prelude.{
  ℕ, ◌+◌, Bool, false, Option, none, some, leb, ◌==◌, if◌then◌else◌, ◌&&◌, not, List, [], ◌∷◌,
}

-- `maxR` may be None, as when the pool gets no `max_restarts`; T is None before the first step.
pub record RestartState : Type 0 where
  pub max_r : Option ℕ
  pub max_t : ℕ
  pub r : ℕ
  pub t : Option ℕ

pub data Outcome : Type 0 where
  ok : RestartState → Outcome
  -- RestartFreqExceeded, with the state that the raise leaves behind
  exceeded : RestartState → Outcome

-- `__init__`
unfoldable pub init : Option ℕ → ℕ → RestartState
init max_r max_t = record { max_r = max_r; max_t = max_t; r = 0; t = none }

-- A number or None as a condition: None and 0 are false.
abbrev pub truthy : Option ℕ → Bool
truthy none = false
truthy (some n) = not (n == 0)

-- `self.T and now - self.T >= self.maxT`
abbrev window_passed : RestartState → ℕ → Bool
window_passed s now = elim s.t [ none ↦ false | some t ↦ not (t == 0) && leb (t + s.max_t) now ]

-- `self.maxR and self.R >= self.maxR`
abbrev limit_reached : RestartState → Bool
limit_reached s = elim s.max_r [ none ↦ false | some m ↦ not (m == 0) && leb m s.r ]

-- The last three lines of `step`.
abbrev count : RestartState → ℕ → Outcome
count s now = ok (record s { t = elim s.t [ none ↦ some now | some t ↦ some t ]; r = s.r + 1 })

unfoldable pub step : RestartState → ℕ → Outcome
step s now =
    if window_passed s now
    then count (record s { t = some now; r = 0 }) now
    else if limit_reached s
    then (if s.r == 0 then count s now else exceeded (record s { r = 0 }))
    else count s now

-- The state that an outcome leaves, whether or not the caller catches the exception.
abbrev pub after : Outcome → RestartState
after (ok s) = s
after (exceeded s) = s

-- Steps at the given times, up to the first that raises.
unfoldable pub run : RestartState → List ℕ → Outcome
run s [] = ok s
run s (now ∷ times) = elim (step s now) [ ok s' ↦ run s' times | exceeded s' ↦ exceeded s' ]

-- Steps at the given times where the caller catches what they raise.
unfoldable pub resume : RestartState → List ℕ → RestartState
resume s [] = s
resume s (now ∷ times) = resume (after (step s now)) times
