-- ===== src/Common/RestartState/Burst.antt =====
-- How many restarts `restart_state` lets through in one window, and that the count stays bounded.
use billiard.Prelude.{
  ℕ, suc, ◌+◌, ◌≤◌, ◌<◌, ◌≡◌, refl, ◌≢◌, some, inl, inr, le_or_lt, List, [], ◌∷◌, length, arith,
}
use billiard.Common.RestartState.{
  RestartState, Outcome, ok, exceeded, init, step, run, after, resume,
}

-- The limiter at the start of a window.
abbrev pub opened : ℕ → ℕ → ℕ → RestartState
opened m max_t t = record { max_r = some (suc m); max_t = max_t; r = 0; t = some t }

-- Every time of the list lies before the limit.
abbrev pub Before : ℕ → List ℕ → Type 0
Before limit [] = Unit {0}
Before limit (now ∷ times) = (now < limit) × Before limit times

-- The result of a burst of n steps beyond the first, under a limit of suc m.
abbrev pub BurstResult : ℕ → ℕ → RestartState → Outcome → Type 0
BurstResult m n s o =
    (s.r + n ≤ suc m → o ≡ ok (record s { r = s.r + n }))
    × (suc m < s.r + n → o ≡ exceeded (record s { r = 0 }))

step_within :
    (m t now : ℕ) (s : RestartState)
    → s.max_r ≡ some (suc m)
    → s.t ≡ some t
    → t ≢ 0
    → now < t + s.max_t
    → s.r ≤ m
    → step s now ≡ ok (record s { r = s.r + 1 })
unfolding step
step_within m t now s em et pos before low = ground arith

step_full :
    (m t now : ℕ) (s : RestartState)
    → s.max_r ≡ some (suc m)
    → s.t ≡ some t
    → t ≢ 0
    → now < t + s.max_t
    → m < s.r
    → step s now ≡ exceeded (record s { r = 0 })
unfolding step
step_full m t now s em et pos before high = ground arith

run_within :
    (m t : ℕ) (s : RestartState) (times : List ℕ)
    → s.max_r ≡ some (suc m)
    → s.t ≡ some t
    → t ≢ 0
    → Before (t + s.max_t) times
    → s.r ≤ suc m
    → BurstResult m (length times) s (run s times)
unfolding run
run_within m t s [] em et pos b low = (λ h. ground arith, λ h. absurd (omega arith))
run_within m t s (now ∷ times) em et pos b low = elim (le_or_lt s.r m) [
  | inl fits ↦
      rw (step_within m t now s em et pos b.0 fits, run)
        (ground
          (arith, run_within m t (record s { r = s.r + 1 }) times em et pos b.1 (omega arith)))
  | inr full ↦
      rw (step_full m t now s em et pos b.0 full, run) (λ h. absurd (omega arith), λ h. refl)
]

-- From a fresh limiter with the limit m + 1, a first step at a time t other than 0 and then steps at
-- times before t + max_t: as long as at most m follow the first, all pass and are counted. If more
-- follow, the step beyond the limit raises and sets the count back to 0; the window stays at t.
pub run-init_burst :
    (m max_t t : ℕ) (times : List ℕ)
    → t ≢ 0
    → 0 < max_t
    → Before (t + max_t) times
    → let window : RestartState = opened m max_t t in
      (length times ≤ m
        → run (init (some (suc m)) max_t) (t ∷ times) ≡ ok (record window { r = 1 + length times }))
      × (m < length times → run (init (some (suc m)) max_t) (t ∷ times) ≡ exceeded window)
unfolding run init step
run-init_burst m max_t t times pos wide b = ground (
  arith,
  run_within m t (record (opened m max_t t) { r = 1 }) times refl refl pos b (omega arith),
)

step-bounded :
    (m now : ℕ) (s : RestartState)
    → s.max_r ≡ some (suc m)
    → s.r ≤ suc m
    → ((after (step s now)).r ≤ suc m) × ((after (step s now)).max_r ≡ some (suc m))
unfolding step
step-bounded m now s em low = ground arith

-- Whatever the times, and also if the caller catches each exception and goes on, the count never
-- exceeds a positive limit that it did not exceed at the start.
pub resume-bounded :
    (m : ℕ) (s : RestartState) (times : List ℕ)
    → s.max_r ≡ some (suc m)
    → s.r ≤ suc m
    → (resume s times).r ≤ suc m
unfolding resume
resume-bounded m s [] em low = low
resume-bounded m s (now ∷ times) em low =
    let (low', em') = step-bounded m now s em low in
    resume-bounded m (after (step s now)) times em' low'
