-- ===== src/Pool/Semaphore/Tests.antt =====
-- Inputs for `LaxBoundedSemaphore`.
use billiard.Prelude.{◌≤◌, ◌≡◌, refl, none, List, [], ◌∷◌, arith}
use billiard.Prelude.Int.{pos}
use billiard.Pool.Semaphore.{Semaphore, init, shrink}
use billiard.Pool.Semaphore.Bound.{
  Op, acquires, shrinks, grows, releases, clears, total, run, run-bounded,
}

abbrev history : List Op
history = acquires ∷ releases ∷ releases ∷ shrinks ∷ grows ∷ acquires ∷ clears ∷ []

run-bounded_example :
    ((run (init 2) history).initial_value ≡ pos (total 2 history))
    × ((run (init 2) history).value ≤ total 2 history)
run-bounded_example = run-bounded 2 history (omega arith, tt)

abbrev busy : Semaphore
busy = record { value = 1; initial_value = pos 4 }

-- A semaphore of no slots waits for ever when it is shrunk: no release gets past the new bound.
shrink-none : shrink (init 0) ≡ none
unfolding init shrink
shrink-none = refl
