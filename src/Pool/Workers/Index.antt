-- ===== src/Pool/Workers/Index.antt =====
-- `Pool._avail_index`: the slot of a new worker.
use billiard.Prelude.{
  ℕ, zero, suc, ◌+◌, ◌≤◌, ◌<◌, ◌≡◌, ◌≢◌, refl, inl, inr, true, false, Option, none, some, List, [],
  ◌∷◌, length, ltb, ◌==◌, if◌then◌else◌, arith, Bool-cases,
}
use billiard.Pool.Workers.{Worker, elem, indices}

-- `next(i for i in range(processes) if i not in indices)`; none is the StopIteration.
unfoldable pub first_free : ℕ → ℕ → List ℕ → Option ℕ
first_free zero i taken = none
first_free (suc rounds) i taken =
    let rest = first_free rounds (suc i) taken in if elem i taken then rest else some i

-- None stands for the assertion too.
unfoldable pub avail_index : ℕ → List Worker → Option ℕ
unfolding first_free
avail_index processes pool =
    if ltb (length pool) processes then first_free processes 0 (indices pool) else none

-- The list without one number.
abbrev remove : ℕ → List ℕ → List ℕ
remove i [] = []
remove i (j ∷ rest) = if j == i then rest else j ∷ remove i rest

length-remove : (i : ℕ) (l : List ℕ) → elem i l ≡ true → length l ≡ suc (length (remove i l))
length-remove i [] h = cc
length-remove i (j ∷ rest) h = ground (arith, length-remove i rest)

elem-remove : (i k : ℕ) (l : List ℕ) → k ≢ i → elem k (remove i l) ≡ elem k l
elem-remove i k [] ne = refl
elem-remove i k (j ∷ rest) ne = ground (arith, elem-remove i k rest)

-- The search does not see the numbers below its start.
first_free-remove :
    (rounds i k : ℕ) (l : List ℕ) → k < i → first_free rounds i (remove k l) ≡ first_free rounds i l
unfolding first_free
first_free-remove zero i k l lt = refl
first_free-remove (suc rounds) i k l lt =
    ground (arith, elem-remove k i l, first_free-remove rounds (suc i) k l)

-- More numbers than are taken: one is free.
first_free-some :
    (rounds i : ℕ) (l : List ℕ)
    → length l < rounds
    → (k : ℕ) × (first_free rounds i l ≡ some k) × (i ≤ k) × (k < i + rounds) × (elem k l ≡ false)
unfolding first_free
first_free-some zero i l h = absurd (omega arith)
first_free-some (suc rounds) i l h = elim (Bool-cases (elem i l)) [
  | inl taken ↦
      let (k, e, low, high, free) =
        first_free-some rounds (suc i) (remove i l) (omega (arith, length-remove i l taken)) in
      (
        k,
        rw (taken, first_free) (ground (arith, first_free-remove rounds (suc i) i l, e)),
        omega arith,
        omega arith,
        ground (arith, elem-remove i k l, free),
      )
  | inr free ↦ (i, rw (free, first_free) refl, omega arith, omega arith, free)
]

length-indices : (pool : List Worker) → length (indices pool) ≡ length pool
length-indices [] = refl
length-indices (w ∷ rest) = omega (arith, length-indices rest)

-- Whenever the pool has fewer workers than it should, whatever their indices, there is an index for
-- a new one: below the number of processes, and that of no worker in the pool.
pub avail_index-fresh :
    (processes : ℕ) (pool : List Worker)
    → length pool < processes
    → (i : ℕ) × (avail_index processes pool ≡ some i)
      × (i < processes)
      × (elem i (indices pool) ≡ false)
unfolding avail_index
avail_index-fresh processes pool h =
    let (k, e, low, high, free) =
      first_free-some processes 0 (indices pool) (omega (arith, length-indices pool)) in
    (k, ground (arith, e), omega arith, free)
