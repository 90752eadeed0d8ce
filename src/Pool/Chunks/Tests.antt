-- ===== src/Pool/Chunks/Tests.antt =====
-- Inputs for the batches of `map`.
use mathlib.Core.List.{flatten}
use billiard.Prelude.{ℕ, ◌≡◌, refl, List, [], ◌∷◌, length, arith}
use billiard.Pool.Chunks.{get_tasks, batch_count}
use billiard.Pool.Chunks.Batches.{IsCut, get_tasks-partition}

abbrev five : List ℕ
five = 1 ∷ 2 ∷ 3 ∷ 4 ∷ 5 ∷ []

get_tasks-five : get_tasks five 2 ≡ (1 ∷ 2 ∷ []) ∷ (3 ∷ 4 ∷ []) ∷ (5 ∷ []) ∷ []
unfolding get_tasks
get_tasks-five = refl

get_tasks-partition_example :
    (flatten (get_tasks five 2) ≡ five)
    × (length (get_tasks five 2) ≡ batch_count 5 2)
    × IsCut 2 (get_tasks five 2)
get_tasks-partition_example = get_tasks-partition five 2 (omega arith)
