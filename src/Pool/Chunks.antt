-- ===== src/Pool/Chunks.antt =====
-- billiard/pool.py: how `map` cuts its input into batches (`_get_tasks`, `_map_async`,
-- `MapResult.__init__`).
pub mod Batches
mod Tests
use billiard.Prelude.{
  ℕ, zero, suc, ◌+◌, ◌*◌, ◌/◌, ◌%◌, Option, none, some, List, [], ◌∷◌, length, take, drop, ◌==◌,
  if◌then◌else◌,
}

-- `itertools.islice(it, size)` until it is empty; each round with a batch takes at least one item,
-- so the number of items bounds the rounds.
unfoldable pub batches {ℓ} : {A : Type ℓ} → ℕ → ℕ → List A → List (List A)
batches zero size it = []
batches (suc rounds) size it =
    let rest = batches rounds size (drop size it) in
    elim (take size it) [ [] ↦ [] | x ∷ xs ↦ (x ∷ xs) ∷ rest ]

-- `Pool._get_tasks`, without the function that it puts beside each batch.
unfoldable pub get_tasks {ℓ} : {A : Type ℓ} → List A → ℕ → List (List A)
unfolding batches
get_tasks it size = batches (length it) size it

-- `length // chunksize + bool(length % chunksize)`
unfoldable pub batch_count : ℕ → ℕ → ℕ
batch_count n size = n / size + (if n % size == 0 then 0 else 1)

-- The default of `_map_async` for `chunksize`; none is the ZeroDivisionError of an empty pool, which
-- comes before the test for an empty input.
unfoldable pub default_chunksize : ℕ → ℕ → Option ℕ
default_chunksize n workers =
    if workers * 4 == 0
    then none
    else some (
        if n == 0
        then 0
        else (let quotient = n / (workers * 4) in
            if n % (workers * 4) == 0 then quotient else quotient + 1))
