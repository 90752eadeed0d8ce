-- ===== src/Pool/Chunks/Batches.antt =====
-- The batches of `map` lose nothing, have the promised number and the promised sizes.
use mathlib.Core.List.{flatten}
use billiard.Prelude.{
  ℕ, zero, suc, ◌+◌, ◌-◌, ◌*◌, ◌≤◌, ◌<◌, ◌≡◌, ◌≢◌, refl, some, List, [], ◌∷◌, ap, sym, ◌∙◌,
  le_or_lt, inl, inr, length, take, drop, take-append-drop, length-drop, length-take, arith,
}
use native.Mathlib.Nat.{
  div-eq-sub-div, div-eq_of_lt, mod-eq_of_lt, mod-eq-sub-mod, zero-div, zero-mod, mul-le-mul_right,
  div-add-mod', mod-lt,
}
use billiard.Pool.Chunks.{batches, get_tasks, batch_count, default_chunksize}

-- All batches but the last hold exactly `size` items, and the last holds from 1 to `size`.
abbrev pub IsCut {ℓ} : {A : Type ℓ} → ℕ → List (List A) → Type 0
IsCut size [] = Unit
IsCut size (b ∷ []) = (0 < length b) × (length b ≤ size)
IsCut size (b ∷ c ∷ bs) = (length b ≡ size) × IsCut size (c ∷ bs)

IsCut-cons {ℓ} :
    {A : Type ℓ} {size : ℕ} (b : List A) (bs : List (List A))
    → 0 < length b
    → length b ≤ size
    → (bs ≢ [] → length b ≡ size)
    → IsCut size bs
    → IsCut size (b ∷ bs)
IsCut-cons b [] pos low full cut = (pos, low)
IsCut-cons b (c ∷ bs) pos low full cut = (full (λ e. cc), cut)

batches-nil {ℓ} : {A : Type ℓ} (rounds size : ℕ) → batches {A = A} rounds size [] ≡ []
unfolding batches
batches-nil zero size = refl
batches-nil (suc rounds) zero = refl
batches-nil (suc rounds) (suc size) = refl

batch_count-zero : (size : ℕ) → batch_count 0 (suc size) ≡ 0
unfolding batch_count
batch_count-zero size = grind arith

-- One batch more than what the items beyond the first batch need.
pub batch_count-suc :
    (n size : ℕ) → batch_count (suc n) (suc size) ≡ suc (batch_count (n - size) (suc size))
unfolding batch_count
batch_count-suc n size = elim (le_or_lt (suc size) (suc n)) [
  | inl many ↦
      let e : suc n - suc size ≡ n - size = omega arith in
      ground (
        arith,
        e,
        div-eq-sub-div {m = suc size} {n = suc n} (omega arith) many,
        mod-eq-sub-mod {n = suc n} {m = suc size} many,
      )
  | inr few ↦
      let e : n - size ≡ 0 = omega arith in
      rw e (
        ground
          (arith, div-eq_of_lt few, mod-eq_of_lt few, zero-div (suc size), zero-mod (suc size)))
]

module _ {ℓ} {A : Type ℓ} where
  -- With a positive size the first batch takes the first items, and the rest is cut on.
  batches-cons :
      (rounds size : ℕ) (x : A) (xs : List A)
      → batches (suc rounds) (suc size) (x ∷ xs)
        ≡ (x ∷ take size xs) ∷ batches rounds (suc size) (drop size xs)
  unfolding batches
  batches-cons rounds size x xs = refl

  flatten-batches :
      (rounds size : ℕ) (it : List A)
      → length it ≤ rounds
      → flatten (batches rounds (suc size) it) ≡ it
  unfolding flatten
  flatten-batches zero size [] h = rw (batches-nil {A = A} zero (suc size)) refl
  flatten-batches zero size (x ∷ xs) h = absurd (omega arith)
  flatten-batches (suc rounds) size [] h = rw (batches-nil (suc rounds) (suc size)) refl
  flatten-batches (suc rounds) size (x ∷ xs) h =
      rw
        (
          batches-cons rounds size x xs,
          flatten-batches rounds size (drop size xs) (omega (arith, length-drop size xs)),
        )
        (ap (◌∷◌ x) (take-append-drop size xs))

  length-batches :
      (rounds size : ℕ) (it : List A)
      → length it ≤ rounds
      → length (batches rounds (suc size) it) ≡ batch_count (length it) (suc size)
  length-batches zero size [] h =
      rw (batches-nil {A = A} zero (suc size)) (sym (batch_count-zero size))
  length-batches zero size (x ∷ xs) h = absurd (omega arith)
  length-batches (suc rounds) size [] h =
      rw (batches-nil {A = A} (suc rounds) (suc size)) (sym (batch_count-zero size))
  length-batches (suc rounds) size (x ∷ xs) h = rw (batches-cons rounds size x xs) (
      omega (
        arith,
        length-drop size xs,
        batch_count-suc (length xs) size,
        length-batches rounds size (drop size xs),
        ap (λ n. batch_count n (suc size)) (length-drop size xs),
      ))

  full_before_more :
      (rounds size : ℕ) (xs rest : List A)
      → drop size xs ≡ rest
      → batches rounds (suc size) (drop size xs) ≢ []
      → length (take size xs) ≡ size
  full_before_more rounds size xs [] e more =
      absurd (more (rw (e, batches-nil {A = A} rounds (suc size))))
  full_before_more rounds size xs (y ∷ ys) e more =
      omega (arith, length-take size xs, length-drop size xs, ap length e)

  batches-IsCut :
      (rounds size : ℕ) (it : List A)
      → length it ≤ rounds
      → IsCut (suc size) (batches rounds (suc size) it)
  batches-IsCut zero size [] h = rw (batches-nil {A = A} zero (suc size)) tt
  batches-IsCut zero size (x ∷ xs) h = absurd (omega arith)
  batches-IsCut (suc rounds) size [] h = rw (batches-nil {A = A} (suc rounds) (suc size)) tt
  batches-IsCut (suc rounds) size (x ∷ xs) h = rw (batches-cons rounds size x xs) (
      IsCut-cons (x ∷ take size xs) (batches rounds (suc size) (drop size xs)) (omega arith)
        (omega (arith, length-take size xs))
        (λ more. ap suc (full_before_more rounds size xs (drop size xs) refl more))
        (batches-IsCut rounds size (drop size xs) (omega (arith, length-drop size xs))))

-- A number of batches is the least that covers the items.
batch_count_bounds :
    (n size : ℕ)
    → (n ≤ batch_count n (suc size) * suc size) × (batch_count n (suc size) * suc size ≤ n + size)
unfolding batch_count
batch_count_bounds n size =
    ground (arith, div-add-mod' n (suc size), mod-lt n {m = suc size} (omega arith))

default_chunksize-some :
    (n w : ℕ) → default_chunksize (suc n) (suc w) ≡ some (batch_count (suc n) (suc w * 4))
unfolding default_chunksize batch_count
default_chunksize-some n w = ground arith

-- For every positive batch size: the batches put together are the input, in order; there are as many
-- as `MapResult` expects; all but the last are of exactly that size, and the last is not empty.
pub get_tasks-partition {ℓ} :
    {A : Type ℓ} (it : List A) (size : ℕ)
    → 0 < size
    → (flatten (get_tasks it size) ≡ it)
      × (length (get_tasks it size) ≡ batch_count (length it) size)
      × IsCut size (get_tasks it size)
unfolding get_tasks
get_tasks-partition it zero h = absurd (omega arith)
get_tasks-partition it (suc size) h = (
  flatten-batches (length it) size it (omega arith),
  length-batches (length it) size it (omega arith),
  batches-IsCut (length it) size it (omega arith),
)

le_of_scaled : (b m c : ℕ) → b * suc c ≤ m * suc c + c → b ≤ m
le_of_scaled b m c h = elim (le_or_lt b m) [
  | inl low ↦ low
  | inr high ↦ absurd (omega (arith, mul-le-mul_right (suc c) high))
]

-- With the least size that makes k + 1 batches enough, no more are needed.
fits-count : (n k c : ℕ) → batch_count n (suc k) ≡ suc c → batch_count n (suc c) ≤ suc k
fits-count n k c e = le_of_scaled (batch_count n (suc c)) (suc k) c (
    omega
      (arith, (batch_count_bounds n k).0, (batch_count_bounds n c).1, ap (λ (t : ℕ). t * suc k) e))

count_pos : (n k : ℕ) → (c : ℕ) × (batch_count (suc n) (suc k) ≡ suc c)
count_pos n k = (batch_count (n - k) (suc k), batch_count-suc n k)

-- For a non-empty input and a pool with workers the default batch size is positive, and no more than
-- four batches are made for each worker.
pub default_chunksize_tasks {ℓ} :
    {A : Type ℓ} (x : A) (xs : List A) (w : ℕ)
    → (c : ℕ) × (default_chunksize (length (x ∷ xs)) (suc w) ≡ some c)
      × (0 < c)
      × (length (get_tasks (x ∷ xs) c) ≤ suc w * 4)
default_chunksize_tasks x xs w =
    let (c, e) = count_pos (length xs) (3 + w * 4) in
    let four : suc w * 4 ≡ suc (3 + w * 4) = omega arith in
    (
      suc c,
      default_chunksize-some (length xs) w ∙ ap some (ap (batch_count (suc (length xs))) four ∙ e),
      omega arith,
      omega (
        arith,
        (get_tasks-partition (x ∷ xs) (suc c) (omega arith)).1,
        fits-count (suc (length xs)) (3 + w * 4) c e,
      ),
    )
