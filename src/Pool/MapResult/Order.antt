-- ===== src/Pool/MapResult/Order.antt =====
-- A whole `map`: `_map_async` makes the tasks and the result, the workers answer in any order.
use mathlib.Core.List.{flatten, map-append}
use billiard.Prelude.{
  ℕ, zero, suc, ◌+◌, ◌<◌, ◌≡◌, refl, sym, ap, ◌∙◌, true, false, some, none, List, [], ◌∷◌, ◌++◌,
  map, length, replicate, length-map, length-append, arith,
}
use billiard.Pool.Chunks.{get_tasks, batch_count}
use billiard.Pool.Chunks.Batches.{IsCut, batch_count-suc, get_tasks-partition}
use billiard.Pool.MapResult.{
  values, Callbacks, MapResult, done, Value, returns, init, Message, feed,
}
use billiard.Pool.MapResult.Layout.{Mark, layout, results, missing}
use billiard.Pool.MapResult.Assembly.{
  Holds, Fresh, arrived, answers, missing-arrived, results-arrived, feed-Holds,
}

-- The answers that the workers will give, none of which has arrived: `list(map(func, batch))`.
abbrev pub expected : {A B : Type 0} → (A → B) → List (List A) → List (Mark B)
expected f [] = []
expected f (b ∷ bs) = (false, map f b) ∷ expected f bs

replicate-add {ℓ} :
    {A : Type ℓ} (m n : ℕ) (a : A) → replicate (m + n) a ≡ replicate m a ++ replicate n a
replicate-add zero n a = rw (let e : 0 + n ≡ n = omega arith in e) refl
replicate-add (suc m) n a =
    rw (let e : suc m + n ≡ suc (m + n) = omega arith in e) (ap (◌∷◌ a) (replicate-add m n a))

-- When nothing is missing the list holds the results in the order of the batches.
layout_complete :
    {B : Type 0} (ms : List (Mark B)) → missing ms ≡ 0 → layout ms ≡ map some (flatten (results ms))
unfolding flatten
layout_complete [] h = refl
layout_complete ((true, r) ∷ ms) h = rw (layout_complete ms h) (sym (map-append some r _))
layout_complete ((false, r) ∷ ms) h = absurd (omega arith)

module _ {A B : Type 0} (f : A → B) where
  missing-expected : (bs : List (List A)) → missing (expected f bs) ≡ length bs
  missing-expected [] = refl
  missing-expected (b ∷ bs) = ap suc (missing-expected bs)

  layout-expected :
      (bs : List (List A)) → layout (expected f bs) ≡ replicate (length (flatten bs)) none
  unfolding flatten
  layout-expected [] = refl
  layout-expected (b ∷ bs) =
      rw (layout-expected bs, length-append b (flatten bs), length-map b f)
        (sym (replicate-add (length b) (length (flatten bs)) none))

  flatten-expected : (bs : List (List A)) → flatten (results (expected f bs)) ≡ map f (flatten bs)
  unfolding flatten
  flatten-expected [] = refl
  flatten-expected (b ∷ bs) = rw (flatten-expected bs, map-append f b (flatten bs)) refl

  expected-IsCut :
      (size : ℕ) (bs : List (List A)) → IsCut size bs → IsCut size (results (expected f bs))
  expected-IsCut size [] h = tt
  expected-IsCut size (b ∷ []) h = rw (length-map b f) h
  expected-IsCut size (b ∷ c ∷ bs) h = (length-map b f ∙ h.0, expected-IsCut size (c ∷ bs) h.1)

  init-Holds :
      {E : Type 0} (x : A) (xs : List A) (c : ℕ)
      → Holds {E = E} c (expected f (get_tasks (x ∷ xs) (suc c))) (init (suc c) (length (x ∷ xs)))
  unfolding init
  init-Holds x xs c =
      let (whole, count, cut) = get_tasks-partition (x ∷ xs) (suc c) (omega arith) in
      let left : missing (expected f (get_tasks (x ∷ xs) (suc c)))
          ≡ batch_count (suc (length xs)) (suc c) =
        missing-expected (get_tasks (x ∷ xs) (suc c)) ∙ count in
      record {
        sized = refl;
        filled = sym (
            ap values (
              layout-expected (get_tasks (x ∷ xs) (suc c))
              ∙ ap (λ l. replicate (length l) none) whole));
        counted = ground (arith, left);
        flagged = ground (arith, left, batch_count-suc (length xs) c);
        listed = ground (arith, left, batch_count-suc (length xs) c);
        fine = refl;
        items = refl;
      }

Holds-read :
    {B E : Type 0} {c : ℕ} (ms : List (Mark B)) (m : MapResult B E)
    → Holds c ms m
    → (0 < missing ms → (m.event ≡ false) × (m.cached ≡ true))
      × (missing ms ≡ 0
          → (m.event ≡ true)
            × (m.cached ≡ false)
            × (m.succeeded ≡ true)
            × (m.value ≡ values (map some (flatten (results ms)))))
Holds-read ms m h = (
  λ some_left. ground arith,
  λ none_left.
      (ground arith, ground arith, h.fine, h.filled ∙ ap values (layout_complete ms none_left)),
)

-- With callbacks that return, for a non-empty input and a positive batch size, and for messages that
-- answer each batch at most once with the function's results, in any order and with
-- acknowledgements in between: no message raises; as long as answers are missing the job is in the
-- cache and not ready; with the last answer it is ready, has left the cache, and its value is the
-- list of the function's results in the order of the inputs.
pub feed-map :
    {A B E : Type 0} (f : A → B) (x : A) (xs : List A) (c : ℕ) (cb : Callbacks B E)
    (msgs : List (Message B E))
    → ((v : Value B E) → returns cb.callback v ≡ true)
    → Fresh (expected f (get_tasks (x ∷ xs) (suc c))) msgs
    → (m : MapResult B E) × (feed cb (init (suc c) (length (x ∷ xs))) msgs ≡ done m)
      × (answers msgs < batch_count (length (x ∷ xs)) (suc c)
          → (m.event ≡ false) × (m.cached ≡ true))
      × (answers msgs ≡ batch_count (length (x ∷ xs)) (suc c)
          → (m.event ≡ true)
            × (m.cached ≡ false)
            × (m.succeeded ≡ true)
            × (m.value ≡ values (map some (map f (x ∷ xs)))))
feed-map {B = B} {E = E} f x xs c cb msgs quiet fresh =
    let tasks = get_tasks (x ∷ xs) (suc c) in
    let ms = expected f tasks in
    let (whole, count, cut) = get_tasks-partition (x ∷ xs) (suc c) (omega arith) in
    let (m, e, h) =
      feed-Holds cb quiet c ms (init (suc c) (length (x ∷ xs))) msgs
        (expected-IsCut f (suc c) tasks cut) fresh (init-Holds f x xs c) in
    let left = missing-arrived ms msgs fresh in
    let (partial, full) = Holds-read (arrived ms msgs) m h in
    let total = missing-expected f tasks ∙ count in
    let inputs : ◌≡◌ {A = Value B E} (values (map some (flatten (results (arrived ms msgs)))))
        (values (map some (map f (x ∷ xs)))) =
      ap (λ r. values (map some (flatten r))) (results-arrived ms msgs fresh)
      ∙ ap (λ r. values (map some r)) (flatten-expected f tasks ∙ ap (map f) whole) in
    (
      m,
      e,
      λ fewer. partial (omega arith),
      λ all.
          let (flag, gone, fine, value) = full (omega arith) in (flag, gone, fine, value ∙ inputs),
    )
