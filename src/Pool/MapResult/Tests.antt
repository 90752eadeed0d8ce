-- ===== src/Pool/MapResult/Tests.antt =====
-- Inputs for `MapResult`.
use billiard.Prelude.{ℕ, ◌+◌, ◌<◌, ◌≡◌, refl, true, false, none, some, List, [], ◌∷◌, map}
use billiard.Pool.Chunks.{get_tasks, batch_count}
use billiard.Pool.MapResult.{
  success, values, Callbacks, MapResult, done, init, ack, Message, ready, acked, feed, fill,
  is_accepted, all_true, worker_pids, pids,
}
use billiard.Pool.MapResult.Assembly.{answers}
use billiard.Pool.MapResult.Order.{feed-map}

abbrev double : ℕ → ℕ
double n = n + n

abbrev silent : Callbacks ℕ ℕ
silent = record { callback = none; error_callback = none }

-- The last batch answers first; batch 0 is acknowledged in between.
abbrev backwards : List (Message ℕ ℕ)
backwards =
    ready (some 2) (success (10 ∷ []))
    ∷ acked 0 7 41
    ∷ ready (some 0) (success (2 ∷ 4 ∷ []))
    ∷ ready (some 1) (success (6 ∷ 8 ∷ []))
    ∷ []

ack-first :
    let m : MapResult ℕ ℕ = ack 0 7 41 (init 2 5) in
    (is_accepted m ≡ false) × (worker_pids m ≡ 41 ∷ 41 ∷ [])
unfolding ack init fill is_accepted all_true worker_pids pids
ack-first = (refl, refl)

feed-map_example :
    (m : MapResult ℕ ℕ) × (feed silent (init 2 5) backwards ≡ done m)
    × (answers backwards < batch_count 5 2 → (m.event ≡ false) × (m.cached ≡ true))
    × (answers backwards ≡ batch_count 5 2
        → (m.event ≡ true)
          × (m.cached ≡ false)
          × (m.succeeded ≡ true)
          × (m.value ≡ values (map some (map double (1 ∷ 2 ∷ 3 ∷ 4 ∷ 5 ∷ [])))))
unfolding get_tasks
feed-map_example =
    feed-map double 1 (2 ∷ 3 ∷ 4 ∷ 5 ∷ []) 1 silent backwards (λ v. refl) (refl, (refl, (refl, tt)))
