-- ===== src/Pool/TaskHandler/Tests.antt =====
-- The task thread on concrete tasks.
use billiard.Prelude.{ℕ, ◌≡◌, refl, true, false, some, List, [], ◌∷◌, ◌++◌}
use billiard.Pool.TaskHandler.{
  Put, sends, unsendable, Task, TaskSeq, Entry, missing, takes, args, filed, result_sentinel,
  worker_sentinel, continues, stop, walk, walk_all, tell_workers, tell_others, body, on_exception,
}
use billiard.Pool.TaskHandler.Delivery.{expected, sentinels, body-expected}

abbrev task : ℕ → ℕ → Put → Task
task job i put = record { job = job; ind = some i; put = put; stopping = false }

abbrev nobody : ℕ → Entry
nobody key = missing

abbrev somebody : ℕ → Entry
somebody key = takes

abbrev entries : List ((ℕ → Entry) × TaskSeq)
entries =
    (
      nobody,
      record {
        tasks = task 7 0 sends ∷ task 7 1 sends ∷ [];
        iter_raises = false;
        has_set_length = true;
      },
    )
    ∷ (nobody, record { tasks = task 8 0 sends ∷ []; iter_raises = false; has_set_length = false })
    ∷ []

body-expected_example :
    body entries true (true ∷ true ∷ [])
    ≡ stop continues (expected entries ++ result_sentinel ∷ sentinels (true ∷ true ∷ []))
body-expected_example =
    body-expected entries (true ∷ true ∷ [])
      (refl, (refl, refl, (refl, refl, tt)), (refl, (refl, refl, tt), tt)) (refl, (refl, tt))

-- A task of job 7 that cannot be pickled fails job 2.
abbrev unsent : List ((ℕ → Entry) × TaskSeq)
unsent =
    (
      somebody,
      record { tasks = task 7 0 unsendable ∷ []; iter_raises = false; has_set_length = false },
    )
    ∷ []

body-unsent :
    body unsent true (true ∷ [])
    ≡ stop continues (filed 2 (args (task 7 0 unsendable)) ∷ result_sentinel ∷ worker_sentinel ∷ [])
unfolding body walk_all walk tell_others tell_workers on_exception
body-unsent = refl
