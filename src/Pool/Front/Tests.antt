-- ===== src/Pool/Front/Tests.antt =====
-- A pool and its caller.
use billiard.Prelude.{ℕ, ◌≡◌, refl, true, false, none, some, List, [], ◌∷◌}
use billiard.Prelude.Int.{pos}
use billiard.Pool.Semaphore.{acquire, clear, clear_rounds}
use billiard.Pool.Chunks.{get_tasks, batches}
use billiard.Pool.Front.{one, batch, iterated, apply_async, resume, imap}
use billiard.Pool.Front.Lifecycle.{
  Process, close, terminate, join, terminate_pool, terminate_live, join_live, terminate_process,
  join_process, stop_worker_handler, stop_task_handler, stop_result_handler,
  terminate_worker_handler, terminate_task_handler, help_stuff_finish, result_sentinel,
  close_queues, Life,
}
use billiard.Pool.Front.Calls.{
  Op, applies, imaps, closes, terminates, joins, fresh, step, run, begin, resumes, late,
}

abbrev crew : List Process
crew =
    record { pid = 11; is_started = true; is_alive = true }
    ∷ record { pid = 12; is_started = true; is_alive = false }
    ∷ []

abbrev new_pool : Life ℕ
new_pool = fresh true false (some (record { value = 2; initial_value = pos 2 })) crew false

abbrev calls : List (Op ℕ)
calls =
    applies (some true) 5
    ∷ imaps iterated (1 ∷ 2 ∷ 3 ∷ []) 2
    ∷ closes
    ∷ applies none 6
    ∷ terminates
    ∷ joins
    ∷ []

-- The second `applies` comes too late.
queue_of_calls :
    (run calls (begin new_pool)).life.front.taskqueue
    ≡ some (record { job = 0; tasks = (none, one 5) ∷ []; has_set_length = false })
      ∷ some (record {
        job = 1;
        tasks = (some 0, batch (1 ∷ 2 ∷ [])) ∷ (some 1, batch (3 ∷ [])) ∷ [];
        has_set_length = true;
      })
      ∷ none
      ∷ none
      ∷ []
unfolding run step apply_async imap close terminate join terminate_pool get_tasks batches acquire
    clear clear_rounds
queue_of_calls = refl

-- The worker handler has ended before the workers are terminated.
log_of_terminate :
    (terminate new_pool).log
    ≡ terminate_worker_handler
      ∷ terminate_worker_handler
      ∷ terminate_task_handler
      ∷ help_stuff_finish
      ∷ result_sentinel
      ∷ stop_worker_handler
      ∷ terminate_process 11
      ∷ stop_task_handler
      ∷ stop_result_handler
      ∷ join_process 11
      ∷ close_queues
      ∷ []
unfolding terminate terminate_pool terminate_live join_live
log_of_terminate = refl

-- Two slots, and three callers that want one; the pool is closed while the third waits.
abbrev late_calls : List (Op ℕ)
late_calls =
    applies (some true) 5 ∷ applies (some true) 6 ∷ applies (some true) 7 ∷ closes ∷ resumes ∷ []

-- The third job is behind the sentinel.
one_late : late (run late_calls (begin new_pool)).life.front.taskqueue ≡ 1
unfolding run step apply_async resume close acquire clear clear_rounds
one_late = refl
