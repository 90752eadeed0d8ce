-- ===== src/Pool/ResultHandler/Tests.antt =====
-- Inputs for `ResultHandler`.
use billiard.Prelude.{ℕ, ◌≡◌, refl, Bool, true, false, none, some, List, [], ◌∷◌, arith}
use billiard.Prelude.Int.{pos}
use billiard.Pool.ResultHandler.Tracking.{Task}
use billiard.Pool.ResultHandler.Credit.{
  Event, acks, readies, exits, fresh, note_all, results_of, note_all-credit,
}
use billiard.Pool.ResultHandler.{JobClass, Handler, delivered}
use billiard.Pool.ResultHandler.Loop.{Last, running, nothing, workers_joined, finish}
use billiard.Pool.ResultHandler.Shutdown.{HasLeft, finish-HasLeft}

abbrev task : ℕ → Task
task n = record { job = n; i = none }

-- Worker 8 sends the result of task 2 between the two messages of worker 7.
abbrev traffic : List Event
traffic = acks 7 (task 1) ∷ acks 8 (task 2) ∷ readies 8 (task 2) ∷ readies 7 (task 1) ∷ exits 8 ∷ []

note_all-credit_example :
    (note_all (fresh (λ pid. some 0)) traffic).counters 8 ≡ some (results_of 8 traffic)
note_all-credit_example =
    note_all-credit 8 (λ pid. some 0) traffic refl
      ((λ q e. cc), ((λ q e. ground arith), (refl, (refl, (tt, tt)))))

-- A job is a flag; every result settles it and leaves it in the cache.
abbrev flags : JobClass Bool ℕ
flags = record {
  is_ready = λ job. job;
  set_reply = λ i obj job. record { job = true; listed = true; exn = none };
  ack = λ i time pid fd job. record { job = job; listed = true; exn = none };
}

abbrev waiting : Handler Bool
waiting = record {
  tables = fresh (λ pid. some 0);
  cache = (1, false) ∷ (2, false) ∷ [];
  putlock = some (record { value = 0; initial_value = pos 2 });
  restarts = 3;
  killed = [];
}

-- A round in which nothing comes and no worker is left.
abbrev quiet : ℕ → Last Bool ℕ
quiet now = record {
  state = running;
  check_timeouts = λ h. h;
  poll = nothing;
  join_exited_workers = workers_joined;
  now = now;
}

finish-HasLeft_example :
    HasLeft
      (finish flags (λ pid. delivered) 2 (quiet 5 ∷ quiet 6 ∷ quiet 7 ∷ quiet 8 ∷ []) none waiting)
finish-HasLeft_example =
    finish-HasLeft flags (λ pid. delivered) 2 5 (quiet 5 ∷ quiet 6 ∷ quiet 7 ∷ quiet 8 ∷ []) waiting
      (omega arith) (omega arith)
      (
        λ h. (h, refl),
        tt,
        omega arith,
        (
          λ h. (h, refl),
          tt,
          omega arith,
          (λ h. (h, refl), tt, omega arith, (λ h. (h, refl), tt, omega arith, tt)),
        ),
      )
