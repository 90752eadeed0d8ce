-- ===== src/Pool/Workers/Tests.antt =====
-- The pool of workers on concrete processes.
use billiard.Prelude.{
  ℕ, ◌≡◌, refl, true, false, Option, none, some, List, [], ◌∷◌, length, arith, min,
}
use billiard.Prelude.Int.{ℤ, pos, negsuc, ◌-ℤ◌}
use billiard.Prelude.Dict.{Dict, lookup, insert}
use billiard.Common.RestartState.{init}
use billiard.Pool.Workers.{Worker, has_exited, is_clean, PoolState, IsSlotted}
use billiard.Pool.Workers.Refill.{Births, done, repopulate_pool}
use billiard.Pool.Workers.Fill.{Fills, repopulate_pool-Fills}
use billiard.Pool.Workers.Maintain.{maintain_pool, maintain_pool-clean}
use billiard.Pool.Workers.Reap.{Job, leaves, Reaped, reap, process_down, look_after, is_overdue}
use billiard.Pool.Workers.Forgets.{look_after-forgets}
use billiard.Pool.Workers.Resize.{
  Shrunk, pid_active, shrink_from, worker_active, shrink, value_error,
}

abbrev worker : ℕ → ℕ → Option ℤ → Worker
worker pid index exitcode = record {
  pid = pid;
  index = index;
  started = true;
  exitcode = exitcode;
  controlled_termination = false;
  job_terminated = false;
}

-- Worker 12 died of signal 11, and 13 has done its share.
abbrev crew : List Worker
crew = worker 11 0 none ∷ worker 12 1 (some (negsuc 10)) ∷ worker 13 2 (some (pos 0x9B)) ∷ []

abbrev survivors : List Worker
survivors = worker 11 0 none ∷ worker 14 2 none ∷ []

abbrev state : PoolState
state = record {
  processes = 4;
  pool = survivors;
  restart_state = init (some 3) 60;
  putlock = some (record { value = 3; initial_value = pos 4 });
}

abbrev births : Births
births = record { running = λ i. true; clock = λ i. 100; starts = λ i. true; new_pid = λ i. i }

abbrev waiting_job : ℕ → Option (ℕ × Option ℤ) → Job
waiting_job pid lost = record {
  is_ready = false;
  worker_pids = pid ∷ [];
  lost = lost;
  lost_worker_timeout = 10;
  settling = leaves;
  links = some (none, none);
}

abbrev cache : Dict Job
cache = (7, waiting_job 12 none) ∷ (8, waiting_job 11 none) ∷ []

reap-crew : reap crew ≡ record {
  kept = worker 11 0 none ∷ [];
  cleaned = (13, worker 13 2 (some (pos 0x9B))) ∷ (12, worker 12 1 (some (negsuc 10))) ∷ [];
  exitcodes = (13, some (pos 0x9B)) ∷ (12, some (negsuc 10)) ∷ [];
}
unfolding reap has_exited insert lookup is_clean
reap-crew = refl

state-IsSlotted : IsSlotted state
state-IsSlotted = record { distinct = (refl, (refl, tt)); below = (omega arith, (omega arith, tt)) }

repopulate_pool-Fills_example : Fills 4 (repopulate_pool births (some (negsuc 10) ∷ []) state)
repopulate_pool-Fills_example =
    repopulate_pool-Fills births (some (negsuc 10) ∷ []) state (λ j. refl) (omega arith)
      state-IsSlotted

maintain_pool-clean_example :
    (t : PoolState) × (maintain_pool births (some (pos 0) ∷ some (pos 0x9B) ∷ []) state ≡ done t)
    × (length t.pool ≡ 4)
    × (t.restart_state ≡ init (some 3) 60)
    × (t.putlock ≡ some (record { value = min 5 4; initial_value = pos 4 }))
unfolding is_clean
maintain_pool-clean_example =
    maintain_pool-clean births (some (pos 0) ∷ some (pos 0x9B) ∷ []) state
      (record { value = 3; initial_value = pos 4 }) 4 (λ j. refl) (λ j. refl) (omega arith)
      (refl, (refl, tt)) refl refl (omega arith)

-- A moment later worker 13 is reaped.
abbrev second : Reaped
second = record {
  kept = worker 11 0 none ∷ [];
  cleaned = (13, worker 13 2 (some (pos 0x9B))) ∷ [];
  exitcodes = (13, some (pos 0x9B)) ∷ [];
}

look_after-forgets_example :
    (job' : Job) × (look_after 105 second 7 (waiting_job 12 (some (100, some (negsuc 10))))
      ≡ some (job', process_down 7 12 ∷ []))
    × (job'.lost ≡ some (105, some (pos 0)))
    × (is_overdue 111 (waiting_job 12 (some (100, some (negsuc 10)))) ≡ some (some (negsuc 10)))
    × (is_overdue 111 job' ≡ none)
unfolding lookup
look_after-forgets_example =
    look_after-forgets 105 111 7 12 100 (some (negsuc 10)) second
      (waiting_job 12 (some (100, some (negsuc 10)))) refl refl refl refl refl refl (omega arith)
      (omega arith)

abbrev full_strength : Shrunk
full_strength = record { processes = pos 3; lowered = 0; terminated = [] }

-- Two of the three are idle: asked for three, `shrink` stops two and raises.
shrink_three :
    shrink 3 ((8, waiting_job 11 none) ∷ []) crew full_strength
    ≡ value_error (record { processes = pos 1; lowered = 2; terminated = 12 ∷ 13 ∷ [] })
unfolding shrink shrink_from worker_active pid_active ◌-ℤ◌
shrink_three = refl

abbrev full_state : PoolState
full_state = record state { processes = 2 }
