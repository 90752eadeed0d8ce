-- ===== src/Pool/ResultHandler/Credit.antt =====
-- Every result is credited to the worker that sent it.
use billiard.Prelude.{
  ℕ, ◌+◌, ◌≡◌, ◌≢◌, refl, ◌∙◌, ap, inl, inr, true, Option, none, some, List, [], ◌∷◌, ◌==◌,
  if◌then◌else◌, arith, Option-cases,
}
use billiard.Pool.ResultHandler.Tracking.{
  Task, Tables, task_eq, put_worker, note_ack, note_ready, note_exit, bump,
}

-- What the workers do: one acknowledges a task, sends the result of its task, or exits. The message
-- of a result does not name its worker.
pub data Event : Type 0 where
  acks : ℕ → Task → Event
  readies : ℕ → Task → Event
  exits : ℕ → Event

-- The task that each worker is running.
abbrev pub Running : Type 0
Running = ℕ → Option Task

abbrev pub moved : Event → Running → Running
moved (acks pid t) run = put_worker pid (some t) run
moved (readies pid t) run = put_worker pid none run
moved (exits pid) run = put_worker pid none run

-- A task is acknowledged by a worker while no worker runs it, and its result comes from its worker.
abbrev pub Permitted : Event → Running → Type 0
Permitted (acks pid t) run = (q : ℕ) → run q ≢ some t
Permitted (readies pid t) run = run pid ≡ some t
Permitted (exits pid) run = Unit {0}

abbrev pub Protocol : Running → List Event → Type 0
Protocol run [] = Unit
Protocol run (e ∷ events) = Permitted e run × Protocol (moved e run) events

abbrev pub noted : Event → Tables → Tables
noted (acks pid t) s = note_ack t pid s
noted (readies pid t) s = note_ready t s
noted (exits pid) s = note_exit pid s

unfoldable pub note_all : Tables → List Event → Tables
note_all s [] = s
note_all s (e ∷ events) = note_all (noted e s) events

-- How many results a worker has sent.
abbrev pub results_of : ℕ → List Event → ℕ
results_of q [] = 0
results_of q (acks pid t ∷ events) = results_of q events
results_of q (readies pid t ∷ events) = (if q == pid then 1 else 0) + results_of q events
results_of q (exits pid ∷ events) = results_of q events

-- The handler before the first message.
abbrev pub fresh : (ℕ → Option ℕ) → Tables
fresh counters = record {
  worker_tasks = λ pid. none;
  task_workers = λ t. none;
  counters = counters;
}

task_eq→eq : (a b : Task) → task_eq a b ≡ true → a ≡ b
unfolding task_eq
task_eq→eq a b h = ground arith

task_eq_refl : (a : Task) → task_eq a a ≡ true
unfolding task_eq
task_eq_refl a = ground arith

-- The tables are those of the workers' tasks, both ways.
record Agrees (run : Running) (s : Tables) : Type 0 where
  forth : (pid : ℕ) → s.worker_tasks pid ≡ run pid
  back : (t : Task) (pid : ℕ) → s.task_workers t ≡ some pid → run pid ≡ some t
  known : (t : Task) (pid : ℕ) → run pid ≡ some t → s.task_workers t ≡ some pid

exit-Agrees :
    (run : Running) (s : Tables) (pid : ℕ)
    → Agrees run s
    → Agrees (put_worker pid none run) (note_exit pid s)
unfolding note_exit
exit-Agrees run s pid h = elim (Option-cases (s.worker_tasks pid)) [
  | inl idle ↦ record {
    forth = λ q. ground (arith, h.forth q);
    back = λ t q e. ground (arith, h.back t q, h.forth pid);
    known = λ t q e. ground (arith, h.known t q);
  }
  | inr (u, busy) ↦ record {
    forth = λ q. ground (arith, h.forth q);
    back = λ t q e. ground (arith, h.back t q, h.forth pid, task_eq_refl t);
    known = λ t q e. ground (arith, h.known t q, h.known u pid, h.forth pid, task_eq→eq t u);
  }
]

ack-Agrees :
    (run : Running) (s : Tables) (pid : ℕ) (t : Task)
    → ((q : ℕ) → run q ≢ some t)
    → Agrees run s
    → Agrees (put_worker pid (some t) run) (note_ack t pid s)
unfolding note_ack
ack-Agrees run s pid t free h =
    let h' = exit-Agrees run s pid h in
    record {
      forth = λ q. ground (arith, h'.forth q);
      back = λ u q e. ground (arith, h'.back u q, task_eq→eq u t);
      known = λ u q e. ground (arith, h'.known u q, task_eq→eq u t, task_eq_refl t, free q);
    }

ready-Agrees :
    (run : Running) (s : Tables) (pid : ℕ) (t : Task)
    → run pid ≡ some t
    → Agrees run s
    → Agrees (put_worker pid none run) (note_ready t s)
      × ((q : ℕ)
          → (note_ready t s).counters q ≡ (if q == pid then bump (s.counters q) else s.counters q))
unfolding note_ready
ready-Agrees run s pid t busy h =
    rw (h.known t pid busy, note_ready)
      (
        record {
          forth = λ q. ground (arith, h.forth q);
          back = λ u q e. ground (arith, h.back u q, task_eq_refl t);
          known = λ u q e. ground (arith, h.known u q, h.known t pid busy, task_eq→eq u t);
        },
        λ q. refl,
      )

module _ (q : ℕ) where
  -- One event keeps the tables, and counts a result of worker q.
  noted-Agrees :
      (run : Running) (s : Tables) (e : Event) (n : ℕ)
      → Permitted e run
      → s.counters q ≡ some n
      → Agrees run s
      → Agrees (moved e run) (noted e s)
        × ((noted e s).counters q ≡ some (n + results_of q (e ∷ [])))
  unfolding note_ack note_exit
  noted-Agrees run s (acks pid t) n ok c h =
      (ack-Agrees run s pid t ok h, c ∙ ap some (omega arith))
  noted-Agrees run s (readies pid t) n ok c h =
      let (agrees, count) = ready-Agrees run s pid t ok h in (agrees, count q ∙ ground arith)
  noted-Agrees run s (exits pid) n ok c h = (exit-Agrees run s pid h, c ∙ ap some (omega arith))

  results_of-cons :
      (e : Event) (events : List Event)
      → results_of q (e ∷ events) ≡ results_of q (e ∷ []) + results_of q events
  results_of-cons (acks pid t) events = omega arith
  results_of-cons (readies pid t) events = omega arith
  results_of-cons (exits pid) events = omega arith

  note_all-counts :
      (run : Running) (s : Tables) (events : List Event) (n : ℕ)
      → Protocol run events
      → s.counters q ≡ some n
      → Agrees run s
      → (note_all s events).counters q ≡ some (n + results_of q events)
  unfolding note_all
  note_all-counts run s [] n ok c h = c ∙ ap some (omega arith)
  note_all-counts run s (e ∷ events) n ok c h =
      let (agrees, count) = noted-Agrees run s e n ok.0 c h in
      note_all-counts (moved e run) (noted e s) events (n + results_of q (e ∷ [])) ok.1 count agrees
      ∙ ap some (omega (arith, results_of-cons e events))

-- A fresh handler that knows worker q, fed with any interleaving of the messages of any number of
-- workers, in which a worker acknowledges only tasks that nobody runs and sends results only of its
-- own task: the counter of q is the number of results that q sent, although no result says whose it is,
-- and also where a worker dropped a task after its acknowledgement or died in between.
pub note_all-credit :
    (q : ℕ) (counters : ℕ → Option ℕ) (events : List Event)
    → counters q ≡ some 0
    → Protocol (λ pid. none) events
    → (note_all (fresh counters) events).counters q ≡ some (results_of q events)
note_all-credit q counters events known ok =
    note_all-counts q (λ pid. none) (fresh counters) events 0 ok known
      (record { forth = λ pid. refl; back = λ t pid e. cc; known = λ t pid e. cc })
    ∙ ap some (omega arith)
