-- ===== src/Pool/ResultHandler/Tracking.antt =====
-- billiard/pool.py, `ResultHandler._make_methods`: which worker runs which task, and the counters of
-- results that were consumed.
use billiard.Prelude.{ℕ, ◌+◌, Bool, true, false, Option, none, some, ◌==◌, ◌&&◌, if◌then◌else◌}

-- `(job, i)`; the index is None for `apply_async`.
pub record Task : Type 0 where
  pub job : ℕ
  pub i : Option ℕ

abbrev pub index_eq : Option ℕ → Option ℕ → Bool
index_eq none none = true
index_eq none (some j) = false
index_eq (some i) none = false
index_eq (some i) (some j) = i == j

unfoldable pub task_eq : Task → Task → Bool
task_eq a b = a.job == b.job && index_eq a.i b.i

-- The two dicts and the counters by worker, as functions; a key that is not there has none.
pub record Tables : Type 0 where
  pub worker_tasks : ℕ → Option Task
  pub task_workers : Task → Option ℕ
  pub counters : ℕ → Option ℕ

abbrev pub put_worker : ℕ → Option Task → (ℕ → Option Task) → ℕ → Option Task
put_worker pid v d q = if q == pid then v else d q

abbrev pub put_task : Task → Option ℕ → (Task → Option ℕ) → Task → Option ℕ
put_task t v d u = if task_eq u t then v else d u

-- `task_workers.pop(worker_tasks.pop(pid, None), None)`, also all of `on_worker_exit`
unfoldable pub note_exit : ℕ → Tables → Tables
note_exit pid s = record s {
  worker_tasks = put_worker pid none s.worker_tasks;
  task_workers = elim (s.worker_tasks pid) [
    | none ↦ s.task_workers
    | some t ↦ put_task t none s.task_workers
  ];
}

-- The tables in `on_ack`.
unfoldable pub note_ack : Task → ℕ → Tables → Tables
unfolding note_exit
note_ack t pid s =
    let s' = note_exit pid s in
    record s' {
      worker_tasks = put_worker pid (some t) s'.worker_tasks;
      task_workers = put_task t (some pid) s'.task_workers;
    }

abbrev pub bump : Option ℕ → Option ℕ
bump none = none
bump (some n) = some (n + 1)

-- The tables and the counter in `on_ready`.
unfoldable pub note_ready : Task → Tables → Tables
note_ready t s = elim (s.task_workers t) [
  | none ↦ s
  | some pid ↦ record s {
    worker_tasks = put_worker pid none s.worker_tasks;
    task_workers = put_task t none s.task_workers;
    counters = λ q. if q == pid then bump (s.counters q) else s.counters q;
  }
]
