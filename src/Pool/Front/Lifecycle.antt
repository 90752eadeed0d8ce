-- ===== src/Pool/Front/Lifecycle.antt =====
-- `Pool.close`, `terminate`, `join` and `_terminate_pool`: the end of a pool.
use billiard.Prelude.{ℕ, Bool, true, false, Option, none, some, List, [], ◌∷◌, ◌++◌, if◌then◌else◌}
use billiard.Pool.Semaphore.{Semaphore, clear}
use billiard.Pool.Front.{closed, terminated, is_running, Front}

-- A process of the pool: its pid, whether it was started, and whether it lives when it is looked at.
pub record Process : Type 0 where
  pub pid : ℕ
  pub is_started : Bool
  pub is_alive : Bool

-- What is done to the outside.
pub data Action : Type 0 where
  -- the state of a thread
  close_worker_handler terminate_worker_handler terminate_task_handler terminate_timeout_handler :
      Action
  -- the wait for a thread to end
  stop_worker_handler stop_task_handler stop_result_handler stop_timeout_handler : Action
  help_stuff_finish result_sentinel close_queues : Action
  terminate_process join_process : ℕ → Action

-- The pool, whether its finalizer has run, and what it did so far.
pub record Life (A : Type 0) : Type 0 where
  pub front : Front A
  pub finalized : Bool
  pub has_timeout_handler : Bool
  pub processes : List Process
  pub log : List Action

-- `if p._is_alive(): p.terminate()`
unfoldable pub terminate_live : List Process → List Action
terminate_live [] = []
terminate_live (p ∷ ps) =
    let rest = terminate_live ps in if p.is_alive then terminate_process p.pid ∷ rest else rest

-- `if p.is_alive(): if p._popen is not None: p.join()`
unfoldable pub join_live : List Process → List Action
join_live [] = []
join_live (p ∷ ps) =
    let rest = join_live ps in
    if p.is_alive then (if p.is_started then join_process p.pid ∷ rest else rest) else rest

-- `if p._popen is not None: p.join()`
unfoldable pub join_started : List Process → List Action
join_started [] = []
join_started (p ∷ ps) =
    let rest = join_started ps in if p.is_started then join_process p.pid ∷ rest else rest

abbrev pub only_if : Bool → Action → List Action
only_if true a = a ∷ []
only_if false a = []

-- The actions of `_terminate_pool`, beside the sentinel for the task thread.
unfoldable pub terminate_pool : Bool → List Process → List Action
unfolding terminate_live join_live
terminate_pool has_timeout_handler processes =
    (terminate_worker_handler ∷ terminate_task_handler ∷ help_stuff_finish ∷ result_sentinel ∷ [])
    ++ (only_if has_timeout_handler terminate_timeout_handler
        ++ (stop_worker_handler
            ∷ (terminate_live processes
                ++ (stop_task_handler
                    ∷ stop_result_handler
                    ∷ (only_if has_timeout_handler stop_timeout_handler
                        ++ (join_live processes ++ close_queues ∷ []))))))

abbrev pub clear_lock : Option Semaphore → Option Semaphore
clear_lock none = none
clear_lock (some lock) = some (clear lock)

module _ {A : Type 0} where
  abbrev pub put_sentinel : Front A → Front A
  put_sentinel s = record s { taskqueue = s.taskqueue ++ none ∷ [] }

  unfoldable pub close : Life A → Life A
  close l =
      if is_running l.front.state
      then record l {
        front =
            put_sentinel (record l.front { state = closed; putlock = clear_lock l.front.putlock });
        log = l.log ++ close_worker_handler ∷ stop_worker_handler ∷ [];
      }
      else l

  -- `self._terminate()`, which runs `_terminate_pool` the first time only.
  unfoldable pub terminate : Life A → Life A
  unfolding terminate_pool
  terminate l =
      let front = record l.front { state = terminated } in
      if l.finalized
      then record l { front = front; log = l.log ++ terminate_worker_handler ∷ [] }
      else record l {
        front = put_sentinel front;
        finalized = true;
        log = l.log ++ terminate_worker_handler ∷ terminate_pool l.has_timeout_handler l.processes;
      }

  -- None is the AssertionError of a pool that runs.
  unfoldable pub join : Life A → Option (Life A)
  unfolding join_started
  join l =
      if is_running l.front.state
      then none
      else some (record l {
        log =
            l.log
            ++ stop_worker_handler
              ∷ stop_task_handler
              ∷ stop_result_handler
              ∷ join_started l.processes;
      })
