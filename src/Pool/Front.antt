-- ===== src/Pool/Front.antt =====
-- billiard/pool.py, `class Pool`: what the caller of a pool does, submitting jobs and ending the pool. Each
-- call is one step.
pub mod Lifecycle
mod Calls
mod Submits
mod History
mod Tests
use billiard.Prelude.{
  ℕ, zero, suc, ◌+◌, Bool, true, false, Option, none, some, List, [], ◌∷◌, ◌++◌, length, ltb, ◌==◌,
  if◌then◌else◌, ◌&&◌,
}
use billiard.Prelude.Dict.{Dict, insert}
use billiard.Pool.Chunks.{get_tasks, default_chunksize}
use billiard.Pool.Semaphore.{Semaphore, acquire}

pub data State : Type 0 where
  running closed terminated : State

-- What a worker is to do: the function at one item, or `mapstar` at a batch of them.
pub data Call (A : Type 0) : Type 0 where
  one : A → Call A
  batch : List A → Call A

-- The tasks of a job, each with its index, and whether `set_length` goes with them.
pub record Entry (A : Type 0) : Type 0 where
  pub job : ℕ
  pub tasks : List (Option ℕ × Call A)
  pub has_set_length : Bool

-- The class of a job in the cache.
pub data Kind : Type 0 where
  applied mapped iterated unordered : Kind

-- The attributes that the calls read and write. An entry None of `taskqueue` is the sentinel; `inqueue` has
-- what `_quick_put` sent where no thread runs. `workers` is the length of `_pool`.
pub record Front (A : Type 0) : Type 0 where
  pub state : State
  pub threads : Bool
  pub putlocks : Bool
  pub putlock : Option Semaphore
  pub workers : ℕ
  pub cache : Dict Kind
  -- `job_counter`
  pub next_job : ℕ
  pub taskqueue : List (Option (Entry A))
  pub inqueue : List (Entry A)

-- None is returned, an exception is raised, the caller waits for a slot, or there is a job.
pub data Submitted (A : Type 0) : Type 0 where
  refused value_error zero_division waits : Submitted A
  accepted : ℕ → Front A → Submitted A

-- `enumerate`
abbrev pub enumerate : {X : Type 0} → ℕ → List X → List (Option ℕ × X)
enumerate i [] = []
enumerate i (x ∷ xs) = (some i, x) ∷ enumerate (suc i) xs

abbrev pub map_call : {X : Type 0} {A : Type 0} → (X → Call A) → List X → List (Call A)
map_call f [] = []
map_call f (x ∷ xs) = f x ∷ map_call f xs

abbrev pub is_running : State → Bool
is_running running = true
is_running closed = false
is_running terminated = false

-- `self.putlocks if waitforslot is None else waitforslot`
abbrev pub or_default : Option Bool → Bool → Bool
or_default none default = default
or_default (some b) default = b

-- `chunksize` of `_map_async`; an empty input has 0 whatever the caller gives.
abbrev pub map_chunksize : ℕ → Option ℕ → ℕ → Option ℕ
map_chunksize n none workers = default_chunksize n workers
map_chunksize n (some c) workers = some (if n == 0 then 0 else c)

module _ {A : Type 0} where
  -- The constructor of a result puts it into the cache under the next number.
  abbrev pub register : Kind → Front A → Front A
  register kind s = record s { cache = insert s.next_job kind s.cache; next_job = suc s.next_job }

  -- `_taskqueue.put((tasks, set_length))`
  abbrev pub enqueue : Entry A → Front A → Front A
  enqueue e s = record s { taskqueue = s.taskqueue ++ some e ∷ [] }

  -- A slot, if the caller is to wait for one; none where there is no slot.
  abbrev pub take_slot : Bool → Front A → Option (Front A)
  take_slot waitforslot s =
      if waitforslot
      then elim s.putlock [
        | none ↦ some s
        | some lock ↦ elim (acquire lock) [
          | none ↦ none
          | some lock' ↦ some (record s { putlock = some lock' })
        ]
      ]
      else some s

  -- From the new `ApplyResult` on.
  abbrev pub put_task : A → Front A → Submitted A
  put_task x s =
      let e : Entry A = record {
        job = s.next_job;
        tasks = (none, one x) ∷ [];
        has_set_length = false;
      } in
      let s' = register applied s in
      accepted s.next_job
        (if s.threads then enqueue e s' else record s' { inqueue = s'.inqueue ++ e ∷ [] })

  abbrev pub after_slot : A → Option (Front A) → Submitted A
  after_slot x none = waits
  after_slot x (some s) = put_task x s

  unfoldable pub apply_async : Option Bool → A → Front A → Submitted A
  apply_async waitforslot x s =
      if is_running s.state
      then after_slot x (take_slot (or_default waitforslot s.putlocks) s)
      else refused

  -- A caller that waits for a slot goes on when there is one, without a further look at `_state`.
  unfoldable pub resume : A → Front A → Submitted A
  resume x s = after_slot x (take_slot true s)

  -- The calls of `imap` and `imap_unordered`.
  abbrev pub iter_calls : List A → ℕ → List (Call A)
  iter_calls items chunksize =
      if chunksize == 1 then map_call one items else map_call batch (get_tasks items chunksize)

  -- `imap` and `imap_unordered`, by the class of the result.
  unfoldable pub imap : Kind → List A → ℕ → Front A → Submitted A
  imap kind items chunksize s =
      if is_running s.state
      then (if chunksize == 0
          then value_error
          else accepted s.next_job (
              enqueue
                (record {
                  job = s.next_job;
                  tasks = enumerate 0 (iter_calls items chunksize);
                  has_set_length = true;
                })
                (register kind s)))
      else refused

  abbrev pub map_entry : List A → ℕ → ℕ → Entry A
  map_entry items chunksize job = record {
    job = job;
    tasks = enumerate 0 (map_call batch (get_tasks items chunksize));
    has_set_length = false;
  }

  -- From the new `MapResult` on, which leaves the cache at once if its chunk size is 0.
  abbrev pub put_map : List A → Front A → ℕ → Submitted A
  put_map items s chunksize = accepted s.next_job (
      enqueue (map_entry items chunksize s.next_job)
        (if chunksize == 0 then record s { next_job = suc s.next_job } else register mapped s))

  -- `_map_async`, and `map_async`, `starmap_async`, which pass their arguments on.
  unfoldable pub map_async : List A → Option ℕ → Front A → Submitted A
  map_async items chunksize s =
      if is_running s.state
      then elim (map_chunksize (length items) chunksize s.workers) [
        | none ↦ zero_division
        | some c ↦ put_map items s c
      ]
      else refused
