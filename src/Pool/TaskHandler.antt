-- ===== src/Pool/TaskHandler.antt =====
-- billiard/pool.py, `class TaskHandler`: the thread that writes tasks to the workers.
mod Delivery
mod Tests
use billiard.Prelude.{
  ℕ, zero, suc, ◌+◌, Bool, true, false, Option, none, some, List, [], ◌∷◌, ◌++◌, if◌then◌else◌,
}

-- How `put(task)` ends: it may raise IOError, or another exception, such as one of pickling.
pub data Put : Type 0 where
  sends io_error unsendable : Put

-- A task is the pair `(TASK, (job, i, ...))`, where TASK is 2. `stopping` says that `_state` is not
-- RUN when the thread comes to it.
pub record Task : Type 0 where
  pub job : ℕ
  pub ind : Option ℕ
  pub put : Put
  pub stopping : Bool

-- An entry of `taskqueue`: what the iterator gives, whether it then raises, and whether there is a
-- `set_length`.
pub record TaskSeq : Type 0 where
  pub tasks : List Task
  pub iter_raises : Bool
  pub has_set_length : Bool

-- A key of the cache: not there, or a job whose `_set` takes the second half of a task as an index,
-- or one that raises on it, as an `IMapIterator` does, where it is a key of a dict.
pub data Entry : Type 0 where
  missing takes chokes : Entry

pub data Index : Type 0 where
  args : Task → Index
  number : ℕ → Index

-- `filed k i` is `cache[k]._set(i, (False, ExceptionInfo()))`.
pub data Action : Type 0 where
  sent : Task → Action
  filed : ℕ → Index → Action
  announced : ℕ → Action
  result_sentinel worker_sentinel : Action

-- What comes after an entry: the next one, the sentinels, or the death of the program by TypeError.
pub data End : Type 0 where
  continues breaks crashes : End

pub record Outcome : Type 0 where
  pub acts : List Action
  pub end : End

abbrev pub stop : End → List Action → Outcome
stop end acts = record { acts = acts; end = end }

abbrev pub before : List Action → Outcome → Outcome
before acts o = record o { acts = acts ++ o.acts }

-- `if set_length: set_length(i + 1)`
abbrev pub announce : Bool → ℕ → List Action
announce has n = if has then announced n ∷ [] else []

-- The outer `except Exception`, after n items, of which the last is given. `task[:2]` is the pair
-- itself, so that `job` is TASK and `ind + 1` is a TypeError.
unfoldable pub on_exception : (ℕ → Entry) → Bool → ℕ → Option Task → Outcome
on_exception cache has n none = elim (cache 0) [
  | missing ↦ stop continues (announce has n)
  | takes ↦ stop continues (filed 0 (number 1) ∷ announce has n)
  | chokes ↦ stop continues (filed 0 (number 1) ∷ announce has n)
]
on_exception cache has n (some task) = elim (cache 2) [
  | missing ↦ stop continues (announce has n)
  | takes ↦ stop crashes []
  | chokes ↦ stop crashes []
]

-- The body of the loop for one task, by `_state`, the end of `put` and the entry of the cache under
-- TASK, with what follows the task and what follows an exception.
abbrev pub attempt : Bool → Put → Entry → Task → Outcome → Outcome → Outcome
attempt true put entry task rest failed = stop breaks []
attempt false sends entry task rest failed = before (sent task ∷ []) rest
attempt false io_error entry task rest failed = stop breaks []
attempt false unsendable missing task rest failed = rest
attempt false unsendable takes task rest failed = before (filed 2 (args task) ∷ []) rest
attempt false unsendable chokes task rest failed = failed

-- The loop over one entry; n items were taken already, of which the last is given. `set_length` itself is
-- taken to return.
unfoldable pub walk : (ℕ → Entry) → Bool → Bool → ℕ → Option Task → List Task → Outcome
unfolding on_exception
walk cache raises has n last [] =
    if raises then on_exception cache has n last else stop continues (announce has n)
walk cache raises has n last (task ∷ tasks) =
    attempt task.stopping task.put (cache 2) task (walk cache raises has (suc n) (some task) tasks)
      (on_exception cache has (suc n) (some task))

-- `tell_others`: whether each `put` works, that of the outqueue and those of the workers.
unfoldable pub tell_workers : List Bool → List Action
tell_workers [] = []
tell_workers (works ∷ rest) = elim works [ true ↦ worker_sentinel ∷ tell_workers rest | false ↦ [] ]

unfoldable pub tell_others : Bool → List Bool → List Action
tell_others works workers = elim works [
  | true ↦ result_sentinel ∷ tell_workers workers
  | false ↦ []
]

-- What an entry leads to, the further ones given.
abbrev pub next : End → List Action → Outcome → Outcome
next continues acts rest = before acts rest
next breaks acts rest = stop breaks acts
next crashes acts rest = stop crashes acts

-- The entries up to the sentinel None of `taskqueue`, with the cache as each of them meets it.
unfoldable pub walk_all : List ((ℕ → Entry) × TaskSeq) → Outcome
unfolding walk
walk_all [] = stop continues []
walk_all ((cache, s) ∷ rest) =
    let o = walk cache s.iter_raises s.has_set_length 0 none s.tasks in
    next o.end o.acts (walk_all rest)

-- The sentinels, unless the thread died.
abbrev pub finish : End → List Action → List Action → Outcome
finish crashes acts sentinels = stop crashes acts
finish continues acts sentinels = stop continues (acts ++ sentinels)
finish breaks acts sentinels = stop breaks (acts ++ sentinels)

-- `body`
unfoldable pub body : List ((ℕ → Entry) × TaskSeq) → Bool → List Bool → Outcome
unfolding walk_all
body entries works workers =
    let o = walk_all entries in finish o.end o.acts (tell_others works workers)
