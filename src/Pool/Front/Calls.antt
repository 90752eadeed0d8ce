-- ===== src/Pool/Front/Calls.antt =====
-- Sequences of the calls of a pool and of what its threads do meanwhile.
use billiard.Prelude.{
  ℕ, suc, ◌++◌, ◌+◌, ◌≤◌, Bool, false, Option, none, some, List, [], ◌∷◌, length,
}
use billiard.Prelude.Dict.{erase}
use billiard.Pool.Semaphore.{Semaphore, release}
use billiard.Pool.Front.{
  running, Entry, Kind, Submitted, refused, value_error, zero_division, waits, accepted,
  apply_async, resume, imap, map_async,
}
use billiard.Pool.Front.Lifecycle.{Process, Life, close, terminate, join}

-- A call of a caller, or what happens meanwhile: a job leaves the cache, a slot is released, the first of
-- the callers that wait for a slot goes on if there is one, workers come and go.
pub data Op (A : Type 0) : Type 0 where
  applies : Option Bool → A → Op A
  imaps : Kind → List A → ℕ → Op A
  maps : List A → Option ℕ → Op A
  closes terminates joins frees resumes : Op A
  finishes : ℕ → Op A
  has_workers : List Process → Op A

-- A new pool.
abbrev pub fresh : {A : Type 0} → Bool → Bool → Option Semaphore → List Process → Bool → Life A
fresh threads putlocks putlock processes has_timeout_handler = record {
  front = record {
    state = running;
    threads = threads;
    putlocks = putlocks;
    putlock = putlock;
    workers = length processes;
    cache = [];
    next_job = 0;
    taskqueue = [];
    inqueue = [];
  };
  finalized = false;
  has_timeout_handler = has_timeout_handler;
  processes = processes;
  log = [];
}

-- Every entry is a job.
abbrev pub AllTasks : {A : Type 0} → List (Option (Entry A)) → Type 0
AllTasks [] = Unit {0}
AllTasks (some e ∷ q) = AllTasks q
AllTasks (none ∷ q) = ⊥

-- How many jobs stand behind the first sentinel.
abbrev pub jobs : {A : Type 0} → List (Option (Entry A)) → ℕ
jobs [] = 0
jobs (some e ∷ q) = suc (jobs q)
jobs (none ∷ q) = jobs q

abbrev pub late : {A : Type 0} → List (Option (Entry A)) → ℕ
late [] = 0
late (some e ∷ q) = late q
late (none ∷ q) = jobs q

-- The numbers of the jobs go up, from lo to below hi.
abbrev pub IsNumbered : {A : Type 0} → ℕ → ℕ → List (Option (Entry A)) → Type 0
IsNumbered lo hi [] = lo ≤ hi
IsNumbered lo hi (some e ∷ q) = (lo ≤ e.job) × IsNumbered (e.job + 1) hi q
IsNumbered lo hi (none ∷ q) = IsNumbered lo hi q

abbrev pub map_release : Option Semaphore → Option Semaphore
map_release none = none
map_release (some lock) = some (release lock)

-- The pool, the tasks of the callers that wait for a slot, and how many callers ever had to wait.
pub record Session (A : Type 0) : Type 0 where
  pub life : Life A
  pub waiting : List A
  pub waited : ℕ

abbrev pub begin : {A : Type 0} → Life A → Session A
begin l = record { life = l; waiting = []; waited = 0 }

module _ {A : Type 0} where
  abbrev pub submit : Submitted A → Life A → Life A
  submit refused l = l
  submit value_error l = l
  submit zero_division l = l
  submit waits l = l
  submit (accepted n front) l = record l { front = front }

  abbrev pub submit_or_wait : A → Submitted A → Session A → Session A
  submit_or_wait x refused s = s
  submit_or_wait x value_error s = s
  submit_or_wait x zero_division s = s
  submit_or_wait x waits s = record s { waiting = s.waiting ++ x ∷ []; waited = suc s.waited }
  submit_or_wait x (accepted n front) s = record s { life = record s.life { front = front } }

  abbrev pub go_on : List A → Submitted A → Session A → Session A
  go_on rest refused s = s
  go_on rest value_error s = s
  go_on rest zero_division s = s
  go_on rest waits s = s
  go_on rest (accepted n front) s = record s {
    life = record s.life { front = front };
    waiting = rest;
  }

  abbrev pub resume_first : List A → Session A → Session A
  resume_first [] s = s
  resume_first (x ∷ rest) s = go_on rest (resume x s.life.front) s

  abbrev pub after_join : Option (Life A) → Life A → Life A
  after_join none l = l
  after_join (some l') l = l'

  abbrev pub on_life : (Life A → Life A) → Session A → Session A
  on_life f s = record s { life = f s.life }

  unfoldable pub step : Op A → Session A → Session A
  unfolding resume
  step (applies waitforslot x) s = submit_or_wait x (apply_async waitforslot x s.life.front) s
  step resumes s = resume_first s.waiting s
  step (imaps kind items chunksize) s =
      on_life (λ l. submit (imap kind items chunksize l.front) l) s
  step (maps items chunksize) s = on_life (λ l. submit (map_async items chunksize l.front) l) s
  step closes s = on_life close s
  step terminates s = on_life terminate s
  step joins s = on_life (λ l. after_join (join l) l) s
  step frees s =
      on_life (λ l. record l { front = record l.front { putlock = map_release l.front.putlock } }) s
  step (finishes j) s =
      on_life (λ l. record l { front = record l.front { cache = erase j l.front.cache } }) s
  step (has_workers ps) s =
      on_life (λ l. record l { processes = ps; front = record l.front { workers = length ps } }) s

  unfoldable pub run : List (Op A) → Session A → Session A
  run [] s = s
  run (op ∷ ops) s = run ops (step op s)
