-- ===== src/Pool/MapResult.antt =====
-- billiard/pool.py, `class MapResult`: the result of `Pool.map_async`, filled batch by batch.
mod Layout
mod Assembly
mod Order
mod Failure
mod Tests
use billiard.Prelude.{
  ℕ, zero, suc, ◌+◌, ◌-◌, ◌*◌, Bool, true, false, Option, none, some, List, [], ◌∷◌, ◌++◌, map,
  length, take, drop, set, replicate, min, ◌==◌, if◌then◌else◌, ◌&&◌,
}
use billiard.Prelude.Int.{ℤ, pos, negsuc, ◌-ℤ◌}
use billiard.Pool.Chunks.{batch_count}

-- What a worker sends back for a batch: `(True, results)` or `(False, ExceptionInfo())`.
pub data Reply (B E : Type 0) : Type 0 where
  success : List B → Reply B E
  failure : E → Reply B E

-- `_value`: the list under construction, or the exception of the first batch that failed.
pub data Value (B E : Type 0) : Type 0 where
  values : List (Option B) → Value B E
  error : E → Value B E

-- The callbacks of the caller; `true` says that the call returns, `false` that it raises.
pub record Callbacks (B E : Type 0) : Type 0 where
  pub callback : Option (Value B E → Bool)
  pub error_callback : Option (Value B E → Bool)

-- `event` is the flag of `_event`; `cached` says whether the cache has the entry of this job.
pub record MapResult (B E : Type 0) : Type 0 where
  pub chunksize : ℕ
  pub length_ : ℕ
  pub succeeded : Bool
  pub value : Value B E
  pub accepted : List Bool
  pub worker_pid : List (Option ℕ)
  pub time_accepted : List (Option ℕ)
  pub number_left : ℤ
  pub event : Bool
  pub cached : Bool

pub data Exn : Type 0 where
  callback_raised type_error : Exn

-- A method returns, or raises and leaves a state behind.
pub data Outcome (B E : Type 0) : Type 0 where
  done : MapResult B E → Outcome B E
  raised : Exn → MapResult B E → Outcome B E

-- The loop of `_ack` over range(start, stop).
unfoldable pub fill {ℓ} : {A : Type ℓ} → ℕ → ℕ → A → List A → List A
fill zero j v l = l
fill (suc rounds) j v l = fill rounds (suc j) v (set l j v)

-- `l[start:stop] = new` for start ≤ stop
unfoldable pub slice_assign {ℓ} : {A : Type ℓ} → ℕ → ℕ → List A → List A → List A
slice_assign start stop new l = take start l ++ (new ++ drop stop l)

-- The truth of `self._accepted`, a list.
abbrev nonempty : List Bool → Bool
nonempty [] = false
nonempty (a ∷ rest) = true

abbrev is_zero : ℤ → Bool
is_zero (pos n) = n == 0
is_zero (negsuc n) = false

-- The entries that are neither None nor 0
pids : List (Option ℕ) → List ℕ
pids [] = []
pids (none ∷ rest) = pids rest
pids (some pid ∷ rest) = if pid == 0 then pids rest else pid ∷ pids rest

all_true : List Bool → Bool
all_true [] = true
all_true (a ∷ rest) = a && all_true rest

-- The messages of the workers for one job, as the result handler passes them on.
pub data Message (B E : Type 0) : Type 0 where
  ready : Option ℕ → Reply B E → Message B E
  acked : ℕ → ℕ → ℕ → Message B E

module _ {B E : Type 0} where
  -- `__init__`, for a chunksize that is not negative
  unfoldable pub init : ℕ → ℕ → MapResult B E
  init chunksize n = record {
    chunksize = chunksize;
    length_ = n;
    succeeded = true;
    value = values (replicate n none);
    accepted = replicate n false;
    worker_pid = replicate n none;
    time_accepted = replicate n none;
    number_left = if chunksize == 0 then pos 0 else pos (batch_count n chunksize);
    event = chunksize == 0;
    cached = if chunksize == 0 then false else true;
  }

  -- A call of an optional callback.
  abbrev pub returns : Option (Value B E → Bool) → Value B E → Bool
  returns none v = true
  returns (some f) v = f v

  -- `if self._accepted: self._cache.pop(self._job, None)` and `self._event.set()`
  abbrev finish : MapResult B E → MapResult B E
  finish m = record m { event = true; cached = if nonempty m.accepted then false else m.cached }

  -- The last part of the branch for a success.
  abbrev after_batch : Callbacks B E → MapResult B E → Outcome B E
  after_batch cb m =
      if is_zero m.number_left
      then (if returns cb.callback m.value then done (finish m) else raised callback_raised m)
      else done m

  -- The slice of a batch; an assignment into an exception is a TypeError.
  abbrev set_batch : Callbacks B E → ℕ → List B → Value B E → MapResult B E → Outcome B E
  set_batch cb i result (values l) m = after_batch cb (record m {
    value = values (slice_assign (i * m.chunksize) ((i + 1) * m.chunksize) (map some result) l);
    number_left = m.number_left -ℤ pos 1;
  })
  set_batch cb i result (error e) m = raised type_error m

  abbrev set_failure : Callbacks B E → E → MapResult B E → Outcome B E
  set_failure cb e m =
      let failed : MapResult B E = record m { succeeded = false; value = error e } in
      if returns cb.error_callback (error e)
      then done (finish failed)
      else raised callback_raised failed

  -- `_set`; the index is None where the pool itself reports a failure, and None times a number is a
  -- TypeError.
  unfoldable pub set_reply : Callbacks B E → Option ℕ → Reply B E → MapResult B E → Outcome B E
  set_reply cb (some i) (success result) m = set_batch cb i result m.value m
  set_reply cb none (success result) m = raised type_error m
  set_reply cb i (failure e) m = set_failure cb e m

  -- `_ack`; a job that is ready leaves the cache.
  unfoldable pub ack : ℕ → ℕ → ℕ → MapResult B E → MapResult B E
  unfolding fill
  ack i time pid m =
      let start = i * m.chunksize in
      let stop = min ((i + 1) * m.chunksize) m.length_ in
      record m {
        accepted = fill (stop - start) start true m.accepted;
        worker_pid = fill (stop - start) start (some pid) m.worker_pid;
        time_accepted = fill (stop - start) start (some time) m.time_accepted;
        cached = if m.event then false else m.cached;
      }

  unfoldable pub worker_pids : MapResult B E → List ℕ
  unfolding pids
  worker_pids m = pids m.worker_pid

  -- `accepted`
  unfoldable pub is_accepted : MapResult B E → Bool
  unfolding all_true
  is_accepted m = all_true m.accepted

  unfoldable pub feed : Callbacks B E → MapResult B E → List (Message B E) → Outcome B E
  feed cb m [] = done m
  feed cb m (ready i reply ∷ rest) = elim (set_reply cb i reply m) [
    | done m' ↦ feed cb m' rest
    | raised e m' ↦ raised e m'
  ]
  feed cb m (acked i time pid ∷ rest) = feed cb (ack i time pid m) rest
