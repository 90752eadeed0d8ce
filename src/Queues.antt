-- ===== src/Queues.antt =====
-- billiard/queues.py, `class Queue`: objects go into a buffer, a feeder thread of the process writes them to
-- a pipe, and any process reads them. One process puts; a call, and one object of the feeder, is a step.
pub mod History
mod Balance
mod Kept
pub mod Fifo
pub mod Joinable
pub mod Stuck
mod Tests
use billiard.Prelude.{
  ℕ, ◌+◌, ◌-◌, Bool, true, false, Option, none, some, List, [], ◌∷◌, ◌++◌, ltb, ◌==◌, if◌then◌else◌,
}
use billiard.Prelude.Int.{ℤ, pos, negsuc}

-- What `_feed` is at: there is no thread yet, it runs, it has met the sentinel, or an exception ended it.
pub data Feeder : Type 0 where
  unstarted running ended crashed : Feeder

-- `slots` is the value of `_sem`; None in `buffer` is the sentinel; `has_close` says that `_close` is set.
pub record Queue (A B : Type 0) : Type 0 where
  pub maxsize : ℕ
  pub slots : ℕ
  pub closed : Bool
  pub has_close : Bool
  pub feeder : Feeder
  pub buffer : List (Option A)
  pub pipe : List B

-- The exceptions of the feeder, by what `_feed` does with them, and what `dumps` gives.
pub data Fault : Type 0 where
  index_error other_error : Fault

pub data Dumped (B : Type 0) : Type 0 where
  dumped : B → Dumped B
  raised : Fault → Dumped B

-- `block` and `timeout`: no limit, `block` false, or a limit, and whether it has passed when the lock is there.
pub data Mode : Type 0 where
  forever at_once : Mode
  within : Bool → Mode

abbrev pub is_forever : Mode → Bool
is_forever forever = true
is_forever at_once = false
is_forever (within late) = false

abbrev pub is_late : Mode → Bool
is_late forever = false
is_late at_once = false
is_late (within late) = late

-- What a put does: it raises ValueError or Full, waits for a slot, or is done.
pub data Put (S : Type 0) : Type 0 where
  value_error full waits : Put S
  done : S → Put S

pub data Got (A S : Type 0) : Type 0 where
  value_error empty waits : Got A S
  -- The release of the slot raises ValueError.
  over_released : S → Got A S
  got : A → S → Got A S

abbrev pub max_or_default : ℕ → ℤ → ℕ
max_or_default sem_value_max (pos n) = if n == 0 then sem_value_max else n
max_or_default sem_value_max (negsuc n) = sem_value_max

-- `Queue.__init__`, where `sem_value_max` is the constant of the C extension.
unfoldable pub init : {A B : Type 0} → ℕ → ℤ → Queue A B
init sem_value_max maxsize = record {
  maxsize = max_or_default sem_value_max maxsize;
  slots = max_or_default sem_value_max maxsize;
  closed = false;
  has_close = false;
  feeder = unstarted;
  buffer = [];
  pipe = [];
}

abbrev pub is_unstarted : Feeder → Bool
is_unstarted unstarted = true
is_unstarted running = false
is_unstarted ended = false
is_unstarted crashed = false

abbrev is_nil : {B : Type 0} → List B → Bool
is_nil [] = true
is_nil (b ∷ bs) = false

module _ {A B : Type 0} where
  -- `_start_thread`
  abbrev pub start_thread : Queue A B → Queue A B
  start_thread q = record q { buffer = []; feeder = running; has_close = true }

  abbrev pub ensure_thread : Queue A B → Queue A B
  ensure_thread q = if is_unstarted q.feeder then start_thread q else q

  -- The part of `put` under `_notempty`.
  abbrev pub append : A → Queue A B → Queue A B
  append x q = record q { buffer = q.buffer ++ some x ∷ [] }

  unfoldable pub put : Mode → A → Queue A B → Put (Queue A B)
  put mode x q =
      if q.closed
      then value_error
      else if q.slots == 0
      then (if is_forever mode then waits else full)
      else done (append x (ensure_thread (record q { slots = q.slots - 1 })))

  -- The loop after an exception of `dumps` or `send_bytes`: the object is out of the buffer, and only
  -- IndexError lets it go on.
  abbrev pub fault : Fault → List (Option A) → Queue A B → Queue A B
  fault index_error rest q = record q { buffer = rest }
  fault other_error rest q = record q { buffer = rest; feeder = crashed }

  -- An object of `_feed` with what `dumps` made of it, and the exception of `send_bytes`, if any.
  abbrev pub feed_dumped : Option Fault → Dumped B → List (Option A) → Queue A B → Queue A B
  feed_dumped sends (raised e) rest q = fault e rest q
  feed_dumped none (dumped b) rest q = record q { buffer = rest; pipe = q.pipe ++ b ∷ [] }
  feed_dumped (some e) (dumped b) rest q = fault e rest q

  abbrev pub feed_first : (A → Dumped B) → Option Fault → List (Option A) → Queue A B → Queue A B
  feed_first dumps sends [] q = q
  feed_first dumps sends (none ∷ rest) q = record q { buffer = rest; feeder = ended }
  feed_first dumps sends (some x ∷ rest) q = feed_dumped sends (dumps x) rest q

  abbrev pub when_running : Feeder → Queue A B → Queue A B → Queue A B
  when_running unstarted next q = q
  when_running running next q = next
  when_running ended next q = q
  when_running crashed next q = q

  unfoldable pub feed : (A → Dumped B) → Option Fault → Queue A B → Queue A B
  feed dumps sends q = when_running q.feeder (feed_first dumps sends q.buffer q) q

  -- `_recv_bytes`, then the release of the slot; an empty pipe has the given outcome. The writing end is
  -- open in some process, so that the end of the file is not met.
  abbrev pub receive : (B → A) → Got A (Queue A B) → List B → Queue A B → Got A (Queue A B)
  receive loads otherwise [] q = otherwise
  receive loads otherwise (b ∷ rest) q =
      if ltb q.slots q.maxsize
      then got (loads b) (record q { pipe = rest; slots = q.slots + 1 })
      else over_released (record q { pipe = rest })

  -- `get` of a process that may have closed the queue, while another reader may hold `_rlock`.
  unfoldable pub get : (B → A) → Bool → Mode → Bool → Queue A B → Got A (Queue A B)
  get loads closed mode held q =
      if closed
      then value_error
      else if is_forever mode
      then (if held then waits else receive loads waits q.pipe q)
      else if held
      then empty
      else if is_late mode
      then empty
      else receive loads empty q.pipe q

  unfoldable pub close : Queue A B → Queue A B
  close q =
      if q.has_close
      then record q { closed = true; has_close = false; buffer = q.buffer ++ none ∷ [] }
      else record q { closed = true }

  unfoldable pub qsize : Queue A B → ℕ
  qsize q = q.maxsize - q.slots

  -- `empty`: `poll` finds nothing.
  unfoldable pub is_empty : Queue A B → Bool
  is_empty q = is_nil q.pipe

  unfoldable pub is_full : Queue A B → Bool
  is_full q = q.slots == 0
