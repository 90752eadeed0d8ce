-- ===== src/Queues/History.antt =====
-- Sequences of calls of a queue and of steps of its feeder, with what went in and what came out.
use billiard.Prelude.{Bool, true, false, Option, none, some, List, [], ◌∷◌, ◌++◌}
use billiard.Queues.{
  Fault, Dumped, dumped, raised, Queue, Mode, Put, Got, Feeder, unstarted, running, ended, crashed,
  put, feed, get, close, value_error, full, waits, empty, done, got, over_released,
}

pub data Op (A : Type 0) : Type 0 where
  puts : Mode → A → Op A
  -- One object of the feeder, and the exception of sending it.
  feeds : Option Fault → Op A
  gets : Bool → Mode → Bool → Op A
  closes : Op A

-- What became of an object that the feeder took from the buffer.
pub data Fate : Type 0 where
  sent : Fate
  lost : Fault → Fate

-- The queue, with the objects that were accepted, those that were given out, and those that the feeder
-- took from the buffer, in this order.
pub record History (A B : Type 0) : Type 0 where
  pub queue : Queue A B
  pub accepted : List A
  pub given : List A
  pub fates : List (A × Fate)
  pub over_released : Bool

abbrev pub start : {A B : Type 0} → Queue A B → History A B
start q = record { queue = q; accepted = []; given = []; fates = []; over_released = false }

-- The objects in a buffer.
abbrev pub objects : {A : Type 0} → List (Option A) → List A
objects [] = []
objects (none ∷ os) = objects os
objects (some x ∷ os) = x ∷ objects os

abbrev pub fate_of : {B : Type 0} → Option Fault → Dumped B → Fate
fate_of sends (raised e) = lost e
fate_of none (dumped b) = sent
fate_of (some e) (dumped b) = lost e

module _ {A B : Type 0} where
  abbrev pub after_put : A → Put (Queue A B) → History A B → History A B
  after_put x (done q) h = record h { queue = q; accepted = h.accepted ++ x ∷ [] }
  after_put x value_error h = h
  after_put x full h = h
  after_put x waits h = h

  abbrev pub after_get : Got A (Queue A B) → History A B → History A B
  after_get (got x q) h = record h { queue = q; given = h.given ++ x ∷ [] }
  after_get (over_released q) h = record h { queue = q; over_released = true }
  after_get value_error h = h
  after_get empty h = h
  after_get waits h = h

module _ {A B : Type 0} (dumps : A → Dumped B) where
  abbrev pub fate_first : Option Fault → List (Option A) → List (A × Fate)
  fate_first sends [] = []
  fate_first sends (none ∷ rest) = []
  fate_first sends (some x ∷ rest) = (x, fate_of sends (dumps x)) ∷ []

  abbrev pub fates_by : Feeder → Option Fault → List (Option A) → List (A × Fate)
  fates_by unstarted sends os = []
  fates_by running sends os = fate_first sends os
  fates_by ended sends os = []
  fates_by crashed sends os = []

module _ {A B : Type 0} (dumps : A → Dumped B) (loads : B → A) where
  unfoldable pub step : Op A → History A B → History A B
  unfolding put feed get close
  step (puts mode x) h = after_put x (put mode x h.queue) h
  step (feeds sends) h = record h {
    queue = feed dumps sends h.queue;
    fates = h.fates ++ fates_by dumps h.queue.feeder sends h.queue.buffer;
  }
  step (gets closed mode held) h = after_get (get loads closed mode held h.queue) h
  step closes h = record h { queue = close h.queue }

  unfoldable pub run : List (Op A) → History A B → History A B
  unfolding step
  run [] h = h
  run (op ∷ ops) h = run ops (step op h)
