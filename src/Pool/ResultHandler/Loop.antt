-- ===== src/Pool/ResultHandler/Loop.antt =====
-- `ResultHandler.body`, `_process_result`, `handle_event` and `finish_at_shutdown`. What each poll of the
-- outqueue meets, and what the other threads do meanwhile, is a list that the loops walk.
use billiard.Prelude.{
  ℕ, ◌+◌, Bool, true, false, Option, none, some, List, [], ◌∷◌, ltb, ◌==◌, if◌then◌else◌,
}
use billiard.Pool.ResultHandler.{
  JobClass, Kill, Message, Handler, Outcome, done, raised, Exn, on_state_change,
}

pub data ThreadState : Type 0 where
  running closed terminated : ThreadState

abbrev pub is_running : ThreadState → Bool
is_running running = true
is_running closed = false
is_running terminated = false

-- What `poll` gives: IOError or EOFError, nothing in time, None, or a message.
pub data Poll (Obj : Type 0) : Type 0 where
  broken nothing sentinel : Poll Obj
  message : Message Obj → Poll Obj

-- How one round of `_process_result` ends: `_state` was CLOSE, CoroStop, or the next poll.
pub data Round (J : Type 0) : Type 0 where
  assertion_error stops goes_on : Handler J → Round J
  fails : Exn → Handler J → Round J

-- How the thread leaves the loop of `finish_at_shutdown`: the cache is empty, `_state` is TERMINATE, the
-- poll failed, the time was up, or an exception; `waits` while it has not left.
pub data Left (J : Type 0) : Type 0 where
  drained stopped disconnected timed_out waits : Handler J → Left J
  crashed : Exn → Handler J → Left J

-- How `join_exited_workers(shutdown=True)` ends.
pub data Joined (J : Type 0) : Type 0 where
  carries_on workers_joined : Handler J → Joined J
  join_fails : Exn → Handler J → Joined J

-- One round of `finish_at_shutdown`: `_state` at the test, `check_timeouts` (the identity where it is
-- None), the poll, the reaping and the clock.
pub record Last (J Obj : Type 0) : Type 0 where
  pub state : ThreadState
  pub check_timeouts : Handler J → Handler J
  pub poll : Poll Obj
  pub join_exited_workers : Handler J → Joined J
  pub now : ℕ

abbrev pub is_empty {ℓ} : {A : Type ℓ} → List A → Bool
is_empty [] = true
is_empty (x ∷ xs) = false

module _ {J Obj : Type 0} (class : JobClass J Obj) (kill : ℕ → Kill) where
  -- One poll in `_process_result`.
  unfoldable pub process_result : ThreadState → Poll Obj → Handler J → Round J
  process_result state broken h = stops h
  process_result terminated nothing h = stops h
  process_result terminated sentinel h = stops h
  process_result terminated (message m) h = stops h
  process_result closed nothing h = assertion_error h
  process_result closed sentinel h = assertion_error h
  process_result closed (message m) h = assertion_error h
  process_result running nothing h = goes_on h
  process_result running sentinel h = stops h
  process_result running (message m) h = elim (on_state_change class kill m h) [
    | done h' ↦ goes_on h'
    | raised e h' ↦ fails e h'
  ]

  -- `handle_event`, where no thread runs: the generator is resumed for one poll, and made anew after it
  -- stopped, so that each call is one poll, if `_state` is RUN.
  unfoldable pub handle_event : ThreadState → ThreadState → Poll Obj → Handler J → Round J
  unfolding process_result
  handle_event state state' poll h =
      if is_running state then process_result state' poll h else goes_on h

  -- `not time_terminate`: None and 0 are false.
  abbrev pub is_unset : Option ℕ → Bool
  is_unset none = true
  is_unset (some t) = t == 0

  abbrev pub is_over : ℕ → Option ℕ → ℕ → Bool
  is_over grace none now = false
  is_over grace (some t) now = ltb (t + grace) now

  -- `while cache and self._state != TERMINATE`; the flag says that the cache is empty.
  abbrev pub exits : ThreadState → Bool → Handler J → Option (Left J)
  exits state true h = some (drained h)
  exits terminated false h = some (stopped h)
  exits running false h = none
  exits closed false h = none

  -- What follows `join_exited_workers`, the further rounds given.
  abbrev pub after_reaping : ℕ → Option ℕ → ℕ → Joined J → (Option ℕ → Handler J → Left J) → Left J
  after_reaping grace since now (carries_on h) rest = rest since h
  after_reaping grace since now (join_fails e h) rest = crashed e h
  after_reaping grace since now (workers_joined h) rest =
      if is_unset since
      then rest (some now) h
      else if is_over grace since now
      then timed_out h
      else rest since h

  abbrev pub after_message : Outcome J → (Handler J → Left J) → Left J
  after_message (done h) reap = reap h
  after_message (raised e h) reap = crashed e h

  -- What follows the poll: the reaping, or for a further sentinel the next round.
  abbrev pub after_poll :
      Poll Obj → Handler J → (Handler J → Left J) → (Handler J → Left J) → Left J
  after_poll broken h reap rest = disconnected h
  after_poll sentinel h reap rest = rest h
  after_poll nothing h reap rest = reap h
  after_poll (message m) h reap rest = after_message (on_state_change class kill m h) reap

  abbrev pub or_else : Option (Left J) → Left J → Left J
  or_else none rest = rest
  or_else (some left) rest = left

  -- The loop of `finish_at_shutdown`, with `time_terminate` and the grace of 5 seconds.
  unfoldable pub finish : ℕ → List (Last J Obj) → Option ℕ → Handler J → Left J
  finish grace [] since h = if is_empty h.cache then drained h else waits h
  finish grace (r ∷ rs) since h = or_else (exits r.state (is_empty h.cache) h) (
      after_poll r.poll (r.check_timeouts h)
        (λ g. after_reaping grace since r.now (r.join_exited_workers g) (finish grace rs))
        (finish grace rs since))

  -- How `body` comes to `finish_at_shutdown`: the loop was left, or an exception is on its way.
  pub data Ended : Type 0 where
    left_loop : Handler J → Ended
    on_exception : Handler J → Ended
    running_still : Handler J → Ended

  -- The loop of `body`: `_state` at the test and after the poll, and the poll.
  unfoldable pub loop : List (ThreadState × ThreadState × Poll Obj) → Handler J → Ended
  loop [] h = running_still h
  loop ((state, state', poll) ∷ polls) h = elim (is_running state) [
    | false ↦ left_loop h
    | true ↦ elim (process_result state' poll h) [
      | goes_on h' ↦ loop polls h'
      | stops h' ↦ left_loop h'
      | assertion_error h' ↦ on_exception h'
      | fails e h' ↦ on_exception h'
    ]
  ]

  -- `body`: the loop, and in every case `finish_at_shutdown`; none while the loop waits.
  unfoldable pub body :
      ℕ
      → List (ThreadState × ThreadState × Poll Obj)
      → List (Last J Obj)
      → Handler J
      → Option (Left J)
  unfolding loop finish
  body grace polls lasts h = elim (loop polls h) [
    | left_loop h' ↦ some (finish grace lasts none h')
    | on_exception h' ↦ some (finish grace lasts none h')
    | running_still h' ↦ none
  ]
