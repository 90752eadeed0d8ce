-- ===== src/Pool/WorkerLoop.antt =====
-- billiard/pool.py, `class Worker`: what a worker process receives, runs and sends. What comes from
-- outside (the polls of its queues, how each task ends) is a list that the loop walks.
mod Protocol
pub mod Consumed
mod Exits
mod Tests
use billiard.Prelude.{
  ℕ, zero, suc, ◌+◌, Bool, true, false, Option, none, some, List, [], ◌∷◌, ◌++◌, ltb, leb, ◌==◌,
  if◌then◌else◌, ◌&&◌, ◌||◌, not,
}
use billiard.Prelude.Int.{ℤ, pos}

-- What one `_receive` of a queue meets: the poll times out, EINTR, another EOFError or IOError, or a
-- message, which may be None.
pub data Raw (A : Type 0) : Type 0 where
  empty interrupted io_error : Raw A
  item : Option A → Raw A

pub data Received (A : Type 0) : Type 0 where
  nothing : Received A
  got : A → Received A
  -- SystemExit, with its code
  exits : ℕ → Received A

-- `_make_protected_receive`; the flag says that the sentinel is set.
unfoldable pub receive : {A : Type 0} → Bool → Raw A → Received A
receive true raw = exits 0
receive false empty = nothing
receive false interrupted = nothing
receive false io_error = exits 1
receive false (item none) = exits 1
receive false (item (some a)) = got a

pub data Syn : Type 0 where
  ack nack other : Syn

pub data Answer : Type 0 where
  confirmed : Bool → Answer
  exited : ℕ → Answer
  assertion_error no_more : Answer

-- The inner `wait_for_syn`; with no further poll it still waits.
unfoldable pub wait_for_syn : List (Bool × Raw Syn) → Answer
wait_for_syn [] = no_more
wait_for_syn ((shutdown, raw) ∷ polls) = elim (receive shutdown raw) [
  | nothing ↦ wait_for_syn polls
  | exits code ↦ exited code
  | got syn ↦ elim syn [ ack ↦ confirmed true | nack ↦ confirmed false | other ↦ assertion_error ]
]

-- How the function of a task ends.
pub data Ended : Type 0 where
  returns raises raises_exit : Ended

-- A task with all that happens while it is handled: the polls of the synqueue, the status that the
-- function hands to `sys.exit` if it calls it, how it ends, whether a terminate signal was handled,
-- whether the result and the error in place of it can be sent, and the memory used after it.
pub record Request : Type 0 where
  pub job : ℕ
  pub i : Option ℕ
  pub polls : List (Bool × Raw Syn)
  pub sys_exit : Option (Option ℤ)
  pub ended : Ended
  pub terminate_fired : Bool
  pub encodes : Bool
  pub error_encodes : Bool
  pub used_kb : ℕ

pub record Config : Type 0 where
  pub maxtasks : Option ℕ
  pub max_memory_per_child : ℕ
  -- the pool has synqueues
  pub has_synq : Bool

-- Messages to the outqueue; the flag of `ready` is the success of the task.
pub data Message : Type 0 where
  acked : ℕ → Option ℕ → Message
  ready : ℕ → Option ℕ → Bool → Message
  death : ℤ → Message

-- How `workloop` ends: it returns a code, SystemExit or KeyboardInterrupt leaves it, another exception
-- does, or it waits for more.
pub data Exit : Type 0 where
  returned : ℕ → Exit
  unwinds failed waits : Exit

pub record Run : Type 0 where
  pub sent : List Message
  pub completed : ℕ
  -- what the last call of the replaced `sys.exit` was given
  pub status : Option ℤ
  pub exit : Exit

-- A run that stops here.
abbrev pub stop : Exit → ℕ → Option ℤ → List Message → Run
stop exit completed status sent = record {
  sent = sent;
  completed = completed;
  status = status;
  exit = exit;
}

abbrev pub before : List Message → Run → Run
before sent run = record run { sent = sent ++ run.sent }

abbrev pub is_success : Ended → Bool
is_success returns = true
is_success raises = false
is_success raises_exit = false

abbrev pub new_status : Option (Option ℤ) → Option ℤ → Option ℤ
new_status none status = status
new_status (some given) status = given

abbrev pub memory_exceeded : Config → Request → Bool
memory_exceeded cfg req =
    ltb 0 cfg.max_memory_per_child
    && (ltb 0 req.used_kb && ltb cfg.max_memory_per_child req.used_kb)

-- From `completed += 1` to the end of the body, the rest of the loop given; the flag says that the
-- worker uses too much memory.
abbrev pub conclude : Ended → Bool → ℕ → Option ℤ → Run → Run
conclude raises_exit too_much completed status rest = stop unwinds completed status []
conclude returns too_much completed status rest =
    if too_much then stop (returned 0x9B) completed status [] else rest
conclude raises too_much completed status rest =
    if too_much then stop (returned 0x9B) completed status [] else rest

-- An exception after a terminate signal was handled leaves the loop, with no result.
abbrev pub cut_short : Ended → Bool → Option Exit
cut_short returns fired = none
cut_short raises fired = if fired then some failed else none
cut_short raises_exit fired = if fired then some unwinds else none

-- The `put` of the result, and of a MaybeEncodingError if that raises, before the rest of the body.
abbrev pub report : Bool → Bool → Request → ℕ → Option ℤ → Run → Run
report true wrapped req completed status rest =
    before (ready req.job req.i (is_success req.ended) ∷ []) rest
report false true req completed status rest = before (ready req.job req.i false ∷ []) rest
report false false req completed status rest = stop failed completed status []

-- The body after the confirmation.
abbrev pub execute : Config → Request → ℕ → Option ℤ → Run → Run
execute cfg req completed status rest = elim (cut_short req.ended req.terminate_fired) [
  | some exit ↦ stop exit completed status []
  | none ↦
      report req.encodes req.error_encodes req completed status
        (conclude req.ended (memory_exceeded cfg req) (suc completed) status rest)
]

-- The body from the confirmation on: `run` is what follows an ACK, `rest` what follows a NACK.
abbrev pub act_on : Answer → ℕ → Option ℤ → Run → Run → Run
act_on (confirmed true) completed status run rest = run
act_on (confirmed false) completed status run rest = rest
act_on (exited code) completed status run rest = stop unwinds completed status []
act_on assertion_error completed status run rest = stop failed completed status []
act_on no_more completed status run rest = stop waits completed status []

-- `maxtasks is None or (maxtasks and completed < maxtasks)`
abbrev pub goes_on : Config → ℕ → Bool
goes_on cfg completed = elim cfg.maxtasks [ none ↦ true | some m ↦ ltb completed m ]

-- The code that is returned after the loop.
abbrev pub loop_code : Config → ℕ → ℕ
loop_code cfg completed = elim cfg.maxtasks [
  | none ↦ 0
  | some m ↦ if m == 0 then 0 else if completed == m then 0x9B else 1
]

-- `workloop`, over the polls of the inqueue.
unfoldable pub workloop : Config → List (Bool × Raw Request) → ℕ → Option ℤ → Run
workloop cfg [] completed status =
    if goes_on cfg completed
    then stop waits completed status []
    else stop (returned (loop_code cfg completed)) completed status []
workloop cfg ((shutdown, raw) ∷ polls) completed status = elim (goes_on cfg completed) [
  | false ↦ stop (returned (loop_code cfg completed)) completed status []
  | true ↦ elim (receive shutdown raw) [
    | nothing ↦ workloop cfg polls completed status
    | exits code ↦ stop unwinds completed status []
    | got req ↦ before (acked req.job req.i ∷ []) (
        act_on (if cfg.has_synq then wait_for_syn req.polls else confirmed true) completed status
          (execute cfg req completed (new_status req.sys_exit status)
            (workloop cfg polls (suc completed) (new_status req.sys_exit status)))
          (workloop cfg polls completed status))
  ]
]

-- `_do_exit`: the exit code of the process, from `_exitcode[0]` and whether there is an exception.
unfoldable pub exit_code : Option ℤ → Bool → ℤ
exit_code (some code) exc = code
exit_code none true = pos 1
exit_code none false = pos 0

-- The handlers of `__call__`, with the messages of the process and its exit code; none while it runs.
unfoldable pub die : Run → List Message × Option ℤ
die run = elim run.exit [
  | waits ↦ (run.sent, none)
  | returned code ↦ (
    run.sent ++ death (exit_code (some (pos code)) false) ∷ [],
    some (exit_code (some (pos code)) false),
  )
  | unwinds ↦
      (run.sent ++ death (exit_code run.status false) ∷ [], some (exit_code run.status false))
  | failed ↦ (run.sent ++ death (exit_code run.status true) ∷ [], some (exit_code run.status true))
]

-- `__call__`: `sys.exit(self.workloop(...))` and its handlers.
unfoldable pub call : Config → List (Bool × Raw Request) → List Message × Option ℤ
call cfg polls = die (workloop cfg polls 0 none)
