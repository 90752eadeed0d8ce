-- ===== src/Pool/WorkerLoop/Tests.antt =====
-- A worker process on concrete messages.
use billiard.Prelude.{
  ◌↔◌, ◌<◌, ◌-◌, ℕ, ◌≤◌, ◌≡◌, refl, Bool, true, false, none, some, List, [], ◌∷◌, arith,
}
use billiard.Prelude.Int.{pos}
use billiard.Pool.Workers.{is_clean}
use billiard.Pool.WorkerLoop.{
  Raw, empty, io_error, item, receive, Syn, ack, nack, wait_for_syn, Request, returns, raises,
  raises_exit, Config, acked, ready, death, workloop, exit_code, die, call,
}
use billiard.Pool.WorkerLoop.Protocol.{Replies, Recycles, results, workloop-protocol}
use billiard.Pool.WorkerLoop.Consumed.{ensure_messages_consumed, ensure_messages_consumed-reads}
use billiard.Pool.WorkerLoop.Exits.{call-clean}

abbrev config : Config
config = record { maxtasks = some 2; max_memory_per_child = 0; has_synq = true }

abbrev request : ℕ → Syn → Request
request job syn = record {
  job = job;
  i = none;
  polls = (false, empty) ∷ (false, item (some syn)) ∷ [];
  sys_exit = none;
  ended = raises;
  terminate_fired = false;
  encodes = true;
  error_encodes = true;
  used_kb = 0;
}

-- The first task is refused, the third can only be reported as an error of encoding.
abbrev polls : List (Bool × Raw Request)
polls =
    (false, item (some (request 1 nack)))
    ∷ (false, empty)
    ∷ (false, item (some (record (request 2 ack) { ended = returns })))
    ∷ (false, item (some (record (request 3 ack) { ended = returns; encodes = false })))
    ∷ (false, item (some (request 4 ack)))
    ∷ []

call_polls : call config polls ≡ (
  acked 1 none
      ∷ acked 2 none
      ∷ ready 2 none true
      ∷ acked 3 none
      ∷ ready 3 none false
      ∷ death (pos 0x9B)
      ∷ [],
  some (pos 0x9B),
)
unfolding call die workloop receive wait_for_syn exit_code
call_polls = refl

-- A task that calls `sys.exit(3)` is reported, and its status is that of the process.
call_exit :
    call config (
      (
        false,
        item
            (some (record (request 1 ack) { ended = raises_exit; sys_exit = some (some (pos 3)) })),
      )
      ∷ [])
    ≡ (acked 1 none ∷ ready 1 none false ∷ death (pos 3) ∷ [], some (pos 3))
unfolding call die workloop receive wait_for_syn exit_code
call_exit = refl

workloop-protocol_example :
    let run = workloop config polls 0 none in
    Replies none run.sent
    × (results run.sent ≡ run.completed)
    × ((m : ℕ) → some 2 ≡ some m → run.completed ≤ m)
    × Recycles run.exit
workloop-protocol_example = workloop-protocol config polls (λ m e. ground (arith, e))

call-clean_example :
    (call config ((false, empty) ∷ (false, io_error) ∷ []) ≡ (death (pos 0) ∷ [], some (pos 0)))
    × (is_clean (call config ((false, empty) ∷ (false, io_error) ∷ [])).1 ≡ true)
unfolding receive
call-clean_example = call-clean config ((false, empty) ∷ []) [] false io_error refl (refl, tt) refl

-- A counter that reaches the two completed tasks at the fourth retry.
ensure_messages_consumed-reads_example :
    (ensure_messages_consumed (some (λ retry. retry - 1)) 2 ≡ true)
    ↔ ((k : ℕ) × (k < 300) × (2 ≤ k - 1))
ensure_messages_consumed-reads_example = ensure_messages_consumed-reads (λ retry. retry - 1) 2
