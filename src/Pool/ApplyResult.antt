-- ===== src/Pool/ApplyResult.antt =====
-- billiard/pool.py, `class ApplyResult`: the result of `Pool.apply_async`.
mod Settling
mod Tests
use billiard.Prelude.{
  ℕ, Bool, true, false, Option, none, some, List, [], ◌∷◌, ◌++◌, ◌==◌, if◌then◌else◌, ◌&&◌, not,
}

-- `(True, value)` or `(False, ExceptionInfo())`
pub data Reply (V E : Type 0) : Type 0 where
  success : V → Reply V E
  failure : E → Reply V E

-- How a callback of the caller ends: `fails` raises an exception that `safe_apply_callback` logs,
-- `memory` raises MemoryError and `propagates` one of `callbacks_propagate`.
pub data Ending : Type 0 where
  returns fails memory propagates : Ending

pub data Response : Type 0 where
  positive negative : Response

-- What the object does to the outside, in order.
pub data Effect (V E : Type 0) : Type 0 where
  timeout_set timeout_cancelled : Effect V E
  callback_called : V → Effect V E
  error_called : E → Effect V E
  accept_called : ℕ → ℕ → Effect V E
  timeout_called : Bool → Option ℕ → Effect V E
  error_logged : Effect V E
  sent : Response → ℕ → ℕ → Effect V E

-- What the caller of `apply_async` gave; for a callback, how it ends on each argument.
pub record Options (V E : Type 0) : Type 0 where
  pub callback : Option (V → Ending)
  pub error_callback : Option (E → Ending)
  pub accept_callback : Option (ℕ → ℕ → Ending)
  pub timeout_callback : Option (Bool → Option ℕ → Ending)
  pub on_timeout_set : Bool
  pub on_timeout_cancel : Bool
  pub send_ack : Bool
  pub soft_timeout : Option ℕ
  pub timeout : Option ℕ

-- `event` is the flag of `_event`; `cached` says whether the cache has the entry of this job.
pub record ApplyResult (V E : Type 0) : Type 0 where
  pub options : Options V E
  pub open options use *
  pub job : ℕ
  pub accepted : Bool
  pub cancelled : Bool
  pub worker_pid : Option ℕ
  pub time_accepted : Option ℕ
  pub reply : Option (Reply V E)
  pub event : Bool
  pub cached : Bool
  pub log : List (Effect V E)

pub data Exn : Type 0 where
  memory_error propagated attribute_error : Exn

pub data Outcome (V E : Type 0) : Type 0 where
  done : ApplyResult V E → Outcome V E
  raised : Exn → ApplyResult V E → Outcome V E

module _ {V E : Type 0} where
  -- `__init__`
  unfoldable pub init : Options V E → ℕ → ApplyResult V E
  init options job = record {
    options = options;
    job = job;
    accepted = false;
    cancelled = false;
    worker_pid = none;
    time_accepted = none;
    reply = none;
    event = false;
    cached = true;
    log = [];
  }

  -- `_cancel`
  unfoldable pub cancel : ApplyResult V E → ApplyResult V E
  cancel s = record s { cancelled = true }

  -- `discard`
  unfoldable pub discard : ApplyResult V E → ApplyResult V E
  discard s = record s { cached = false }

  abbrev emit : Effect V E → ApplyResult V E → ApplyResult V E
  emit e s = record s { log = s.log ++ e ∷ [] }

  -- `safe_apply_callback`, once the call of the callback is in the log
  abbrev pub safe_apply_callback : Ending → ApplyResult V E → Outcome V E
  safe_apply_callback returns s = done s
  safe_apply_callback fails s = done (emit error_logged s)
  safe_apply_callback memory s = raised memory_error s
  safe_apply_callback propagates s = raised propagated s

  abbrev call_timeout :
      Option (Bool → Option ℕ → Ending) → Bool → Option ℕ → ApplyResult V E → Outcome V E
  call_timeout none soft limit s = done s
  call_timeout (some f) soft limit s =
      safe_apply_callback (f soft limit) (emit (timeout_called soft limit) s)

  -- `handle_timeout`
  unfoldable pub handle_timeout : Bool → ApplyResult V E → Outcome V E
  handle_timeout soft s =
      call_timeout s.timeout_callback soft (if soft then s.soft_timeout else s.timeout) s

  -- The two callbacks at the end of `_set`.
  abbrev call_back : Reply V E → ApplyResult V E → Outcome V E
  call_back (success v) s = elim s.callback [
    | none ↦ done s
    | some f ↦ safe_apply_callback (f v) (emit (callback_called v) s)
  ]
  call_back (failure e) s = elim s.error_callback [
    | none ↦ done s
    | some f ↦ safe_apply_callback (f e) (emit (error_called e) s)
  ]

  -- `_set`; the index of the message is not used.
  unfoldable pub set_reply : Reply V E → ApplyResult V E → Outcome V E
  set_reply obj s =
      let s' = if s.on_timeout_cancel then emit timeout_cancelled s else s in
      call_back obj (record s' {
        reply = some obj;
        event = true;
        cached = if s.accepted then false else s.cached;
      })

  -- `if synqW_fd`: None and 0 are false.
  abbrev send : Response → ℕ → Option ℕ → ApplyResult V E → ApplyResult V E
  send response pid none s = s
  send response pid (some fd) s = if fd == 0 then s else emit (sent response pid fd) s

  -- The call of the accept callback and what follows. Any exception of the callback reaches
  -- `except self._propagate_errors`, an attribute that no class of the module has.
  abbrev confirm : ℕ → ℕ → Option ℕ → ApplyResult V E → Outcome V E
  confirm time pid fd s = elim s.accept_callback [
    | none ↦ done (if s.send_ack then send positive pid fd s else s)
    | some f ↦
        let s' = emit (accept_called pid time) s in
        elim (f pid time) [
          | returns ↦ done (if s.send_ack then send positive pid fd s' else s')
          | _ ↦ raised attribute_error s'
        ]
  ]

  -- `_ack`
  unfoldable pub ack : ℕ → ℕ → Option ℕ → ApplyResult V E → Outcome V E
  ack time pid fd s =
      if s.cancelled && s.send_ack
      then done (send negative pid fd (record s { accepted = true }))
      else (let s' = record s {
        accepted = true;
        time_accepted = some time;
        worker_pid = some pid;
        cached = if s.event then false else s.cached;
      } in
          confirm time pid fd (if s.on_timeout_set then emit timeout_set s' else s'))

  -- `worker_pids`: `[self._worker_pid] if self._worker_pid else []`
  unfoldable pub worker_pids : ApplyResult V E → List ℕ
  worker_pids s = elim s.worker_pid [ none ↦ [] | some pid ↦ if pid == 0 then [] else pid ∷ [] ]
