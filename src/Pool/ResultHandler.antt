-- ===== src/Pool/ResultHandler.antt =====
-- billiard/pool.py, `class ResultHandler`: what the pool does with the messages of its workers.
pub mod Tracking
pub mod Loop
mod Shutdown
mod Credit
mod Cache
mod Tests
use billiard.Prelude.{
  ℕ, ◌+◌, Bool, true, false, Option, none, some, List, [], ◌∷◌, ◌++◌, ◌==◌, if◌then◌else◌,
}
use billiard.Prelude.Dict.{Dict, lookup, insert, erase}
use billiard.Pool.Semaphore.{Semaphore, release}
use Tracking.{Task, Tables, note_ack, note_ready, note_exit}

pub data Exn : Type 0 where
  key_error attribute_error other_error os_error : Exn

-- How a method of a job ends: the job afterwards, whether the cache still has it, and what was raised.
pub record Handled (J : Type 0) : Type 0 where
  pub job : J
  pub listed : Bool
  pub exn : Option Exn

-- The methods that the handler calls on a job, whichever of the result classes it is of. Arguments
-- are those of the source, without the job's own number.
pub record JobClass (J Obj : Type 0) : Type 0 where
  pub is_ready : J → Bool
  pub set_reply : Option ℕ → Obj → J → Handled J
  pub ack : Option ℕ → ℕ → ℕ → Option ℕ → J → Handled J

-- What `os.kill` does: it works, there is no such process (ESRCH), or it fails otherwise.
pub data Kill : Type 0 where
  delivered no_process refused : Kill

-- The messages `(state, args)`; `unknown` is any state without a handler.
pub data Message (Obj : Type 0) : Type 0 where
  on_ack : ℕ → Option ℕ → ℕ → ℕ → Option ℕ → Message Obj
  on_ready : ℕ → Option ℕ → Obj → Message Obj
  on_death : ℕ → ℕ → Message Obj
  unknown : ℕ → Message Obj

pub record Handler (J : Type 0) : Type 0 where
  pub tables : Tables
  pub cache : Dict J
  pub putlock : Option Semaphore
  -- `restart_state.R`
  pub restarts : ℕ
  pub killed : List ℕ

-- The handler goes on, or an exception ends its thread.
pub data Outcome (J : Type 0) : Type 0 where
  done : Handler J → Outcome J
  raised : Exn → Handler J → Outcome J

module _ {J Obj : Type 0} (class : JobClass J Obj) where
  -- The cache after a method of its entry `job`.
  abbrev store : ℕ → Handled J → Handler J → Handler J
  store job m h = record h {
    cache = if m.listed then insert job m.job h.cache else erase job h.cache;
  }

  -- `except (KeyError, AttributeError): pass` around `_ack`
  abbrev after_ack : Option Exn → Handler J → Outcome J
  after_ack none h = done h
  after_ack (some key_error) h = done h
  after_ack (some attribute_error) h = done h
  after_ack (some other_error) h = raised other_error h
  after_ack (some os_error) h = raised os_error h

  -- `except KeyError: pass` around `_set`
  abbrev after_set : Option Exn → Handler J → Outcome J
  after_set none h = done h
  after_set (some key_error) h = done h
  after_set (some attribute_error) h = raised attribute_error h
  after_set (some other_error) h = raised other_error h
  after_set (some os_error) h = raised os_error h

  unfoldable pub handle_ack : ℕ → Option ℕ → ℕ → ℕ → Option ℕ → Handler J → Outcome J
  handle_ack job i time pid fd h =
      let h' = record h {
        restarts = 0;
        tables = note_ack (record { job = job; i = i }) pid h.tables;
      } in
      elim (lookup job h.cache) [
        | none ↦ done h'
        | some item ↦ let m = class.ack i time pid fd item in after_ack m.exn (store job m h')
      ]

  abbrev give_back : Option Semaphore → Option Semaphore
  give_back none = none
  give_back (some lock) = some (release lock)

  unfoldable pub handle_ready : ℕ → Option ℕ → Obj → Handler J → Outcome J
  handle_ready job i obj h =
      let h' = record h { tables = note_ready (record { job = job; i = i }) h.tables } in
      elim (lookup job h.cache) [
        | none ↦ done h'
        | some item ↦
            let m = class.set_reply i obj item in
            after_set m.exn (
              store job m (record h' {
                putlock = if class.is_ready item then h.putlock else give_back h.putlock;
              }))
      ]

  unfoldable pub handle_death : (ℕ → Kill) → ℕ → ℕ → Handler J → Outcome J
  handle_death kill pid exitcode h = elim (kill pid) [
    | delivered ↦ done (record h { killed = pid ∷ h.killed })
    | no_process ↦ done h
    | refused ↦ raised os_error h
  ]

  -- `on_state_change`: a KeyError is taken for an unknown state, wherever it comes from.
  unfoldable pub on_state_change : (ℕ → Kill) → Message Obj → Handler J → Outcome J
  unfolding handle_ack handle_ready handle_death
  on_state_change kill (on_ack job i time pid fd) h = handle_ack job i time pid fd h
  on_state_change kill (on_ready job i obj) h = handle_ready job i obj h
  on_state_change kill (on_death pid exitcode) h = handle_death kill pid exitcode h
  on_state_change kill (unknown state) h = done h
