-- ===== src/Pool/Timeouts/Hard.antt =====
-- The hard limit: whom it settles, and what it cannot cope with.
use billiard.Prelude.{ℕ, ◌≡◌, Bool, false, Option, none, some, List, [], ◌∷◌, ◌==◌, ◌||◌, ◌&&◌, not}
use billiard.Pool.Timeouts.{
  Job, applied, mapped, iterated, Applied, Limits, Action, settled, called_back, signalled_soft,
  terminated, killed, Env, timed_out, limit, Pass, swept, crashed,
}

-- What the hard limit is to do: settle job i, stop process pid, or stop it by KILL.
pub data Want : Type 0 where
  settling stopping killing : ℕ → Want

-- Whether an action does it; TERM or KILL stops.
abbrev pub hits : Want → Action → Bool
hits (settling i) (settled j) = j == i
hits (settling i) (called_back b j) = false
hits (settling i) (signalled_soft j pid) = false
hits (settling i) (terminated g pid) = false
hits (settling i) (killed g pid) = false
hits (stopping p) (terminated g pid) = pid == p
hits (stopping p) (killed g pid) = pid == p
hits (stopping p) (settled j) = false
hits (stopping p) (called_back b j) = false
hits (stopping p) (signalled_soft j pid) = false
hits (killing p) (killed g pid) = pid == p
hits (killing p) (terminated g pid) = false
hits (killing p) (settled j) = false
hits (killing p) (called_back b j) = false
hits (killing p) (signalled_soft j pid) = false

abbrev pub any_hit : Want → List Action → Bool
any_hit w [] = false
any_hit w (a ∷ rest) = hits w a || any_hit w rest

-- Whether it is to be done for an overdue job: its worker is stopped if it is found, and by KILL if TERM
-- fails or the worker does not exit in time.
abbrev pub stop_due : Option ℕ → ℕ → Bool
stop_due none p = false
stop_due (some pid) p = pid == p

abbrev pub kill_due : Env → Option ℕ → ℕ → Bool
kill_due env none p = false
kill_due env (some pid) p = (env.term_fails pid || not (env.exits_in_time pid)) && pid == p

abbrev pub due : Env → Want → ℕ → Applied → Bool
due env (settling i) j job = j == i
due env (stopping p) j job = stop_due (env.is_worker job.worker_pid) p
due env (killing p) j job = kill_due env (env.is_worker job.worker_pid) p

-- The accepted jobs past their hard limit that have no result yet.
abbrev pub is_due : Env → Want → Limits → ℕ → ℕ → Job → Bool
is_due env w l now j (applied job) =
    due env w j job
    && (not job.is_ready && timed_out now job.time_accepted (limit job.timeout l.t_hard))
is_due env w l now j (mapped times) = false
is_due env w l now j iterated = false

abbrev pub any_overdue : Env → Want → Limits → ℕ → List (ℕ × Job) → Bool
any_overdue env w l now [] = false
any_overdue env w l now ((j, job) ∷ cache) =
    is_due env w l now j job || any_overdue env w l now cache

abbrev pub AllApplied : List (ℕ × Job) → Type 0
AllApplied [] = Unit {0}
AllApplied ((j, applied job) ∷ cache) = AllApplied cache
AllApplied ((j, mapped times) ∷ cache) = ⊥
AllApplied ((j, iterated) ∷ cache) = ⊥

abbrev pub Does : Want → Bool → Pass → Type 0
Does w b (swept dirty actions) = any_hit w actions ≡ b
Does w b (crashed e actions) = ⊥
