-- ===== src/Pool/Workers/Refill.antt =====
-- `Pool._repopulate_pool` and `Pool._create_worker_process`: new workers for the missing ones.
use billiard.Prelude.{
  ℕ, zero, suc, ◌-◌, ◌<◌, ◌≡◌, refl, Bool, true, false, Option, none, some, List, [], ◌∷◌, ◌++◌,
  length, get_elem?, ◌==◌, if◌then◌else◌, ◌||◌, not, arith,
}
use billiard.Prelude.Int.{ℤ}
use billiard.Common.RestartState.{RestartState, Outcome, ok, exceeded, step}
use billiard.Pool.Workers.{Worker, PoolState, Distinct, Below, is_clean, elem, indices}
use billiard.Pool.Workers.Index.{avail_index}

-- What the rounds of the loop find: `_state == RUN`, the clock, whether `start` works, and the pid of the
-- process that the round starts.
pub record Births : Type 0 where
  pub running : ℕ → Bool
  pub clock : ℕ → ℕ
  pub starts : ℕ → Bool
  pub new_pid : ℕ → ℕ

pub data Exn : Type 0 where
  restart_freq_exceeded stop_iteration os_error : Exn

pub data Refilled : Type 0 where
  done : PoolState → Refilled
  raised : Exn → PoolState → Refilled

-- `exitcodes and exitcodes[i] not in (EX_OK, EX_RECYCLE)`, or IndexError
unfoldable pub needs_step : List (Option ℤ) → ℕ → Bool
needs_step [] i = false
needs_step (c ∷ codes) i = elim (get_elem? (c ∷ codes) i) [
  | none ↦ true
  | some code ↦ not (is_clean code)
]

unfoldable pub limit : List (Option ℤ) → ℕ → ℕ → RestartState → Outcome
limit codes i now s = if needs_step codes i then step s now else ok s

-- The worker that `_create_worker_process` appends, and starts if that works. Without a process its pid is
-- None, which 0 stands for.
unfoldable pub create_worker_process : ℕ → Bool → ℕ → PoolState → PoolState
create_worker_process i starts pid s = record s {
  pool =
      s.pool
      ++ record {
        pid = if starts then pid else 0;
        index = i;
        started = starts;
        exitcode = none;
        controlled_termination = false;
        job_terminated = false;
      }
        ∷ [];
}

-- OSError of `start`, or the further rounds.
abbrev pub proceed : Bool → PoolState → Refilled → Refilled
proceed true s rest = rest
proceed false s rest = raised os_error s

unfoldable pub refill : ℕ → ℕ → Births → List (Option ℤ) → PoolState → Refilled
refill zero i env codes s = done s
refill (suc rounds) i env codes s = elim (env.running i) [
  | false ↦ done s
  | true ↦ elim (limit codes i (env.clock i) s.restart_state) [
    | exceeded limiter ↦ raised restart_freq_exceeded (record s { restart_state = limiter })
    | ok limiter ↦ elim (avail_index s.processes s.pool) [
      | none ↦ raised stop_iteration (record s { restart_state = limiter })
      | some index ↦
          let t =
            create_worker_process index (env.starts i) (env.new_pid i)
              (record s { restart_state = limiter }) in
          proceed (env.starts i) t (refill rounds (suc i) env codes t)
    ]
  ]
]

unfoldable pub repopulate_pool : Births → List (Option ℤ) → PoolState → Refilled
repopulate_pool env codes s = refill (s.processes - length s.pool) 0 env codes s

pub elem-append : (i j : ℕ) (l : List ℕ) → elem i (l ++ j ∷ []) ≡ (elem i l || j == i)
elem-append i j [] = ground arith
elem-append i j (k ∷ l) = ground (arith, elem-append i j l)

pub Distinct-append : (j : ℕ) (l : List ℕ) → elem j l ≡ false → Distinct l → Distinct (l ++ j ∷ [])
Distinct-append j [] free d = (refl, tt)
Distinct-append j (k ∷ l) free d =
    (ground (arith, elem-append k j l, d.0), Distinct-append j l (ground arith) d.1)

pub Below-append : (n j : ℕ) (l : List ℕ) → j < n → Below n l → Below n (l ++ j ∷ [])
Below-append n j [] lt b = (lt, tt)
Below-append n j (k ∷ l) lt b = (b.0, Below-append n j l lt b.1)

pub indices-append :
    (w : Worker) (l : List Worker) → indices (l ++ w ∷ []) ≡ indices l ++ w.index ∷ []
indices-append w [] = refl
indices-append w (v ∷ l) = rw (indices-append w l) refl
