-- ===== src/Pool/Workers/Fill.antt =====
-- The pool after `Pool._repopulate_pool`.
use billiard.Prelude.{
  ℕ, zero, suc, ◌+◌, ◌-◌, ◌≤◌, ◌<◌, ◌≡◌, refl, ◌⊎◌, inl, inr, Bool, true, false, ap, ◌∙◌, Option,
  some, List, [], ◌∷◌, length, length-append, get_elem?, arith,
}
use billiard.Prelude.Int.{ℤ}
use billiard.Common.RestartState.{RestartState, Outcome, ok, exceeded}
use billiard.Pool.Workers.{PoolState, IsSlotted, is_clean, elem, indices}
use billiard.Pool.Workers.Index.{avail_index-fresh}
use billiard.Pool.Workers.Refill.{
  Births, restart_freq_exceeded, stop_iteration, os_error, proceed, Refilled, done, raised,
  needs_step, limit, create_worker_process, refill, repopulate_pool, Distinct-append, Below-append,
  indices-append,
}

create-IsSlotted :
    (i : ℕ) (b : Bool) (pid : ℕ) (s : PoolState)
    → IsSlotted s
    → i < s.processes
    → elem i (indices s.pool) ≡ false
    → IsSlotted (create_worker_process i b pid s)
unfolding create_worker_process
create-IsSlotted i b pid s h lt free = record {
  distinct = rw (indices-append _ s.pool) (Distinct-append i (indices s.pool) free h.distinct);
  below = rw (indices-append _ s.pool) (Below-append s.processes i (indices s.pool) lt h.below);
}

length-create :
    (i : ℕ) (b : Bool) (pid : ℕ) (s : PoolState)
    → length (create_worker_process i b pid s).pool ≡ length s.pool + 1
unfolding create_worker_process
length-create i b pid s = length-append s.pool _

-- A full pool of slotted workers, or what the limiter or a failed start stopped; the search for an index never fails.
abbrev pub Fills : ℕ → Refilled → Type 0
Fills n (done s) = (length s.pool ≡ n) × (s.processes ≡ n) × IsSlotted s
Fills n (raised restart_freq_exceeded s) = (length s.pool < n) × (s.processes ≡ n) × IsSlotted s
Fills n (raised stop_iteration s) = ⊥
Fills n (raised os_error s) = (length s.pool ≤ n) × (s.processes ≡ n) × IsSlotted s

Outcome-cases :
    (o : Outcome) → ((t : RestartState) × (o ≡ ok t)) ⊎ ((t : RestartState) × (o ≡ exceeded t))
Outcome-cases (ok t) = inl (t, refl)
Outcome-cases (exceeded t) = inr (t, refl)

proceed-Fills :
    (n : ℕ) (b : Bool) (s : PoolState) (rest : Refilled)
    → (length s.pool ≤ n) × (s.processes ≡ n) × IsSlotted s
    → Fills n rest
    → Fills n (proceed b s rest)
proceed-Fills n true s rest h f = f
proceed-Fills n false s rest h f = h

refill-Fills :
    (rounds i : ℕ) (env : Births) (codes : List (Option ℤ)) (s : PoolState)
    → ((j : ℕ) → env.running j ≡ true)
    → length s.pool + rounds ≡ s.processes
    → IsSlotted s
    → Fills s.processes (refill rounds i env codes s)
unfolding refill create_worker_process
refill-Fills zero i env codes s run n h = (omega arith, refl, h)
refill-Fills (suc rounds) i env codes s run n h =
    rw (run i, refill)
      (elim (Outcome-cases (limit codes i (env.clock i) s.restart_state)) [
        | inl (t, e) ↦
            let (k, found, lt, free) = avail_index-fresh s.processes s.pool (omega arith) in
            let s' : PoolState = record s { restart_state = t } in
            let grown = length-create k (env.starts i) (env.new_pid i) s' in
            let slotted =
              create-IsSlotted k (env.starts i) (env.new_pid i) s'
                (record { distinct = h.distinct; below = h.below }) lt free in
            rw (e, found, refill)
              (proceed-Fills s.processes (env.starts i)
                (create_worker_process k (env.starts i) (env.new_pid i) s') _
                (omega (arith, grown), refl, slotted)
                (refill-Fills rounds (suc i) env codes
                  (create_worker_process k (env.starts i) (env.new_pid i) s') run
                  (omega (arith, grown)) slotted))
        | inr (t, e) ↦
            rw (e, refill) (omega arith, refl, record { distinct = h.distinct; below = h.below })
      ])

-- While the pool runs, refilling a pool whose workers have indices of their own below the number of
-- processes, and that has no more workers than that, ends in one of three ways: with exactly as many
-- workers as processes, with RestartFreqExceeded and fewer, or with the OSError of a process that could
-- not be started, and at most as many. In each case the indices of all workers
-- are again distinct and below the number of processes, and the search for an index never fails.
pub repopulate_pool-Fills :
    (env : Births) (codes : List (Option ℤ)) (s : PoolState)
    → ((j : ℕ) → env.running j ≡ true)
    → length s.pool ≤ s.processes
    → IsSlotted s
    → Fills s.processes (repopulate_pool env codes s)
unfolding repopulate_pool
repopulate_pool-Fills env codes s run le h =
    refill-Fills (s.processes - length s.pool) 0 env codes s run (omega arith) h

-- Exit codes that ask for no step in the next rounds.
abbrev pub Quiet : ℕ → ℕ → List (Option ℤ) → Type 0
Quiet rounds i codes = (j : ℕ) → i ≤ j → j < i + rounds → needs_step codes j ≡ false

create-keeps :
    (k : ℕ) (b : Bool) (pid : ℕ) (s : PoolState)
    → ((create_worker_process k b pid s).restart_state ≡ s.restart_state)
      × ((create_worker_process k b pid s).processes ≡ s.processes)
unfolding create_worker_process
create-keeps k b pid s = (refl, refl)

pub refill-Quiet :
    (rounds i : ℕ) (env : Births) (codes : List (Option ℤ)) (s : PoolState)
    → ((j : ℕ) → env.running j ≡ true)
    → ((j : ℕ) → env.starts j ≡ true)
    → length s.pool + rounds ≡ s.processes
    → Quiet rounds i codes
    → (t : PoolState) × (refill rounds i env codes s ≡ done t)
      × (t.restart_state ≡ s.restart_state)
      × (t.putlock ≡ s.putlock)
      × (length t.pool ≡ s.processes)
unfolding refill limit create_worker_process
refill-Quiet zero i env codes s run begins n q = (s, refl, refl, refl, omega arith)
refill-Quiet (suc rounds) i env codes s run begins n q =
    let (k, found, lt, free) = avail_index-fresh s.processes s.pool (omega arith) in
    let (t, e, same, lock, full) =
      refill-Quiet rounds (suc i) env codes
        (create_worker_process k (env.starts i) (env.new_pid i) s) run begins
        (omega (arith, length-create k (env.starts i) (env.new_pid i) s))
        (λ j low high. q j (omega arith) (omega arith)) in
    (
      t,
      rw (run i, q i (omega arith) (omega arith), found, refill)
          (ap
              (λ b. proceed b (create_worker_process k (env.starts i) (env.new_pid i) s) (
                refill rounds (suc i) env codes
                  (create_worker_process k (env.starts i) (env.new_pid i) s)))
              (begins i)
            ∙ e),
      same,
      lock,
      full,
    )

abbrev pub AllClean : List (Option ℤ) → Type 0
AllClean [] = Unit {0}
AllClean (c ∷ codes) = (is_clean c ≡ true) × AllClean codes

get_elem?-AllClean :
    (codes : List (Option ℤ)) (j : ℕ)
    → AllClean codes
    → j < length codes
    → (c : Option ℤ) × (get_elem? codes j ≡ some c) × (is_clean c ≡ true)
get_elem?-AllClean [] j a lt = absurd (omega arith)
get_elem?-AllClean (c ∷ codes) zero a lt = (c, refl, a.0)
get_elem?-AllClean (c ∷ codes) (suc j) a lt = get_elem?-AllClean codes j a.1 (omega arith)

needs_step-clean :
    (codes : List (Option ℤ)) (j : ℕ)
    → AllClean codes
    → j < length codes
    → needs_step codes j ≡ false
unfolding needs_step
needs_step-clean [] j a lt = refl
needs_step-clean (c ∷ codes) j a lt =
    let (d, e, clean) = get_elem?-AllClean (c ∷ codes) j a lt in rw (e, clean, needs_step) refl

-- When every worker that was reaped exited with EX_OK or EX_RECYCLE, and as many were reaped as are
-- missing, a running pool replaces them all if every process can be started, the restarts do not count against the limit, and the
-- semaphore stays as it is.
pub repopulate_pool-clean :
    (env : Births) (codes : List (Option ℤ)) (s : PoolState)
    → ((j : ℕ) → env.running j ≡ true)
    → ((j : ℕ) → env.starts j ≡ true)
    → length s.pool + length codes ≡ s.processes
    → AllClean codes
    → (t : PoolState) × (repopulate_pool env codes s ≡ done t)
      × (t.restart_state ≡ s.restart_state)
      × (t.putlock ≡ s.putlock)
      × (length t.pool ≡ s.processes)
unfolding repopulate_pool
repopulate_pool-clean env codes s run begins n a =
    refill-Quiet (s.processes - length s.pool) 0 env codes s run begins (omega arith)
      (λ j low high. needs_step-clean codes j a (omega arith))
