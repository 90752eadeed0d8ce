-- ===== src/Pool/Timeouts/Tests.antt =====
-- Inputs for the time limits.
use billiard.Prelude.{ℕ, ◌≤◌, ◌≡◌, refl, true, false, none, some, List, [], ◌∷◌}
use billiard.Pool.Timeouts.{
  Job, applied, Limits, Env, settled, called_back, terminated, killed, swept, round,
}
use billiard.Pool.Timeouts.Soft.{softs, rounds, actions_of, rounds-soft_once}

-- Every worker ignores TERM.
abbrev stubborn : Env
stubborn = record {
  is_worker = λ pid. pid;
  set_returns = λ i. true;
  callback_returns = λ b i. true;
  signal_allowed = λ pid. true;
  is_leader = λ pid. false;
  term_fails = λ pid. false;
  exits_in_time = λ pid. false;
}

abbrev limits : Limits
limits = record { t_soft = some 5; t_hard = some 10 }

abbrev job : ℕ → Job
job start = applied (record {
  time_accepted = some start;
  soft_timeout = none;
  timeout = none;
  is_ready = false;
  worker_pid = some 77;
})

abbrev cache : List (ℕ × Job)
cache = (1, job 100) ∷ (2, job 108) ∷ []

round-late :
    round stubborn limits 111 cache []
    ≡ swept [] (settled 1 ∷ called_back false 1 ∷ terminated false 77 ∷ killed false 77 ∷ [])
unfolding round
round-late = refl

rounds-soft_once_example :
    (softs true 1 (actions_of (rounds stubborn limits ((106, cache) ∷ (107, cache) ∷ []) [])) ≤ 1)
    × (softs false 1 (actions_of (rounds stubborn limits ((106, cache) ∷ (107, cache) ∷ []) []))
        ≤ 1)
rounds-soft_once_example =
    rounds-soft_once stubborn limits 1 ((106, cache) ∷ (107, cache) ∷ []) (refl, (refl, tt))
