-- ===== src/Common/RestartState/Tests.antt =====
-- Inputs for `restart_state`.
use billiard.Prelude.{◌≡◌, refl, some, [], ◌∷◌, arith}
use billiard.Common.RestartState.{exceeded, init, step, run}
use billiard.Common.RestartState.Burst.{opened, run-init_burst}

-- Two restarts are allowed in 10 ticks: the third raises.
run-init_third : run (init (some 2) 10) (100 ∷ 101 ∷ 102 ∷ 103 ∷ []) ≡ exceeded (opened 1 10 100)
unfolding run init step
run-init_third = refl

run-init_burst_example : run (init (some 2) 10) (100 ∷ 101 ∷ 102 ∷ []) ≡ exceeded (opened 1 10 100)
run-init_burst_example =
    (run-init_burst 1 10 100 (101 ∷ 102 ∷ []) (omega arith) (omega arith) (omega arith)).1
      (omega arith)
