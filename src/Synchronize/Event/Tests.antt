-- ===== src/Synchronize/Event/Tests.antt =====
-- Inputs for `Event`.
use billiard.Prelude.{◌≡◌, refl, true, false, List, [], ◌∷◌}
use billiard.Synchronize.Event.{init, is_set, set, clear, before_wait, after_wait}
use billiard.Synchronize.Event.Flag.{
  Op, sets, clears, asks, begins_wait, ends_wait, run, answers, run-init,
}

abbrev ops : List Op
ops = begins_wait ∷ sets ∷ sets ∷ ends_wait ∷ clears ∷ asks ∷ []

run-ops : run ops init ≡ true ∷ true ∷ false ∷ []
unfolding run init is_set set clear before_wait after_wait
run-ops = refl

run-init_example : run ops init ≡ answers ops false
run-init_example = run-init ops
