-- ===== src/Process/Calls.antt =====
-- Any sequence of calls on the objects of a process.
use billiard.Prelude.{ℕ, Bool, Option, List, [], ◌∷◌}
use billiard.Process.Fork.{Waits, Kill}
use billiard.Process.{
  World, init, start, close, terminate, terminate_controlled, join, is_alive, exitcode,
  active_children,
}
use billiard.Process.Reach.{Reach, Reach-refl, Reach-trans}
use billiard.Process.Methods.{
  close-Reach, terminate-Reach, terminate_controlled-Reach, join-Reach, is_alive-Reach,
  exitcode-Reach,
}
use billiard.Process.Cleanup.{start-Reach, active_children-Reach}

pub data Call : Type 0 where
  starts : ℕ → Option (ℕ × ℕ) → (ℕ → Waits) → Call
  closes : ℕ → Waits → Call
  terminates : ℕ → Kill → Bool → Waits → Call
  terminates_controlled : ℕ → Kill → Bool → Waits → Call
  joins : ℕ → Option Bool → Waits → Call
  asks_alive : ℕ → Waits → Call
  asks_exitcode : ℕ → Waits → Call
  asks_active : (ℕ → Waits) → Call

unfoldable pub step : Call → World → World
unfolding start close terminate terminate_controlled join is_alive exitcode active_children
step (starts i child answers) w = (start i child answers w).1
step (closes i answers) w = (close i answers w).1
step (terminates i kill ready answers) w = (terminate i kill ready answers w).1
step (terminates_controlled i kill ready answers) w =
    (terminate_controlled i kill ready answers w).1
step (joins i timeout answers) w = (join i timeout answers w).1
step (asks_alive i answers) w = (is_alive i answers w).1
step (asks_exitcode i answers) w = (exitcode i answers w).1
step (asks_active answers) w = (active_children answers w).1

unfoldable pub run : List Call → World → World
unfolding step
run [] w = w
run (c ∷ cs) w = run cs (step c w)

-- No object has been started.
abbrev pub fresh : ℕ → Option ℕ → (ℕ → ℕ) → World
fresh pid current parents = record {
  pid = pid;
  current = current;
  processes = λ i. init (parents i);
  children = [];
}

step-Reach : (c : Call) (w : World) → Reach w (step c w)
unfolding step
step-Reach (starts i child answers) w = start-Reach i child answers w
step-Reach (closes i answers) w = close-Reach i answers w
step-Reach (terminates i kill ready answers) w = terminate-Reach i kill ready answers w
step-Reach (terminates_controlled i kill ready answers) w =
    terminate_controlled-Reach i kill ready answers w
step-Reach (joins i timeout answers) w = join-Reach i timeout answers w
step-Reach (asks_alive i answers) w = is_alive-Reach i answers w
step-Reach (asks_exitcode i answers) w = exitcode-Reach i answers w
step-Reach (asks_active answers) w = active_children-Reach answers w

pub run-Reach : (calls : List Call) (w : World) → Reach w (run calls w)
unfolding run
run-Reach [] w = Reach-refl w
run-Reach (c ∷ calls) w = Reach-trans (step-Reach c w) (run-Reach calls (step c w))
