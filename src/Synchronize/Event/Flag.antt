-- ===== src/Synchronize/Event/Flag.antt =====
-- `Event` as a Boolean that `set` and `clear` assign.
use billiard.Prelude.{◌≡◌, refl, ap, Bool, true, false, not, List, [], ◌∷◌}
use billiard.Synchronize.Event.{Event, init, is_set, set, clear, before_wait, after_wait}

pub data Op : Type 0 where
  sets clears asks begins_wait ends_wait : Op

-- The answers of the calls, in order: of is_set and of wait, and whether a wait sleeps.
unfoldable pub run : List Op → Event → List Bool
unfolding is_set set clear before_wait after_wait
run [] e = []
run (sets ∷ ops) e = run ops (set e)
run (clears ∷ ops) e = run ops (clear e)
run (asks ∷ ops) e = (is_set e).0 ∷ run ops (is_set e).1
run (begins_wait ∷ ops) e = (before_wait e).0 ∷ run ops (before_wait e).1
run (ends_wait ∷ ops) e = (after_wait e).0 ∷ run ops (after_wait e).1

-- The same calls on a Boolean.
unfoldable pub answers : List Op → Bool → List Bool
answers [] b = []
answers (sets ∷ ops) b = answers ops true
answers (clears ∷ ops) b = answers ops false
answers (asks ∷ ops) b = b ∷ answers ops b
answers (begins_wait ∷ ops) b = not b ∷ answers ops b
answers (ends_wait ∷ ops) b = b ∷ answers ops b

abbrev value : Bool → Event
value true = record { flag = 1 }
value false = record { flag = 0 }

run-value : (ops : List Op) (b : Bool) → run ops (value b) ≡ answers ops b
unfolding run answers is_set set clear before_wait after_wait
run-value [] b = refl
run-value (sets ∷ ops) true = run-value ops true
run-value (sets ∷ ops) false = run-value ops true
run-value (clears ∷ ops) true = run-value ops false
run-value (clears ∷ ops) false = run-value ops false
run-value (asks ∷ ops) true = ap (λ l. true ∷ l) (run-value ops true)
run-value (asks ∷ ops) false = ap (λ l. false ∷ l) (run-value ops false)
run-value (begins_wait ∷ ops) true = ap (λ l. false ∷ l) (run-value ops true)
run-value (begins_wait ∷ ops) false = ap (λ l. true ∷ l) (run-value ops false)
run-value (ends_wait ∷ ops) true = ap (λ l. true ∷ l) (run-value ops true)
run-value (ends_wait ∷ ops) false = ap (λ l. false ∷ l) (run-value ops false)

-- The answers of any sequence of set, clear, is_set and the two parts of wait on a new event are those of
-- a Boolean that is first false: a second set counts no more than one, so that one clear undoes both.
pub run-init : (ops : List Op) → run ops init ≡ answers ops false
unfolding init
run-init ops = run-value ops false
