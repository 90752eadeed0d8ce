-- ===== src/Queues/Tests.antt =====
-- Inputs for the queues. An odd number cannot be pickled, the others are halved.
use billiard.Prelude.{
  ℕ, ◌+◌, ◌/◌, ◌%◌, ◌*◌, ◌≤◌, true, false, none, some, List, [], ◌∷◌, ◌++◌, map, length, ◌==◌, ◌≡◌,
  ◌↔◌, refl, if◌then◌else◌, if_intro, arith, ==_iff,
}
use billiard.Prelude.Int.{pos}
use billiard.Queues.{
  Dumped, dumped, raised, other_error, running, Queue, forever, at_once, within, put, feed, get,
  close, init, qsize,
}
use billiard.Queues.History.{Op, puts, feeds, gets, closes, start, objects, step, run}
use billiard.Queues.Kept.{is_crashed, OnlyIndex}
use billiard.Queues.Balance.{firsts, sent_of, lost_of}
use billiard.Queues.Fifo.{run-fifo}
use billiard.Queues.Stuck.{run-crashed}
use billiard.Queues.Joinable.{Joinable, Call, dones, joins, Counted, task_done-count}
use billiard.Queues.Joinable

abbrev halve : ℕ → Dumped ℕ
halve n = if n % 2 == 0 then dumped (n / 2) else raised other_error

abbrev double : ℕ → ℕ
double n = n * 2

double-halve : (a b : ℕ) → halve a ≡ dumped b → double b ≡ a
double-halve a b e =
    if_intro (λ (r : Dumped ℕ). r ≡ dumped b → double b ≡ a) (a % 2 == 0)
      (λ t k. let q = some_value k in ground (arith, ==_iff (a % 2) 0, t, q)) (λ f k. absurd (cc)) e
  where
    some_value : dumped (a / 2) ≡ dumped b → a / 2 ≡ b
    some_value k = cc

-- The queue has two slots; the third put is refused, and the first object is read.
abbrev traffic : List (Op ℕ)
traffic =
    puts forever 4
    ∷ feeds none
    ∷ puts forever 6
    ∷ puts at_once 8
    ∷ gets false (within false) false
    ∷ puts (within false) 10
    ∷ closes
    ∷ []

run-fifo_example :
    let h = run halve double traffic (start (init 9 (pos 2))) in
    (h.accepted ≡ firsts h.fates ++ objects h.queue.buffer)
    × (h.given ++ map double h.queue.pipe ≡ sent_of h.fates)
    × (qsize h.queue
        ≡ length h.queue.pipe + (length (lost_of h.fates) + length (objects h.queue.buffer)))
    × (qsize h.queue ≤ 2)
    × (h.over_released ≡ false)
    × (is_crashed h.queue.feeder ≡ false → OnlyIndex h.fates)
run-fifo_example = run-fifo halve double 9 (pos 2) traffic double-halve

traffic_given : (run halve double traffic (start (init 9 (pos 2)))).given ≡ 4 ∷ []
unfolding run step put feed get close init
traffic_given = refl

-- The object 3 ends the feeder.
abbrev bad_traffic : List (Op ℕ)
bad_traffic = puts forever 4 ∷ puts forever 3 ∷ puts forever 6 ∷ feeds none ∷ []

bad_running : (run halve double bad_traffic (start (init 9 (pos 5)))).queue.feeder ≡ running
unfolding run step put feed init
bad_running = refl

bad_buffer :
    (run halve double bad_traffic (start (init 9 (pos 5)))).queue.buffer ≡ some 3 ∷ some 6 ∷ []
unfolding run step put feed init
bad_buffer = refl

abbrev later : List (Op ℕ)
later = feeds none ∷ puts forever 8 ∷ feeds none ∷ gets false forever false ∷ []

run-crashed_example :
    let h = run halve double bad_traffic (start (init 9 (pos 5))) in
    let h' = run halve double later (step halve double (feeds none) h) in
    (is_crashed h'.queue.feeder ≡ true)
    × (h'.given ++ map double h'.queue.pipe ≡ h.given ++ map double h.queue.pipe)
run-crashed_example =
    run-crashed halve double 9 (pos 5) bad_traffic later none 3 (some 6 ∷ []) double-halve
      bad_running bad_buffer refl

abbrev new_queue : Queue ℕ ℕ
unfolding init
new_queue = init 9 (pos 5)

abbrev calls : List (Call ℕ ℕ)
calls = Joinable.puts forever 4 ∷ joins ∷ Joinable.puts forever 6 ∷ dones ∷ dones ∷ dones ∷ []

task_done-count_example :
    let c =
      Joinable.run calls
        (record { joinable = Joinable.init new_queue; accepted = 0; finished = 0 }) in
    (c.joinable.unfinished + c.finished ≡ c.accepted)
    × ((Joinable.task_done c.joinable ≡ none) ↔ (c.finished ≡ c.accepted))
    × (c.finished ≡ c.accepted → c.joinable.joiners ≡ 0)
task_done-count_example = task_done-count new_queue calls
