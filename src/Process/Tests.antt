-- ===== src/Process/Tests.antt =====
-- Three children: one ends by itself, one is killed, and the first is closed.
use billiard.Prelude.{
  false, ℕ, ◌≡◌, ◌≢◌, refl, ◌⊎◌, Bool, true, Option, none, some, List, [], ◌∷◌, arith,
}
use billiard.Prelude.Int.{negsuc, pos}
use billiard.Process.Fork
use billiard.Process.Fork.{
  Waits, interrupted, failed, reported, exited, signaled, sent, Ended, value, value_error,
  type_error, Popen,
}
use billiard.Process.{
  World, init, member, add, discard, cleanup, active_children, start, close, terminate, join,
  exitcode, sentinel,
}
use billiard.Process.Calls.{Call, starts, joins, terminates, closes, step, run, fresh}
use billiard.Process.Children.{run-active_children}
use billiard.Process.Codes.{Told, exitcode-run}
use billiard.Process.Bootstrap.{
  End, returned, exit_int, exit_str, bootstrap, shutdown_cleanup, unwinds, launch, poll-launch,
}

abbrev running : ℕ → Waits
running i = reported 0 (exited 0)

abbrev calls : List Call
calls =
    starts 1 (some (41, 7)) running
    ∷ starts 2 (some (42, 8)) running
    ∷ starts 3 (some (43, 9)) running
    ∷ starts 2 (some (44, 10)) running
    ∷ joins 1 none (interrupted (reported 41 (exited 3)))
    ∷ terminates 2 sent true failed
    ∷ closes 1 failed
    ∷ []

abbrev later : Waits
later = reported 42 (signaled 15)

abbrev world : World
world = run calls (fresh 40 none (λ i. 40))

two_left : (active_children running world).0 ≡ value (3 ∷ 2 ∷ [])
unfolding run step active_children start join terminate close cleanup add discard init Fork.poll
    Fork.wait Fork.terminate Fork.close
two_left = refl

killed : (exitcode 2 later world).0 ≡ value (some (negsuc 14))
unfolding run step exitcode start join terminate close cleanup add discard init Fork.poll Fork.wait
    Fork.terminate Fork.close
killed = refl

-- The sentinel of a child that was joined is read although it has been closed.
stale :
    (sentinel 1 (
      run
        (starts 1 (some (41, 7)) running ∷ joins 1 none (reported 41 (exited 3)) ∷ [])
        (fresh 40 none (λ i. 40)))).0
    ≡ value 7
unfolding run step sentinel start join cleanup add discard init Fork.poll Fork.wait Fork.close
stale = refl

run-active_children_example :
    let w = run calls (fresh 40 none (λ i. 40)) in
    let r = active_children (λ i. later) w in
    ((r.0 ≡ value r.1.children)
      × ((j : ℕ)
          → member j r.1.children ≡ true
          → (q : Popen) × ((r.1.processes j).popen ≡ some q) × (q.returncode ≡ none))
      × ((j : ℕ) (q : Popen)
          → (r.1.processes j).popen ≡ some q
          → q.returncode ≡ none
          → member j r.1.children ≡ true))
    × ((i : ℕ) (timeout : Option Bool) (answers : Waits)
        → (join i timeout answers w).0 ≢ type_error)
run-active_children_example = run-active_children 40 none (λ i. 40) calls (λ i. later)

exitcode-run_example :
    let v = run calls (exitcode 2 later world).1 in
    ((q : Popen) × ((world.processes 2).popen ≡ some q) × Told later q (negsuc 14))
    × (((exitcode 2 failed v).0 ≡ value (some (negsuc 14)))
        ⊎ ((exitcode 2 failed v).0 ≡ value_error))
exitcode-run_example = exitcode-run 2 later world (negsuc 14) calls failed killed

abbrev child : Popen
child = record { pid = 42; returncode = none; sentinel = some 8 }

poll-launch_example :
    ((Fork.poll (reported 42 (exited 0)) child).0 ≡ some (pos 0))
    × ((launch returned (exit_int (pos 3)) returned ≡ some (exited 3))
        × ((Fork.poll (reported 42 (exited 3)) child).0 ≡ some (pos 3)))
    × ((end : End)
        → shutdown_cleanup false 15 ≡ unwinds end
        → (launch returned end returned ≡ some (exited 15))
          × ((Fork.poll (reported 42 (exited 15)) child).0 ≡ some (pos 15)))
unfolding launch bootstrap
poll-launch_example =
    poll-launch child returned exit_str returned (exited 0) 3 15 refl refl (omega arith)
      (omega arith) (omega arith)
