-- ===== src/Pool/WorkerLoop/Exits.antt =====
-- The exit code of a worker whose queue ends.
use billiard.Prelude.{ℕ, ◌≡◌, refl, ap, Bool, true, none, some, List, [], ◌∷◌, ◌++◌}
use billiard.Prelude.Int.{pos}
use billiard.Pool.Workers.{is_clean}
use billiard.Pool.WorkerLoop.{
  Raw, nothing, exits, receive, Request, Config, death, stop, unwinds, goes_on, workloop, exit_code,
  die, call,
}

-- Polls that bring no message.
abbrev pub AllIdle : List (Bool × Raw Request) → Type 0
AllIdle [] = Unit {0}
AllIdle ((shutdown, raw) ∷ polls) = (receive shutdown raw ≡ nothing) × AllIdle polls

workloop-idle :
    (cfg : Config) (idle rest : List (Bool × Raw Request)) (shutdown : Bool) (raw : Raw Request)
    (code : ℕ)
    → goes_on cfg 0 ≡ true
    → AllIdle idle
    → receive shutdown raw ≡ exits code
    → workloop cfg (idle ++ (shutdown, raw) ∷ rest) 0 none ≡ stop unwinds 0 none []
unfolding workloop
workloop-idle cfg [] rest shutdown raw code go h e = rw (go, e, workloop) refl
workloop-idle cfg ((s, r) ∷ idle) rest shutdown raw code go h e =
    rw (go, h.0, workloop) (workloop-idle cfg idle rest shutdown raw code go h.1 e)

-- A worker that has run no task and whose queue then breaks or brings None, for which it raises
-- SystemExit with EX_FAILURE, still reports EX_OK in its DEATH message and exits with it: the code in
-- the exception is never read. The pool takes that for a clean exit, so that a replacement does not
-- count against the limit on restarts.
pub call-clean :
    (cfg : Config) (idle rest : List (Bool × Raw Request)) (shutdown : Bool) (raw : Raw Request)
    → goes_on cfg 0 ≡ true
    → AllIdle idle
    → receive shutdown raw ≡ exits 1
    → (call cfg (idle ++ (shutdown, raw) ∷ rest) ≡ (death (pos 0) ∷ [], some (pos 0)))
      × (is_clean (call cfg (idle ++ (shutdown, raw) ∷ rest)).1 ≡ true)
unfolding call die exit_code is_clean
call-clean cfg idle rest shutdown raw go h e =
    let ends = workloop-idle cfg idle rest shutdown raw 1 go h e in
    (ap die ends, ap (λ run. is_clean (die run).1) ends)
