-- ===== src/Pool/Workers/Forgets.antt =====
-- A job whose worker died, when `Pool._join_exited_workers` reaps a further worker.
use billiard.Prelude.{
  ℕ, ◌+◌, ◌≤◌, ◌<◌, ◌≡◌, refl, ap, ◌∙◌, false, Option, none, some, [], ◌∷◌, arith, lt→ltb,
}
use billiard.Prelude.Int.{ℤ, pos}
use billiard.Prelude.Dict.{lookup, contains}
use billiard.Pool.Workers.{elem, pids}
use billiard.Pool.Workers.Reap.{
  Reaped, Job, process_down, is_overdue, acked_by_gone, code_or_zero, look_after,
}

acked-gone :
    (pid : ℕ) (r : Reaped)
    → contains pid r.cleaned ≡ false
    → elem pid (pids r.kept) ≡ false
    → acked_by_gone r.cleaned r.kept (pid ∷ []) ≡ some pid
unfolding acked_by_gone
acked-gone pid r other gone = rw (other, gone, acked_by_gone) refl

is_overdue-before :
    (later t : ℕ) (code : Option ℤ) (job : Job)
    → later ≤ t + job.lost_worker_timeout
    → is_overdue later (record job { lost = some (t, code) }) ≡ none
unfolding is_overdue
is_overdue-before later t code job early = ground arith

is_overdue-at :
    (later t : ℕ) (code : Option ℤ) (job : Job)
    → job.lost ≡ some (t, code)
    → job.is_ready ≡ false
    → t + job.lost_worker_timeout < later
    → is_overdue later job ≡ some code
unfolding is_overdue
is_overdue-at later t code job lost waiting late =
    rw (lost, waiting, lt→ltb (t + job.lost_worker_timeout) later late) refl

-- A job waits to be marked as lost, with the exit code of its worker, which an earlier call took out
-- of the pool. When a further worker is reaped meanwhile, the time of the loss starts again and the
-- exit code is replaced by 0: at a moment where the job would have been marked before, it is not.
pub look_after-forgets :
    (now later j pid t : ℕ) (code : Option ℤ) (r : Reaped) (job : Job)
    → job.lost ≡ some (t, code)
    → job.is_ready ≡ false
    → job.worker_pids ≡ pid ∷ []
    → contains pid r.cleaned ≡ false
    → lookup pid r.exitcodes ≡ none
    → elem pid (pids r.kept) ≡ false
    → t + job.lost_worker_timeout < later
    → later ≤ now + job.lost_worker_timeout
    → (job' : Job) × (look_after now r j job ≡ some (job', process_down j pid ∷ []))
      × (job'.lost ≡ some (now, some (pos 0)))
      × (is_overdue later job ≡ some code)
      × (is_overdue later job' ≡ none)
unfolding look_after code_or_zero
look_after-forgets now later j pid t code r job lost waiting one other uncoded gone late early =
    let acked = ap (acked_by_gone r.cleaned r.kept) one ∙ acked-gone pid r other gone in
    (
      record job { lost = some (now, some (pos 0)) },
      ground (arith, acked, waiting, other, uncoded),
      refl,
      is_overdue-at later t code job lost waiting late,
      is_overdue-before later now (some (pos 0)) job early,
    )
