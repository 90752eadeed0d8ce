-- ===== src/Pool/ApplyResult/Tests.antt =====
-- Inputs for `ApplyResult`.
use billiard.Prelude.{ℕ, ◌≡◌, refl, true, false, none, some, List, [], ◌∷◌, ◌==◌, if◌then◌else◌}
use billiard.Pool.ApplyResult.{
  sent, positive, accept_called, callback_called, returns, fails, memory, success, Options, init,
  ack, set_reply,
}
use billiard.Pool.ApplyResult.Settling.{Message, settled, acked, run, handle}

-- The callback runs out of memory, and the accept callback raises for worker 13.
abbrev options : Options ℕ ℕ
options = record {
  callback = some (λ v. memory);
  error_callback = none;
  accept_callback = some (λ pid time. if pid == 13 then fails else returns);
  timeout_callback = none;
  on_timeout_set = false;
  on_timeout_cancel = false;
  send_ack = true;
  soft_timeout = none;
  timeout = none;
}

abbrev early_result : List (Message ℕ ℕ)
early_result = settled (success 5) ∷ acked 70 12 (some 3) ∷ []

-- The result came first, and its callback raised MemoryError: the acknowledgement removes the entry.
run-early_result :
    (run (init options 1) early_result).log
    ≡ callback_called 5 ∷ accept_called 12 70 ∷ sent positive 12 3 ∷ []
unfolding run handle init set_reply ack
run-early_result = refl
