-- ===== src/Process/Fork.antt =====
-- billiard/popen_fork.py, class Popen: the handle of a child that was started by fork. What the calls of the
-- operating system answer is an argument of each operation.
use billiard.Prelude.{ℕ, zero, suc, Bool, Option, none, some, ◌==◌, if◌then◌else◌}
use billiard.Prelude.Int.{ℤ, pos, negsuc}

-- The status of a child: killed by a signal, or ended by itself. waitpid gives no others without WUNTRACED.
pub data Status : Type 0 where
  signaled : ℕ → Status
  exited : ℕ → Status

-- What `os.waitpid` answers, in the rounds of the loop: EINTR and then what comes next; another error; or
-- a process, which is 0 if the child still runs.
pub data Waits : Type 0 where
  interrupted : Waits → Waits
  failed : Waits
  reported : ℕ → Status → Waits

-- What `os.kill` does: it sends the signal, or raises ESRCH, or another error.
pub data Kill : Type 0 where
  sent : Kill
  no_process : Kill
  denied : Kill

pub data Ended (A : Type 0) : Type 0 where
  value : A → Ended A
  value_error : Ended A
  assertion : Ended A
  attribute_error : Ended A
  type_error : Ended A
  os_error : Ended A

pub record Popen : Type 0 where
  pub pid : ℕ
  pub returncode : Option ℤ
  pub sentinel : Option ℕ

abbrev pub negative : ℕ → ℤ
negative zero = pos 0
negative (suc n) = negsuc n

abbrev pub code_of : Status → ℤ
code_of (signaled n) = negative n
code_of (exited n) = pos n

abbrev pub note : ℕ → Status → Popen → Popen
note pid sts p = if pid == p.pid then record p { returncode = some (code_of sts) } else p

-- The loop of `poll`.
abbrev pub reap : Waits → Popen → Option ℤ × Popen
reap (interrupted later) p = reap later p
reap failed p = (none, p)
reap (reported pid sts) p = ((note pid sts p).returncode, note pid sts p)

abbrev pub poll_from : Option ℤ → Waits → Popen → Option ℤ × Popen
poll_from none answers p = reap answers p
poll_from (some code) answers p = (some code, p)

unfoldable pub poll : Waits → Popen → Option ℤ × Popen
poll answers p = poll_from p.returncode answers p

-- `wait`, where a timeout comes with what `connection.wait` says of the sentinel. Its list may not have None.
abbrev pub value_of : Option ℤ × Popen → Ended (Option ℤ) × Popen
value_of (code, p) = (value code, p)

abbrev pub wait_ready : Option ℕ → Bool → Waits → Popen → Ended (Option ℤ) × Popen
wait_ready none ready answers p = (type_error, p)
wait_ready (some fd) ready answers p = if ready then value_of (reap answers p) else (value none, p)

abbrev pub wait_from : Option ℤ → Option Bool → Waits → Popen → Ended (Option ℤ) × Popen
wait_from (some code) timeout answers p = (value (some code), p)
wait_from none none answers p = value_of (reap answers p)
wait_from none (some ready) answers p = wait_ready p.sentinel ready answers p

unfoldable pub wait : Option Bool → Waits → Popen → Ended (Option ℤ) × Popen
wait timeout answers p = wait_from p.returncode timeout answers p

abbrev pub after_denied : Ended (Option ℤ) × Popen → Ended (Unit {0}) × Popen
after_denied (value none, p) = (os_error, p)
after_denied (value (some code), p) = (value tt, p)
after_denied (value_error, p) = (value_error, p)
after_denied (assertion, p) = (assertion, p)
after_denied (attribute_error, p) = (attribute_error, p)
after_denied (type_error, p) = (type_error, p)
after_denied (os_error, p) = (os_error, p)

abbrev pub terminate_from : Option ℤ → Kill → Bool → Waits → Popen → Ended (Unit {0}) × Popen
terminate_from (some code) kill ready answers p = (value tt, p)
terminate_from none sent ready answers p = (value tt, p)
terminate_from none no_process ready answers p = (value tt, p)
terminate_from none denied ready answers p = after_denied (wait (some ready) answers p)

unfoldable pub terminate : Kill → Bool → Waits → Popen → Ended (Unit {0}) × Popen
unfolding wait
terminate kill ready answers p = terminate_from p.returncode kill ready answers p

unfoldable pub close : Popen → Popen
close p = record p { sentinel = none }
