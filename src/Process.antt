-- ===== src/Process.antt =====
-- billiard/process.py: the process objects of one process, and the set of its children. An object is its number,
-- and its Popen is that of popen_fork.py.
pub mod Fork
pub mod Bootstrap
pub mod Handle
pub mod Reach
pub mod Methods
pub mod Cleanup
pub mod Calls
mod Children
mod Codes
mod Tests
use billiard.Prelude.{
  ℕ, Bool, true, false, not, Option, none, some, List, [], ◌∷◌, ◌==◌, if◌then◌else◌,
}
use billiard.Prelude.Int.{ℤ}
use billiard.Process.Fork.{
  Waits, Kill, Ended, value, value_error, assertion, attribute_error, type_error, os_error, Popen,
}

-- `sentinel` is the attribute `_sentinel`, or none where the object does not have it.
pub record Process : Type 0 where
  pub parent_pid : ℕ
  pub popen : Option Popen
  pub closed : Bool
  pub sentinel : Option ℕ
  pub controlled_termination : Bool

-- What the process has: its number, `_current_process` unless it is the main process, the objects, and
-- `_children`.
pub record World : Type 0 where
  pub pid : ℕ
  pub current : Option ℕ
  pub processes : ℕ → Process
  pub children : List ℕ

-- `__init__`
unfoldable pub init : ℕ → Process
init pid = record {
  parent_pid = pid;
  popen = none;
  closed = false;
  sentinel = none;
  controlled_termination = false;
}

abbrev pub member : ℕ → List ℕ → Bool
member i [] = false
member i (j ∷ rest) = if j == i then true else member i rest

unfoldable pub add : ℕ → List ℕ → List ℕ
add i children = if member i children then children else i ∷ children

unfoldable pub discard : ℕ → List ℕ → List ℕ
discard i [] = []
discard i (j ∷ rest) = let others = discard i rest in if j == i then others else j ∷ others

abbrev pub set : ℕ → Process → World → World
set i p w = record w { processes = λ j. if i == j then p else w.processes j }

-- The object of number i with its Popen in another state.
abbrev pub set_popen : ℕ → Popen → World → World
set_popen i q w = set i (record (w.processes i) { popen = some q }) w

-- The object leaves `_children`.
abbrev pub leave : ℕ → World → World
leave i w = record w { children = discard i w.children }

abbrev pub enter : ℕ → World → World
enter i w = record w { children = add i w.children }

abbrev pub leave_if : Option ℤ → ℕ → World → World
leave_if none i w = w
leave_if (some code) i w = leave i w

-- `_cleanup`, over a copy of the set; none is the AttributeError of an object without a Popen.
abbrev pub visited : ℕ → Option ℤ × Popen → World → World
visited i (code, q) w = leave_if code i (set_popen i q w)

abbrev pub visit : (ℕ → Waits) → ℕ → Option Popen → World → Option World
visit answers i none w = none
visit answers i (some q) w = some (visited i (Fork.poll (answers i) q) w)

abbrev pub and_then : {A B : Type 0} → Option A → (A → Option B) → Option B
and_then none f = none
and_then (some a) f = f a

unfoldable pub cleanup : (ℕ → Waits) → List ℕ → World → Option World
unfolding Fork.poll discard
cleanup answers [] w = some w
cleanup answers (i ∷ rest) w =
    and_then (visit answers i (w.processes i).popen w) λ v. cleanup answers rest v

abbrev pub listed : Option World → World → Ended (List ℕ) × World
listed none w = (attribute_error, w)
listed (some v) w = (value v.children, v)

unfoldable pub active_children : (ℕ → Waits) → World → Ended (List ℕ) × World
unfolding cleanup
active_children answers w = listed (cleanup answers w.children w) w

-- What a method does with an object that is not closed.
abbrev pub checked : {A : Type 0} → Bool → World → Ended A × World → Ended A × World
checked true w result = (value_error, w)
checked false w result = result

-- The new child's number and the end of the pipe to watch it, or none if the pipe or the fork fails.
abbrev pub launched : ℕ → Option (ℕ × ℕ) → World → Ended (Unit {0}) × World
launched i none w = (os_error, w)
launched i (some (pid, fd)) w = (
  value tt,
  enter i (
      set i
        (record (w.processes i) {
          popen = some (record { pid = pid; returncode = none; sentinel = some fd });
          sentinel = some fd;
        })
        w),
)

abbrev pub launch : ℕ → Option (ℕ × ℕ) → Option World → World → Ended (Unit {0}) × World
launch i child none w = (attribute_error, w)
launch i child (some v) w = launched i child v

abbrev pub start_from :
    ℕ → Option (ℕ × ℕ) → (ℕ → Waits) → Option Popen → World → Ended (Unit {0}) × World
start_from i child answers (some q) w = (assertion, w)
start_from i child answers none w =
    if (w.processes i).parent_pid == w.pid
    then launch i child (cleanup answers w.children w) w
    else (assertion, w)

unfoldable pub start : ℕ → Option (ℕ × ℕ) → (ℕ → Waits) → World → Ended (Unit {0}) × World
unfolding cleanup add
start i child answers w =
    checked (w.processes i).closed w (start_from i child answers (w.processes i).popen w)

-- `close`; the Popen is closed and dropped.
abbrev pub close_polled : ℕ → Option ℤ × Popen → World → Ended (Unit {0}) × World
close_polled i (none, q) w = (value_error, set_popen i q w)
close_polled i (some code, q) w = (
  value tt,
  leave i (set i (record (w.processes i) { popen = none; sentinel = none; closed = true }) w),
)

abbrev pub close_from : ℕ → Waits → Option Popen → World → Ended (Unit {0}) × World
close_from i answers none w = (value tt, set i (record (w.processes i) { closed = true }) w)
close_from i answers (some q) w = close_polled i (Fork.poll answers q) w

unfoldable pub close : ℕ → Waits → World → Ended (Unit {0}) × World
unfolding Fork.poll discard
close i answers w = close_from i answers (w.processes i).popen w

abbrev pub terminated : ℕ → Ended (Unit {0}) × Popen → World → Ended (Unit {0}) × World
terminated i (result, q) w = (result, set_popen i q w)

abbrev pub terminate_from :
    ℕ → Kill → Bool → Waits → Option Popen → World → Ended (Unit {0}) × World
terminate_from i kill ready answers none w = (attribute_error, w)
terminate_from i kill ready answers (some q) w =
    terminated i (Fork.terminate kill ready answers q) w

unfoldable pub terminate : ℕ → Kill → Bool → Waits → World → Ended (Unit {0}) × World
unfolding Fork.terminate
terminate i kill ready answers w =
    checked (w.processes i).closed w (terminate_from i kill ready answers (w.processes i).popen w)

unfoldable pub terminate_controlled : ℕ → Kill → Bool → Waits → World → Ended (Unit {0}) × World
unfolding terminate
terminate_controlled i kill ready answers w =
    terminate i kill ready answers
      (set i (record (w.processes i) { controlled_termination = true }) w)

-- `join`
abbrev pub joined : ℕ → Ended (Option ℤ) × Popen → World → Ended (Unit {0}) × World
joined i (value none, q) w = (value tt, set_popen i q w)
joined i (value (some code), q) w = (value tt, leave i (set_popen i (Fork.close q) w))
joined i (value_error, q) w = (value_error, set_popen i q w)
joined i (assertion, q) w = (assertion, set_popen i q w)
joined i (attribute_error, q) w = (attribute_error, set_popen i q w)
joined i (type_error, q) w = (type_error, set_popen i q w)
joined i (os_error, q) w = (os_error, set_popen i q w)

abbrev pub join_from : ℕ → Option Bool → Waits → Option Popen → World → Ended (Unit {0}) × World
join_from i timeout answers none w = (assertion, w)
join_from i timeout answers (some q) w =
    if (w.processes i).parent_pid == w.pid
    then joined i (Fork.wait timeout answers q) w
    else (assertion, w)

unfoldable pub join : ℕ → Option Bool → Waits → World → Ended (Unit {0}) × World
unfolding Fork.wait Fork.close discard
join i timeout answers w =
    checked (w.processes i).closed w (join_from i timeout answers (w.processes i).popen w)

-- `is_alive`
abbrev pub is_none : {A : Type 0} → Option A → Bool
is_none none = true
is_none (some a) = false

abbrev pub alive_polled : ℕ → Option ℤ × Popen → World → Ended Bool × World
alive_polled i (code, q) w = (value (is_none q.returncode), set_popen i q w)

abbrev pub alive_from : ℕ → Waits → Option Popen → World → Ended Bool × World
alive_from i answers none w = (value false, w)
alive_from i answers (some q) w = alive_polled i (Fork.poll answers q) w

abbrev pub is_current : ℕ → Option ℕ → Bool
is_current i none = false
is_current i (some j) = i == j

unfoldable pub is_alive : ℕ → Waits → World → Ended Bool × World
unfolding Fork.poll
is_alive i answers w = checked (w.processes i).closed w (
    if is_current i w.current
    then (value true, w)
    else if (w.processes i).parent_pid == w.pid
    then alive_from i answers (w.processes i).popen w
    else (assertion, w))

-- `exitcode`
abbrev pub code_polled : ℕ → Option ℤ × Popen → World → Ended (Option ℤ) × World
code_polled i (code, q) w = (value code, set_popen i q w)

abbrev pub code_from : ℕ → Waits → Option Popen → World → Ended (Option ℤ) × World
code_from i answers none w = (value none, w)
code_from i answers (some q) w = code_polled i (Fork.poll answers q) w

unfoldable pub exitcode : ℕ → Waits → World → Ended (Option ℤ) × World
unfolding Fork.poll
exitcode i answers w =
    checked (w.processes i).closed w (code_from i answers (w.processes i).popen w)

-- `ident`, and `sentinel`
abbrev pub ident_from : Option Popen → Option ℕ
ident_from none = none
ident_from (some q) = some q.pid

unfoldable pub ident : ℕ → World → Ended (Option ℕ) × World
ident i w =
    checked (w.processes i).closed w
      (value (if is_current i w.current then some w.pid else ident_from (w.processes i).popen), w)

abbrev pub sentinel_from : Option ℕ → World → Ended ℕ × World
sentinel_from none w = (value_error, w)
sentinel_from (some fd) w = (value fd, w)

unfoldable pub sentinel : ℕ → World → Ended ℕ × World
sentinel i w = checked (w.processes i).closed w (sentinel_from (w.processes i).sentinel w)
