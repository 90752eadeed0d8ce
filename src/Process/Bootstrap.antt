-- ===== src/Process/Bootstrap.antt =====
-- billiard/process.py, `_bootstrap`, in the child that popen_fork.py starts in `_launch`: the code it ends with.
-- And billiard/common.py, `_shutdown_cleanup`, its handler of signals.
use billiard.Prelude.{
  ℕ, ◌-◌, ◌%◌, ◌≡◌, refl, sym, ap, subst, ◌∙◌, ◌+◌, ◌<◌, Bool, true, false, ltb, Option, none, some,
  zero, suc, ◌==◌, if◌then◌else◌, if_intro, arith,
}
use billiard.Prelude.Int.{ℤ, pos, negsuc}
use billiard.Process.Fork
use billiard.Process.Fork.{Status, exited, reported, code_of, Popen, note, poll_from}

-- How a part of it ends: SystemExit may have no argument, a number, a string or another object.
pub data End : Type 0 where
  returned : End
  exit_without : End
  exit_int : ℤ → End
  exit_str : End
  exit_other : End
  raised : End

-- What comes after it in the `try`.
abbrev pub then_next : End → End → End
then_next returned next = next
then_next exit_without next = exit_without
then_next (exit_int n) next = exit_int n
then_next exit_str next = exit_str
then_next exit_other next = exit_other
then_next raised next = raised

-- `util._exit_function` in the `finally`: what it raises takes the place of what was raised before.
abbrev pub finally_do : End → End → End
finally_do exit_function before = then_next exit_function before

-- The exit code; the error stream can be written.
abbrev pub code : End → ℤ
code returned = pos 0
code exit_without = pos 1
code (exit_int n) = n
code exit_str = pos 0
code exit_other = pos 1
code raised = pos 1

-- The parts are what comes before `run`, then `run`, and `_exit_function`.
unfoldable pub bootstrap : End → End → End → ℤ
bootstrap setup run exit_function = code (then_next setup (finally_do exit_function run))

-- `os._exit`: the system keeps the lowest 8 bits.
abbrev pub low_byte : ℤ → ℕ
low_byte (pos n) = n % 256
low_byte (negsuc n) = 255 - n % 256

-- A number that is no C int is an OverflowError of `os._exit`, here none.
abbrev pub is_c_int : ℤ → Bool
is_c_int (pos n) = ltb n 2147483648
is_c_int (negsuc n) = ltb n 2147483648

abbrev pub exit_status : ℤ → Option Status
exit_status n = if is_c_int n then some (exited (low_byte n)) else none

unfoldable pub launch : End → End → End → Option Status
unfolding bootstrap
launch setup run exit_function = exit_status (bootstrap setup run exit_function)

-- `_shutdown_cleanup`: it ends the process at once, or raises. The flag says if it was run before.
pub data Handled : Type 0 where
  at_once : ℕ → Handled
  unwinds : End → Handled

unfoldable pub shutdown_cleanup : Bool → ℕ → Handled
shutdown_cleanup fired signum =
    if fired then at_once 70 else unwinds (exit_int (Fork.negative (256 - signum)))

-- What the parent reads for a child that it has not reaped.
own-status :
    (q : Popen) (sts : Status)
    → q.returncode ≡ none
    → (Fork.poll (reported q.pid sts) q).0 ≡ some (code_of sts)
unfolding Fork.poll
own-status q sts e =
    ap (λ c. (poll_from c (reported q.pid sts) q).0) e
    ∙ if_intro (λ (r : Popen). r.returncode ≡ some (code_of sts)) (q.pid == q.pid) (λ t. refl)
        (λ f. absurd (ground arith))

-- The exit code that an end is read as.
abbrev pub Reads : Option ℤ → End → Type 0
Reads r returned = r ≡ some (pos 0)
Reads r exit_without = r ≡ some (pos 1)
Reads r (exit_int n) = r ≡ some (pos (low_byte n))
Reads r exit_str = r ≡ some (pos 0)
Reads r exit_other = r ≡ some (pos 1)
Reads r raised = r ≡ some (pos 1)

code-Reads : (end : End) → Reads (some (pos (low_byte (code end)))) end
code-Reads returned = refl
code-Reads exit_without = refl
code-Reads (exit_int n) = refl
code-Reads exit_str = refl
code-Reads exit_other = refl
code-Reads raised = refl

low : (n : ℕ) → n < 256 → n % 256 ≡ n
low n h = omega arith

c_int : (n : ℕ) → n < 256 → ltb n 2147483648 ≡ true
c_int n h = ground arith

-- A small number as the exit code.
exit_status-small : (n : ℕ) → n < 256 → exit_status (pos n) ≡ some (exited n)
exit_status-small n h =
    ap (λ b. if b then some (exited (n % 256)) else none) (c_int n h)
    ∙ ap (λ k. some (exited k)) (low n h)

exit_status-signal :
    (m : ℕ) → m < 256 → 0 < m → exit_status (Fork.negative (256 - m)) ≡ some (exited m)
exit_status-signal m h p = byte (256 - m) (omega arith) (omega arith)
  where
    byte : (k : ℕ) → k < 256 → m + k ≡ 256 → exit_status (Fork.negative k) ≡ some (exited m)
    byte zero l e = absurd (omega arith)
    byte (suc k) l e =
        ap (λ b. if b then some (exited (255 - k % 256)) else none) (c_int k (omega arith))
        ∙ ap (λ i. some (exited i)) (omega arith)

-- The part decides, or what comes otherwise if it returns.
abbrev pub Unless : End → (End → Type 0) → Type 0 → Type 0
Unless returned P Next = Next
Unless exit_without P Next = P exit_without
Unless (exit_int n) P Next = P (exit_int n)
Unless exit_str P Next = P exit_str
Unless exit_other P Next = P exit_other
Unless raised P Next = P raised

then_next-Unless : (a b : End) (P : End → Type 0) → P (then_next a b) → Unless a P (P b)
then_next-Unless returned b P p = p
then_next-Unless exit_without b P p = p
then_next-Unless (exit_int n) b P p = p
then_next-Unless exit_str b P p = p
then_next-Unless exit_other b P p = p
then_next-Unless raised b P p = p

Unless-map : (a : End) (P : End → Type 0) (X Y : Type 0) → (X → Y) → Unless a P X → Unless a P Y
Unless-map returned P X Y f u = f u
Unless-map exit_without P X Y f u = u
Unless-map (exit_int n) P X Y f u = u
Unless-map exit_str P X Y f u = u
Unless-map exit_other P X Y f u = u
Unless-map raised P X Y f u = u

parts :
    (setup run exit_function : End) (P : End → Type 0)
    → P (then_next setup (finally_do exit_function run))
    → Unless setup P (Unless exit_function P (P run))
parts setup run exit_function P p =
    Unless-map setup P (P (finally_do exit_function run)) (Unless exit_function P (P run))
      (then_next-Unless exit_function run P)
      (then_next-Unless setup (finally_do exit_function run) P p)

abbrev status_or : Status → Option Status → Status
status_or d none = d
status_or d (some sts) = sts

-- Where there is a status, it has the low byte of the code.
exit_status-byte : (n : ℤ) (sts : Status) → exit_status n ≡ some sts → sts ≡ exited (low_byte n)
exit_status-byte n sts =
    if_intro (λ o. o ≡ some sts → sts ≡ exited (low_byte n)) (is_c_int n)
      (λ t e. sym (ap (status_or sts) e)) (λ f e. absurd (cc))

-- What the parent reads of a child with the given status.
abbrev pub Read : Popen → Status → End → Type 0
Read q sts end = Reads ((Fork.poll (reported q.pid sts) q).0) end

-- The exit code that the parent reads of a child once it has ended by itself. What comes before `run` decides
-- unless it returns, then `_exit_function` unless it returns, and then `run`. If the part that decides
-- returned, or raised SystemExit with a string, the code is 0; for SystemExit with a number it is the number
-- modulo 256; for SystemExit with no argument or another object, and for any other exception, it is 1. This
-- holds unless the number is no C int, where `os._exit` gives no status. A child that calls `sys.exit` with
-- a number below 256 has a status and is read with this number. And one that runs `_shutdown_cleanup` for a
-- signal, for the first time, is read with the number of the signal as its positive exit code.
pub poll-launch :
    (q : Popen) (setup run exit_function : End) (sts : Status) (n signum : ℕ)
    → q.returncode ≡ none
    → launch setup run exit_function ≡ some sts
    → n < 256
    → 0 < signum
    → signum < 256
    → Unless setup (Read q sts) (Unless exit_function (Read q sts) (Read q sts run))
      × ((launch returned (exit_int (pos n)) returned ≡ some (exited n))
          × ((Fork.poll (reported q.pid (exited n)) q).0 ≡ some (pos n)))
      × ((end : End)
          → shutdown_cleanup false signum ≡ unwinds end
          → (launch returned end returned ≡ some (exited signum))
            × ((Fork.poll (reported q.pid (exited signum)) q).0 ≡ some (pos signum)))
unfolding launch bootstrap shutdown_cleanup
poll-launch q setup run exit_function sts n signum e s l p u =
    let end : End = then_next setup (finally_do exit_function run) in
    let read =
      own-status q sts e ∙ ap (λ x. some (code_of x)) (exit_status-byte (code end) sts s) in
    (
      parts setup run exit_function (Read q sts)
          (subst (λ r. Reads r end) (sym read) (code-Reads end)),
      (exit_status-small n l, own-status q (exited n) e),
      λ last h. (
        ap (λ (k : End). exit_status (code k)) (sym (ap unwound h)) ∙ exit_status-signal signum u p,
        own-status q (exited signum) e,
      ),
    )
  where
    unwound : Handled → End
    unwound (at_once k) = returned
    unwound (unwinds end) = end
