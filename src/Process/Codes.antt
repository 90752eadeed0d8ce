-- ===== src/Process/Codes.antt =====
-- The exit code of a child, from the answer of the system to what the parent reads at any later time.
use billiard.Prelude.{
  ℕ, ◌≡◌, refl, sym, ap, subst, ◌∙◌, Bool, true, false, Option, none, some, List, ◌==◌, if_intro,
  ◌⊎◌, inl, inr, arith,
}
use billiard.Prelude.Int.{ℤ}
use billiard.Process.Fork
use billiard.Process.Fork.{
  Status, Waits, interrupted, failed, reported, Ended, value, value_error, Popen, code_of, note,
  reap, poll_from,
}
use billiard.Process.{Process, World, checked, code_from, exitcode}
use billiard.Process.Handle.{poll-Polled}
use billiard.Process.Reach.{known_of, eq_of}
use billiard.Process.Methods.{popen-cases}
use billiard.Process.Calls.{Call, run, run-Reach}

-- The answer after the interrupted calls.
abbrev pub answer : Waits → Option (ℕ × Status)
answer (interrupted later) = answer later
answer failed = none
answer (reported pid sts) = some (pid, sts)

-- The code was known, or the system has told it of this child just now.
abbrev pub Told : Waits → Popen → ℤ → Type 0
Told answers q c =
    (q.returncode ≡ some c)
    ⊎ ((sts : Status) × (answer answers ≡ some (q.pid, sts)) × (c ≡ code_of sts))

abbrev code_or : ℤ → Option ℤ → ℤ
code_or d none = d
code_or d (some c) = c

reap-Told : (answers : Waits) (q : Popen) (c : ℤ) → (reap answers q).0 ≡ some c → Told answers q c
reap-Told (interrupted later) q c e = reap-Told later q c e
reap-Told failed q c e = absurd (cc)
reap-Told (reported pid sts) q c k =
    if_intro (λ (r : Popen). r.returncode ≡ some c → Told (reported pid sts) q c) (pid == q.pid)
      (λ t e. inr (sts, ap (λ p. some (p, sts)) (eq_of pid q.pid t), sym (ap (code_or c) e)))
      (λ f e. inl e) k

poll-Told :
    (answers : Waits) (q : Popen) (c : ℤ) → (Fork.poll answers q).0 ≡ some c → Told answers q c
unfolding Fork.poll
poll-Told answers q c =
    popen-cases q.returncode (λ o. (poll_from o answers q).0 ≡ some c → Told answers q c)
      (λ n e. reap-Told answers q c e) (λ d k e. inl (k ∙ e))

abbrev code_told : Ended (Option ℤ) → Option ℤ
code_told (value c) = c
code_told Fork.value_error = none
code_told Fork.assertion = none
code_told Fork.attribute_error = none
code_told Fork.type_error = none
code_told Fork.os_error = none

-- What `exitcode` reads.
exitcode-Told :
    (i : ℕ) (answers : Waits) (w : World) (c : ℤ)
    → (exitcode i answers w).0 ≡ value (some c)
    → ((q : Popen) × ((w.processes i).popen ≡ some q) × Told answers q c)
unfolding exitcode
exitcode-Told i answers w c = open_or (w.processes i).closed
  where
    read :
        (o : Option Popen)
        → (w.processes i).popen ≡ o
        → (code_from i answers o w).0 ≡ value (some c)
        → (q : Popen) × ((w.processes i).popen ≡ some q) × Told answers q c
    read none p e = absurd (cc)
    read (some q) p e = (q, p, poll-Told answers q c (ap code_told e))

    open_or :
        (b : Bool)
        → (checked b w (code_from i answers (w.processes i).popen w)).0 ≡ value (some c)
        → (q : Popen) × ((w.processes i).popen ≡ some q) × Told answers q c
    open_or true e = absurd (cc)
    open_or false e = read (w.processes i).popen refl e

-- The code is then in the object.
exitcode-known :
    (i : ℕ) (answers : Waits) (w : World) (c : ℤ)
    → (exitcode i answers w).0 ≡ value (some c)
    → known_of ((exitcode i answers w).1.processes i).popen ≡ some c
unfolding exitcode
exitcode-known i answers w c = open_or (w.processes i).closed
  where
    read :
        (o : Option Popen)
        → (code_from i answers o w).0 ≡ value (some c)
        → known_of ((code_from i answers o w).1.processes i).popen ≡ some c
    read none e = absurd (cc)
    read (some q) e =
        if_intro (λ (p : Process). known_of p.popen ≡ some c) (i == i)
          (λ t. sym (poll-Polled answers q).code ∙ ap code_told e) (λ f. absurd (ground arith))

    open_or :
        (b : Bool)
        → (checked b w (code_from i answers (w.processes i).popen w)).0 ≡ value (some c)
        → known_of ((checked b w (code_from i answers (w.processes i).popen w)).1.processes i).popen
          ≡ some c
    open_or true e = absurd (cc)
    open_or false e = read (w.processes i).popen e

-- A code that is known is read, unless the object is closed.
known-read :
    (i : ℕ) (answers : Waits) (w : World) (c : ℤ)
    → (known_of (w.processes i).popen ≡ some c) ⊎ ((w.processes i).closed ≡ true)
    → ((exitcode i answers w).0 ≡ value (some c)) ⊎ ((exitcode i answers w).0 ≡ value_error)
unfolding exitcode Fork.poll
known-read i answers w c (inr closed) =
    inr (ap (λ b. (checked b w (code_from i answers (w.processes i).popen w)).0) closed)
known-read i answers w c (inl known) = open_or (w.processes i).closed
  where
    read : (o : Option Popen) → known_of o ≡ some c → (code_from i answers o w).0 ≡ value (some c)
    read none k = absurd (cc)
    read (some q) k = subst (λ d. value ((poll_from d answers q).0) ≡ value (some c)) (sym k) refl

    open_or :
        (b : Bool)
        → ((checked b w (code_from i answers (w.processes i).popen w)).0 ≡ value (some c))
          ⊎ ((checked b w (code_from i answers (w.processes i).popen w)).0 ≡ value_error)
    open_or true = inr refl
    open_or false = inl (read (w.processes i).popen known)

-- Where `exitcode` returns a code, it was known, or the system has just reported a status of this very child
-- of which it is the code, however often the call was interrupted. And after any other calls, whatever the
-- system answers to them, `exitcode` returns the same code again, or a ValueError once the object is closed.
pub exitcode-run :
    (i : ℕ) (answers : Waits) (w : World) (c : ℤ) (calls : List Call) (later : Waits)
    → (exitcode i answers w).0 ≡ value (some c)
    → let v = run calls (exitcode i answers w).1 in
      ((q : Popen) × ((w.processes i).popen ≡ some q) × Told answers q c)
      × (((exitcode i later v).0 ≡ value (some c)) ⊎ ((exitcode i later v).0 ≡ value_error))
exitcode-run i answers w c calls later e =
    let (u, f) = ((run-Reach calls (exitcode i answers w).1).each i).1 in
    (
      exitcode-Told i answers w c e,
      known-read i later (run calls (exitcode i answers w).1) c
          (f c (exitcode-known i answers w c e)),
    )
