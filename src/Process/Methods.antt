-- ===== src/Process/Methods.antt =====
-- Each method of a process object changes that object only, and keeps a known exit code.
use billiard.Prelude.{
  ℕ, ◌≡◌, refl, sym, ap, subst, ◌∙◌, Bool, true, false, Option, none, some, ◌==◌, if◌then◌else◌,
  if_intro, inl, inr,
}
use billiard.Prelude.Int.{ℤ}
use billiard.Process.Fork
use billiard.Process.Fork.{
  Waits, Kill, Ended, value, value_error, assertion, attribute_error, type_error, os_error, Popen,
}
use billiard.Process.{
  Process, World, member, set, set_popen, visited, checked, close_polled, close_from, close,
  terminate_from, terminate, terminate_controlled, joined, join_from, join, alive_from, is_current,
  is_alive, code_from, exitcode,
}
use billiard.Process.Handle.{
  Holds, Polled, poll-Polled, Waited, wait-Waited, terminate-Holds, Kept-Holds,
}
use billiard.Process.Reach.{
  Open, Kept, known_of, Local, Reach, Reach-refl, Reach-trans, Reach-set, Reach-leave,
}

-- The object with a Popen that has gone on.
Local-popen :
    (m : Bool) (p : Process) (q r : Popen)
    → p.popen ≡ some q
    → Holds q r
    → Local m p m (record p { popen = some r })
Local-popen m p q r e h = (
  λ k. Kept-Holds m q r h (subst (Kept m) e k),
  (λ c. c, λ c k. inl (h.lasting c (sym (ap known_of e) ∙ k))),
)

ended : (c : Option ℤ) (s : Option ℕ) (x : ℤ) → c ≡ some x → Open false c s
ended c s x e = subst (λ d. Open false d s) (sym e) tt

-- The same, with a code that is known, out of the children and with any sentinel.
Local-left :
    (m : Bool) (p : Process) (q r s : Popen) (x : ℤ)
    → p.popen ≡ some q
    → Holds q r
    → r.returncode ≡ some x
    → s.returncode ≡ r.returncode
    → Local m p false (record p { popen = some s })
Local-left m p q r s x e h f g = (
  λ k. ended s.returncode s.sentinel x (g ∙ f),
  (λ c. c, λ c k. inl (g ∙ h.lasting c (sym (ap known_of e) ∙ k))),
)

set_popen-Reach :
    (i : ℕ) (q r : Popen) (w : World)
    → (w.processes i).popen ≡ some q
    → Holds q r
    → Reach w (set_popen i r w)
set_popen-Reach i q r w e h =
    Reach-set i (record (w.processes i) { popen = some r }) w
      (Local-popen (member i w.children) (w.processes i) q r e h)

pub visited-Reach :
    (i : ℕ) (q : Popen) (r : Option ℤ × Popen) (w : World)
    → (w.processes i).popen ≡ some q
    → Polled q r
    → Reach w (visited i r w)
visited-Reach i q (none, r) w e p = set_popen-Reach i q r w e p.holds
visited-Reach i q (some c, r) w e p =
    Reach-leave i (record (w.processes i) { popen = some r }) w
      (Local-left (member i w.children) (w.processes i) q r r c e p.holds (sym p.code) refl)

-- The Popen of an object, with the equation that it is.
pub popen-cases :
    {A : Type 0}
    → (o : Option A) → (P : Option A → Type 0) → (o ≡ none → P none)
    → ((q : A) → o ≡ some q → P (some q))
    → P o
popen-cases none P f g = f refl
popen-cases (some q) P f g = g q refl

pub checked-Reach :
    {A : Type 0}
    → (closed : Bool) (w : World) (r : Ended A × World) → Reach w r.1
    → Reach w (checked closed w r).1
checked-Reach true w r h = Reach-refl w
checked-Reach false w r h = h

pub close-Reach : (i : ℕ) (answers : Waits) (w : World) → Reach w (close i answers w).1
unfolding close
close-Reach i answers w =
    popen-cases (w.processes i).popen (λ o. Reach w (close_from i answers o w).1)
      (λ e.
        Reach-set i (record (w.processes i) { closed = true }) w
          (λ k. k, (λ c. refl, λ c k. inl k)))
      (λ q e. polled q (Fork.poll answers q) e (poll-Polled answers q))
  where
    polled :
        (q : Popen) (r : Option ℤ × Popen)
        → (w.processes i).popen ≡ some q
        → Polled q r
        → Reach w (close_polled i r w).1
    polled q (none, r) e p = set_popen-Reach i q r w e p.holds
    polled q (some c, r) e p =
        Reach-leave i (record (w.processes i) { popen = none; sentinel = none; closed = true }) w
          (λ k. refl, (λ c. refl, λ c k. inr refl))

pub terminate-Reach :
    (i : ℕ) (kill : Kill) (ready : Bool) (answers : Waits) (w : World)
    → Reach w (terminate i kill ready answers w).1
unfolding terminate
terminate-Reach i kill ready answers w =
    checked-Reach (w.processes i).closed w
      (terminate_from i kill ready answers (w.processes i).popen w)
      (popen-cases (w.processes i).popen (λ o. Reach w (terminate_from i kill ready answers o w).1)
        (λ e. Reach-refl w)
        (λ q e.
          set_popen-Reach i q (Fork.terminate kill ready answers q).1 w e
            (terminate-Holds kill ready answers q)))

pub terminate_controlled-Reach :
    (i : ℕ) (kill : Kill) (ready : Bool) (answers : Waits) (w : World)
    → Reach w (terminate_controlled i kill ready answers w).1
unfolding terminate_controlled
terminate_controlled-Reach i kill ready answers w =
    Reach-trans
      (Reach-set i (record (w.processes i) { controlled_termination = true }) w
        (λ k. k, (λ c. c, λ c k. inl k)))
      (terminate-Reach i kill ready answers
        (set i (record (w.processes i) { controlled_termination = true }) w))

pub join-Reach :
    (i : ℕ) (timeout : Option Bool) (answers : Waits) (w : World)
    → Reach w (join i timeout answers w).1
unfolding join Fork.close
join-Reach i timeout answers w =
    checked-Reach (w.processes i).closed w (join_from i timeout answers (w.processes i).popen w) (
      popen-cases (w.processes i).popen (λ o. Reach w (join_from i timeout answers o w).1)
        (λ e. Reach-refl w)
        (λ q e.
          if_intro (λ (r : Ended (Unit {0}) × World). Reach w r.1)
            ((w.processes i).parent_pid == w.pid)
            (λ t. waited q (Fork.wait timeout answers q) e (wait-Waited timeout answers q))
            (λ t. Reach-refl w)))
  where
    waited :
        (q : Popen) (r : Ended (Option ℤ) × Popen)
        → (w.processes i).popen ≡ some q
        → Waited q r
        → Reach w (joined i r w).1
    waited q (value none, r) e p = set_popen-Reach i q r w e p.holds
    waited q (value (some c), r) e p =
        Reach-leave i (record (w.processes i) { popen = some (Fork.close r) }) w
          (Local-left (member i w.children) (w.processes i) q r (Fork.close r) c e p.holds
            (p.tells c refl) refl)
    waited q (value_error, r) e p = set_popen-Reach i q r w e p.holds
    waited q (assertion, r) e p = set_popen-Reach i q r w e p.holds
    waited q (attribute_error, r) e p = set_popen-Reach i q r w e p.holds
    waited q (type_error, r) e p = set_popen-Reach i q r w e p.holds
    waited q (os_error, r) e p = set_popen-Reach i q r w e p.holds

pub is_alive-Reach : (i : ℕ) (answers : Waits) (w : World) → Reach w (is_alive i answers w).1
unfolding is_alive
is_alive-Reach i answers w =
    checked-Reach (w.processes i).closed w
      (if is_current i w.current
        then (value true, w)
        else if (w.processes i).parent_pid == w.pid
        then alive_from i answers (w.processes i).popen w
        else (assertion, w))
      (if_intro (λ (r : Ended Bool × World). Reach w r.1) (is_current i w.current)
        (λ t. Reach-refl w)
        (λ f.
          if_intro (λ (r : Ended Bool × World). Reach w r.1) ((w.processes i).parent_pid == w.pid)
            (λ t.
              popen-cases (w.processes i).popen (λ o. Reach w (alive_from i answers o w).1)
                (λ e. Reach-refl w)
                (λ q e.
                  set_popen-Reach i q (Fork.poll answers q).1 w e (poll-Polled answers q).holds))
            (λ t. Reach-refl w)))

pub exitcode-Reach : (i : ℕ) (answers : Waits) (w : World) → Reach w (exitcode i answers w).1
unfolding exitcode
exitcode-Reach i answers w =
    checked-Reach (w.processes i).closed w (code_from i answers (w.processes i).popen w) (
      popen-cases (w.processes i).popen (λ o. Reach w (code_from i answers o w).1)
        (λ e. Reach-refl w)
        (λ q e. set_popen-Reach i q (Fork.poll answers q).1 w e (poll-Polled answers q).holds))
