-- ===== src/Process/Children.antt =====
-- The children that a process knows of, after any calls.
use billiard.Prelude.{
  ℕ, ◌≡◌, ◌≢◌, refl, sym, subst, ◌∙◌, Bool, true, false, false≢true, Option, none, some, List, ◌==◌,
  if_intro, ◌⊎◌, inl, inr,
}
use billiard.Prelude.Int.{ℤ}
use billiard.Process.Fork
use billiard.Process.Fork.{Waits, Ended, value, type_error, Popen}
use billiard.Process.{
  World, init, is_none, member, listed, active_children, checked, joined, join_from, join,
}
use billiard.Process.Handle.{Waited, wait-Waited}
use billiard.Process.Reach.{Open, Kept, known_of}
use billiard.Process.Cleanup.{Visits, cleanup-Visits}
use billiard.Process.Calls.{Call, run, fresh, run-Reach}

fresh-Kept :
    (pid : ℕ) (current : Option ℕ) (parents : ℕ → ℕ) (j : ℕ)
    → Kept false ((fresh pid current parents).processes j).popen
unfolding init
fresh-Kept pid current parents j = refl

-- The books are right.
abbrev Booked : World → Type 0
Booked w = (j : ℕ) → Kept (member j w.children) (w.processes j).popen

run-Booked :
    (pid : ℕ) (current : Option ℕ) (parents : ℕ → ℕ) (calls : List Call)
    → Booked (run calls (fresh pid current parents))
run-Booked pid current parents calls j =
    ((run-Reach calls (fresh pid current parents)).each j).0 (fresh-Kept pid current parents j)

Kept-handle : (m : Bool) (o : Option Popen) → Kept m o → m ≡ true → is_none o ≡ false
Kept-handle m none k e = absurd (false≢true (sym k ∙ e))
Kept-handle m (some q) k e = refl

Open-known :
    (m : Bool) (c : Option ℤ) (s : Option ℕ) → Open m c s → c ≡ none → (m ≡ true) × (s ≢ none)
Open-known m (some x) s o e = absurd (cc)
Open-known m none none o e = absurd o
Open-known m none (some fd) o e = (o, λ z. cc)

Kept-known :
    (m : Bool) (o : Option Popen) (q : Popen)
    → Kept m o
    → o ≡ some q
    → q.returncode ≡ none
    → (m ≡ true) × (q.sentinel ≢ none)
Kept-known m o q k e n = Open-known m q.returncode q.sentinel (subst (Kept m) e k) n

unknown :
    (o : Option Popen)
    → is_none o ≡ false
    → known_of o ≡ none
    → (q : Popen) × (o ≡ some q) × (q.returncode ≡ none)
unknown none e k = absurd (false≢true (sym e))
unknown (some q) e k = (q, refl, k)

module _ (w : World) (booked : Booked w) where
  active :
      (answers : ℕ → Waits)
      → let r = active_children answers w in
        (r.0 ≡ value r.1.children)
        × ((j : ℕ)
            → member j r.1.children ≡ true
            → (q : Popen) × ((r.1.processes j).popen ≡ some q) × (q.returncode ≡ none))
        × ((j : ℕ) (q : Popen)
            → (r.1.processes j).popen ≡ some q
            → q.returncode ≡ none
            → member j r.1.children ≡ true)
  unfolding active_children
  active answers =
      let (v, e, visits) =
        cleanup-Visits answers w.children w
          (λ j. Kept-handle (member j w.children) (w.processes j).popen (booked j)) in
      subst
        (λ o.
          let r = listed o w in
          (r.0 ≡ value r.1.children)
          × ((j : ℕ)
              → member j r.1.children ≡ true
              → (q : Popen) × ((r.1.processes j).popen ≡ some q) × (q.returncode ≡ none))
          × ((j : ℕ) (q : Popen)
              → (r.1.processes j).popen ≡ some q
              → q.returncode ≡ none
              → member j r.1.children ≡ true))
        (sym e) (seen v visits)
    where
      vacuous :
          (j : ℕ)
          → (b : Bool) → member j w.children ≡ b
          → (member j w.children ≡ true)
            ⊎ ((member j w.children ≡ true) → known_of (w.processes j).popen ≡ none)
      vacuous j true e = inl e
      vacuous j false e = inr (λ m. absurd (false≢true (sym e ∙ m)))

      seen :
          (v : World)
          → Visits w.children w v
          → (value v.children ≡ value v.children)
            × ((j : ℕ)
                → member j v.children ≡ true
                → (q : Popen) × ((v.processes j).popen ≡ some q) × (q.returncode ≡ none))
            × ((j : ℕ) (q : Popen)
                → (v.processes j).popen ≡ some q
                → q.returncode ≡ none
                → member j v.children ≡ true)
      seen v visits =
          let kept : Booked v = λ j. (visits.reach.each j).0 (booked j) in
          (
            refl,
            λ j m.
                unknown (v.processes j).popen
                  (Kept-handle (member j v.children) (v.processes j).popen (kept j) m)
                  (visits.quiet j (vacuous j (member j w.children) refl) m),
            λ j q e n. (Kept-known (member j v.children) (v.processes j).popen q (kept j) e n).0,
          )

  join-typed :
      (i : ℕ) (timeout : Option Bool) (answers : Waits) → (join i timeout answers w).0 ≢ type_error
  unfolding join
  join-typed i timeout answers = open_or (w.processes i).closed
    where
      fine :
          (q : Popen) (r : Ended (Option ℤ) × Popen)
          → (w.processes i).popen ≡ some q
          → Waited q r
          → (joined i r w).0 ≢ type_error
      fine q (value none, s) e t z = cc
      fine q (value (some c), s) e t z = cc
      fine q (Fork.value_error, s) e t z = cc
      fine q (Fork.assertion, s) e t z = cc
      fine q (Fork.attribute_error, s) e t z = cc
      fine q (type_error, s) e t z =
          let (n, f) = t.typed refl in
          (Kept-known (member i w.children) (w.processes i).popen q (booked i) e n).1 f
      fine q (Fork.os_error, s) e t z = cc

      checks :
          (o : Option Popen)
          → (w.processes i).popen ≡ o
          → (join_from i timeout answers o w).0 ≢ type_error
      checks none e z = cc
      checks (some q) e z =
          if_intro (λ (r : Ended (Unit {0}) × World). r.0 ≢ type_error)
            ((w.processes i).parent_pid == w.pid)
            (λ t. fine q (Fork.wait timeout answers q) e (wait-Waited timeout answers q))
            (λ t z. cc) z

      open_or :
          (b : Bool)
          → (checked b w (join_from i timeout answers (w.processes i).popen w)).0 ≢ type_error
      open_or true z = cc
      open_or false z = checks (w.processes i).popen refl z

-- After any calls on new objects, whatever the system answers, `active_children` raises nothing and returns
-- exactly those children that were started, and not closed, whose end is not known: each of them has a Popen
-- without an exit code, and each object with such a Popen is among them. And no `join` waits on a sentinel
-- that was closed before.
pub run-active_children :
    (pid : ℕ) (current : Option ℕ) (parents : ℕ → ℕ) (calls : List Call) (answers : ℕ → Waits)
    → let w = run calls (fresh pid current parents) in
      let r = active_children answers w in
      ((r.0 ≡ value r.1.children)
        × ((j : ℕ)
            → member j r.1.children ≡ true
            → (q : Popen) × ((r.1.processes j).popen ≡ some q) × (q.returncode ≡ none))
        × ((j : ℕ) (q : Popen)
            → (r.1.processes j).popen ≡ some q
            → q.returncode ≡ none
            → member j r.1.children ≡ true))
      × ((i : ℕ) (timeout : Option Bool) (later : Waits) → (join i timeout later w).0 ≢ type_error)
run-active_children pid current parents calls answers =
    let booked = run-Booked pid current parents calls in
    (
      active (run calls (fresh pid current parents)) booked answers,
      join-typed (run calls (fresh pid current parents)) booked,
    )
