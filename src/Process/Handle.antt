-- ===== src/Process/Handle.antt =====
-- What the operations of a Popen do to its exit code and its sentinel.
use billiard.Prelude.{ℕ, ◌≡◌, refl, sym, ap, subst, ◌∙◌, Bool, Option, none, some, ◌==◌, if_intro}
use billiard.Prelude.Int.{ℤ}
use billiard.Process.Fork.{
  Waits, interrupted, failed, reported, Kill, sent, no_process, denied, Ended, value, value_error,
  assertion, attribute_error, type_error, os_error, Popen, reap, poll_from, poll, value_of,
  wait_ready, wait_from, wait, after_denied, terminate_from, terminate,
}
use billiard.Process.Reach.{Open, Kept}

-- A code that is known is not asked for again, and the sentinel stays.
pub record Holds (q r : Popen) : Type 0 where
  pub sentinel : r.sentinel ≡ q.sentinel
  pub lasting : (c : ℤ) → q.returncode ≡ some c → r.returncode ≡ some c

pub Holds-refl : (q : Popen) → Holds q q
Holds-refl q = record { sentinel = refl; lasting = λ c e. e }

-- The same with what the call returns.
pub record Polled (q : Popen) (r : Option ℤ × Popen) : Type 0 where
  pub code : r.0 ≡ r.1.returncode
  pub holds : Holds q r.1

reap-Polled : (answers : Waits) (q : Popen) → q.returncode ≡ none → Polled q (reap answers q)
reap-Polled (interrupted later) q e = reap-Polled later q e
reap-Polled failed q e = record { code = sym e; holds = Holds-refl q }
reap-Polled (reported pid sts) q e = record {
  code = refl;
  holds =
      if_intro (λ r. Holds q r) (pid == q.pid)
        (λ s. record { sentinel = refl; lasting = λ c k. absurd (cc) }) (λ s. Holds-refl q);
}

Option-code :
    (c : Option ℤ)
    → (P : Option ℤ → Type 0) → (c ≡ none → P none)
    → ((d : ℤ) → c ≡ some d → P (some d))
    → P c
Option-code none P f g = f refl
Option-code (some d) P f g = g d refl

pub poll-Polled : (answers : Waits) (q : Popen) → Polled q (poll answers q)
unfolding poll
poll-Polled answers q =
    Option-code q.returncode (λ c. Polled q (poll_from c answers q)) (reap-Polled answers q)
      (λ d e. record { code = sym e; holds = Holds-refl q })

-- A wait that tells a code leaves it in the Popen, and TypeError is only for a sentinel that was closed.
pub record Waited (q : Popen) (r : Ended (Option ℤ) × Popen) : Type 0 where
  pub tells : (c : ℤ) → r.0 ≡ value (some c) → r.1.returncode ≡ some c
  pub holds : Holds q r.1
  pub typed : r.0 ≡ type_error → (q.returncode ≡ none) × (q.sentinel ≡ none)

abbrev told : Ended (Option ℤ) → Option ℤ
told (value c) = c
told value_error = none
told assertion = none
told attribute_error = none
told type_error = none
told os_error = none

value_of-Waited : (q : Popen) (r : Option ℤ × Popen) → Polled q r → Waited q (value_of r)
value_of-Waited q (code, s) p = record {
  tells = λ c e. sym p.code ∙ ap told e;
  holds = p.holds;
  typed = λ e. absurd (cc);
}

unknown-Waited : (q : Popen) → Waited q (value none, q)
unknown-Waited q = record {
  tells = λ c e. absurd (cc);
  holds = Holds-refl q;
  typed = λ e. absurd (cc);
}

Option-fd :
    (c : Option ℕ)
    → (P : Option ℕ → Type 0) → (c ≡ none → P none)
    → ((d : ℕ) → c ≡ some d → P (some d))
    → P c
Option-fd none P f g = f refl
Option-fd (some d) P f g = g d refl

waiting-Waited :
    (timeout : Option Bool) (answers : Waits) (q : Popen)
    → q.returncode ≡ none
    → Waited q (wait_from none timeout answers q)
waiting-Waited none answers q e = value_of-Waited q (reap answers q) (reap-Polled answers q e)
waiting-Waited (some ready) answers q e =
    Option-fd q.sentinel (λ s. Waited q (wait_ready s ready answers q))
      (λ s. record { tells = λ c k. absurd (cc); holds = Holds-refl q; typed = λ k. (e, s) })
      (λ fd s.
        if_intro (λ r. Waited q r) ready
          (λ t. value_of-Waited q (reap answers q) (reap-Polled answers q e))
          (λ t. unknown-Waited q))

pub wait-Waited :
    (timeout : Option Bool) (answers : Waits) (q : Popen) → Waited q (wait timeout answers q)
unfolding wait
wait-Waited timeout answers q =
    Option-code q.returncode (λ c. Waited q (wait_from c timeout answers q))
      (waiting-Waited timeout answers q)
      (λ d e. record {
        tells = λ c k. e ∙ ap told k;
        holds = Holds-refl q;
        typed = λ k. absurd (cc);
      })

after_denied-Holds :
    (q : Popen) (r : Ended (Option ℤ) × Popen) → Holds q r.1 → Holds q (after_denied r).1
after_denied-Holds q (value none, s) h = h
after_denied-Holds q (value (some c), s) h = h
after_denied-Holds q (value_error, s) h = h
after_denied-Holds q (assertion, s) h = h
after_denied-Holds q (attribute_error, s) h = h
after_denied-Holds q (type_error, s) h = h
after_denied-Holds q (os_error, s) h = h

terminating :
    (c : Option ℤ) (kill : Kill) (ready : Bool) (answers : Waits) (q : Popen)
    → Holds q (terminate_from c kill ready answers q).1
unfolding wait
terminating (some c) kill ready answers q = Holds-refl q
terminating none sent ready answers q = Holds-refl q
terminating none no_process ready answers q = Holds-refl q
terminating none denied ready answers q =
    after_denied-Holds q (wait (some ready) answers q) (wait-Waited (some ready) answers q).holds

pub terminate-Holds :
    (kill : Kill) (ready : Bool) (answers : Waits) (q : Popen)
    → Holds q (terminate kill ready answers q).1
unfolding terminate
terminate-Holds kill ready answers q = terminating q.returncode kill ready answers q

Open-lasting :
    (m : Bool) (c d : Option ℤ) (s t : Option ℕ)
    → ((x : ℤ) → c ≡ some x → d ≡ some x)
    → t ≡ s
    → Open m c s
    → Open m d t
Open-lasting m c (some y) s t f e o = tt
Open-lasting m none none s t f e o = subst (Open m none) (sym e) o
Open-lasting m (some x) none s t f e o = absurd (let z = f x refl in cc)

pub Kept-Holds : (m : Bool) (q r : Popen) → Holds q r → Kept m (some q) → Kept m (some r)
Kept-Holds m q r h k =
    Open-lasting m q.returncode r.returncode q.sentinel r.sentinel h.lasting h.sentinel k
