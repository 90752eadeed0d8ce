-- ===== src/Synchronize/Condition/Kept.antt =====
-- What every step of a condition variable keeps.
use billiard.Prelude.{
  ℕ, zero, suc, ◌+◌, ◌-◌, ◌≤◌, ◌<◌, ◌≡◌, refl, sym, subst, Bool, true, false, ◌==◌, if_intro,
  zero_of, pos_of, arith,
}
use billiard.Synchronize.Condition.{
  Phase, Condition, idle, draining, grabbing, collecting, rezeroing, init, Outcome, resting,
  blocked, failed, next, fall_asleep, wake_up, time_out, report, begin, grab, drain, after_drain,
  after_grab, after_collect, rezero, advance_at, advance,
}
use billiard.Synchronize.Condition.Steps.{
  Step, waits, wakes, times_out, reports, begins, advances, Reaches, here, then,
}

-- The callers of `wait` that no notifier has counted.
abbrev pub waiters : Condition → ℕ
waiters c = c.asleep + c.waking + c.woken_count

-- The wake-ups that are given and those that are taken.
abbrev pub wake_ups : Condition → ℕ
wake_ups c = c.wait_semaphore + c.waking + c.woken_count

abbrev pub Fits : Phase → Condition → Type 0
Fits idle c = (c.sleeping_count ≡ waiters c) × (c.wait_semaphore ≡ 0)
Fits (draining all) c = (c.sleeping_count ≡ waiters c) × (c.wait_semaphore ≡ 0)
Fits (grabbing n) c = (c.sleeping_count + n ≡ waiters c) × (n ≤ wake_ups c) × (c.wait_semaphore ≤ n)
Fits (collecting true n) c = (c.sleeping_count ≡ 0) × (suc n ≡ waiters c) × (suc n ≤ wake_ups c)
Fits (collecting false n) c =
    (c.sleeping_count + suc n ≡ waiters c) × (suc n ≤ wake_ups c) × (c.wait_semaphore ≤ 1)
Fits (rezeroing true) c = (c.sleeping_count ≡ 0) × (waiters c ≡ 0)
Fits (rezeroing false) c = (c.sleeping_count ≡ waiters c) × (c.wait_semaphore ≤ 1)

wake_up-Fits :
    (p : Phase) (c : Condition)
    → 0 < c.asleep
    → 0 < c.wait_semaphore
    → Fits p c
    → Fits p (wake_up c)
unfolding wake_up
wake_up-Fits idle c a w (s, z) = (omega arith, omega arith)
wake_up-Fits (draining all) c a w (s, z) = (omega arith, omega arith)
wake_up-Fits (grabbing n) c a w (s, z, u) = (omega arith, omega arith, omega arith)
wake_up-Fits (collecting true n) c a w (s, z, u) = (s, omega arith, omega arith)
wake_up-Fits (collecting false n) c a w (s, z, u) = (omega arith, omega arith, omega arith)
wake_up-Fits (rezeroing true) c a w (s, z) = (s, omega arith)
wake_up-Fits (rezeroing false) c a w (s, z) = (omega arith, omega arith)

time_out-Fits : (p : Phase) (c : Condition) → 0 < c.asleep → Fits p c → Fits p (time_out c)
unfolding time_out
time_out-Fits idle c a (s, z) = (omega arith, z)
time_out-Fits (draining all) c a (s, z) = (omega arith, z)
time_out-Fits (grabbing n) c a (s, z, u) = (omega arith, omega arith, u)
time_out-Fits (collecting true n) c a (s, z, u) = (s, omega arith, omega arith)
time_out-Fits (collecting false n) c a (s, z, u) = (omega arith, omega arith, u)
time_out-Fits (rezeroing true) c a (s, z) = (s, omega arith)
time_out-Fits (rezeroing false) c a (s, z) = (omega arith, z)

report-Fits : (p : Phase) (c : Condition) → 0 < c.waking → Fits p c → Fits p (report c)
unfolding report
report-Fits idle c a (s, z) = (omega arith, z)
report-Fits (draining all) c a (s, z) = (omega arith, z)
report-Fits (grabbing n) c a (s, z, u) = (omega arith, omega arith, u)
report-Fits (collecting true n) c a (s, z, u) = (s, omega arith, omega arith)
report-Fits (collecting false n) c a (s, z, u) = (omega arith, omega arith, u)
report-Fits (rezeroing true) c a (s, z) = (s, omega arith)
report-Fits (rezeroing false) c a (s, z) = (omega arith, z)

-- An action of the notifier does not fail, and what it leaves fits.
abbrev pub Good : Outcome → Type 0
Good resting = Unit {0}
Good blocked = Unit {0}
Good failed = ⊥
Good (next d) = Fits d.phase d

after_drain-Good :
    (all : Bool) (c : Condition)
    → c.woken_count ≡ 0
    → Fits (draining all) c
    → Good (after_drain all c)
after_drain-Good true c z (s, w) = (omega arith, omega arith, omega arith)
after_drain-Good false c z (s, w) =
    if_intro (λ (d : Condition). Fits d.phase d) (c.sleeping_count == 0) (λ e. (s, w))
      (λ e. let p = pos_of c.sleeping_count e in (omega arith, omega arith, omega arith))

drain-Good :
    (all : Bool) (c : Condition)
    → c.phase ≡ draining all
    → 0 < c.woken_count
    → Fits (draining all) c
    → Good (drain c)
drain-Good all c e p (s, w) =
    if_intro Good (c.sleeping_count == 0)
      (λ z. let n = zero_of c.sleeping_count z in absurd (omega arith))
      (λ z.
        let n = pos_of c.sleeping_count z in
        subst
          (λ q.
            Fits q
              (record c { woken_count = c.woken_count - 1; sleeping_count = c.sleeping_count - 1 }))
          (sym e) (omega arith, w))

after_grab-Good :
    (n : ℕ) (c : Condition) → c.sleeping_count ≡ 0 → Fits (grabbing n) c → Good (after_grab n c)
after_grab-Good zero c z (s, w, u) = (omega arith, omega arith)
after_grab-Good (suc n) c z (s, w, u) = (z, omega arith, w)

grab-Good :
    (n : ℕ) (c : Condition)
    → 0 < c.sleeping_count
    → Fits (grabbing n) c
    → Fits (grabbing (suc n)) (grab (grabbing (suc n)) c)
grab-Good n c p (s, w, u) = (omega arith, omega arith, omega arith)

collect-Good :
    (all : Bool) (n : ℕ) (c : Condition)
    → 0 < c.woken_count
    → Fits (collecting all n) c
    → let d = record c { woken_count = c.woken_count - 1; phase = after_collect all n } in
      Fits d.phase d
collect-Good true zero c p (s, w, u) = (s, omega arith)
collect-Good true (suc n) c p (s, w, u) = (s, omega arith, omega arith)
collect-Good false zero c p (s, w, u) = (omega arith, u)
collect-Good false (suc n) c p (s, w, u) = (omega arith, omega arith, u)

rezero-Good :
    (all : Bool) (c : Condition)
    → c.phase ≡ rezeroing all
    → Fits (rezeroing all) c
    → Good (rezero all c)
rezero-Good true c e (s, w) =
    if_intro (λ (d : Condition). Fits d.phase d) (c.wait_semaphore == 0)
      (λ z. let n = zero_of c.wait_semaphore z in (omega arith, n))
      (λ z. subst (λ q. Fits q (record c { wait_semaphore = c.wait_semaphore - 1 })) (sym e) (s, w))
rezero-Good false c e (s, w) = (s, omega arith)

advance_at-Good : (p : Phase) (c : Condition) → c.phase ≡ p → Fits p c → Good (advance_at p c)
advance_at-Good idle c e f = tt
advance_at-Good (draining all) c e f =
    if_intro Good (c.woken_count == 0) (λ z. after_drain-Good all c (zero_of c.woken_count z) f)
      (λ z. drain-Good all c e (pos_of c.woken_count z) f)
advance_at-Good (grabbing n) c e f =
    if_intro Good (c.sleeping_count == 0) (λ z. after_grab-Good n c (zero_of c.sleeping_count z) f)
      (λ z. grab-Good n c (pos_of c.sleeping_count z) f)
advance_at-Good (collecting all n) c e f =
    if_intro Good (c.woken_count == 0) (λ z. tt)
      (λ z. collect-Good all n c (pos_of c.woken_count z) f)
advance_at-Good (rezeroing all) c e f = rezero-Good all c e f

abbrev pub Sound : Condition → Type 0
Sound c = Fits c.phase c

pub advance-Good : (c : Condition) → Sound c → Good (advance c)
unfolding advance
advance-Good c f = advance_at-Good c.phase c refl f

idle_fit : (c : Condition) → c.phase ≡ idle → Sound c → Fits idle c
idle_fit c e f = subst (λ p. Fits p c) e f

fall_asleep-Sound : (c : Condition) → c.phase ≡ idle → Sound c → Sound (fall_asleep c)
unfolding fall_asleep
fall_asleep-Sound c e f =
    let (s, w) = idle_fit c e f in subst (λ p. Fits p (fall_asleep c)) (sym e) (omega arith, w)

pub begin-Good : (all : Bool) (c : Condition) → c.phase ≡ idle → Sound c → Good (begin all c)
unfolding begin
begin-Good all c e f =
    let (s, w) = idle_fit c e f in
    if_intro Good (c.wait_semaphore == 0) (λ z. (s, w))
      (λ z. let n = pos_of c.wait_semaphore z in absurd (omega arith))

Step-Sound : {c d : Condition} → Step c d → Sound c → Sound d
unfolding wake_up time_out report
Step-Sound {c = c} (waits e) f = fall_asleep-Sound c e f
Step-Sound {c = c} (wakes a w) f = wake_up-Fits c.phase c a w f
Step-Sound {c = c} (times_out a) f = time_out-Fits c.phase c a f
Step-Sound {c = c} (reports a) f = report-Fits c.phase c a f
Step-Sound {c = c} (begins all e n) f = subst Good n (begin-Good all c e f)
Step-Sound {c = c} (advances n) f = subst Good n (advance-Good c f)

pub Reaches-Sound : {c d : Condition} → Reaches c d → Sound c → Sound d
Reaches-Sound here f = f
Reaches-Sound (then s r) f = Reaches-Sound r (Step-Sound s f)

pub init-Sound : Sound init
unfolding init
init-Sound = (omega arith, refl)
