-- ===== src/Synchronize/Condition/Wakes.antt =====
-- What the steps of a condition variable lead to, however they interleave.
use billiard.Prelude.{
  ℕ, zero, suc, ◌+◌, ◌≤◌, ◌<◌, ◌≡◌, ◌≢◌, ◌⊎◌, inl, inr, ap, refl, sym, subst, ◌∙◌, Bool, true,
  false, false≢true, ◌==◌, if_intro, zero_of, le_or_lt, arith,
}
use billiard.Synchronize.Condition.{
  Phase, Condition, idle, draining, grabbing, collecting, rezeroing, init, Outcome, resting,
  blocked, failed, next, begin, drain, rezero, after_drain, after_grab, after_collect, advance_at,
  advance, num_waiters,
}
use billiard.Synchronize.Condition.Steps.{Reaches}
use billiard.Synchronize.Condition.Kept.{
  waiters, wake_ups, Fits, Good, Sound, advance-Good, begin-Good, Reaches-Sound, init-Sound,
}

abbrev is_idle : Phase → Bool
is_idle idle = true
is_idle (draining all) = false
is_idle (grabbing n) = false
is_idle (collecting all n) = false
is_idle (rezeroing all) = false

-- The phases of `notify_all`.
abbrev pub is_all : Phase → Bool
is_all idle = false
is_all (draining all) = all
is_all (grabbing n) = true
is_all (collecting all n) = all
is_all (rezeroing all) = all

-- If the action ends the notification, nobody waits any more.
abbrev Empties : Outcome → Type 0
Empties resting = Unit {0}
Empties blocked = Unit {0}
Empties failed = Unit {0}
Empties (next d) = d.phase ≡ idle → waiters d ≡ 0

busy : {p q : Phase} {n : ℕ} → is_idle p ≡ false → q ≡ p → q ≡ idle → n ≡ 0
busy i e f = absurd (false≢true (sym i ∙ ap is_idle (sym e ∙ f)))

after_grab-Empties :
    (n : ℕ) (c : Condition) → c.sleeping_count ≡ 0 → Fits (grabbing n) c → Empties (after_grab n c)
after_grab-Empties zero c z (s, w, u) = λ f. omega arith
after_grab-Empties (suc n) c z h = busy refl refl

after_collect-busy : (n : ℕ) → is_idle (after_collect true n) ≡ false
after_collect-busy zero = refl
after_collect-busy (suc n) = refl

advance_at-Empties :
    (p : Phase) (c : Condition)
    → c.phase ≡ p
    → is_all p ≡ true
    → Fits p c
    → Empties (advance_at p c)
advance_at-Empties idle c e a h = tt
advance_at-Empties (draining false) c e a h = absurd (false≢true a)
advance_at-Empties (draining true) c e a h =
    if_intro Empties (c.woken_count == 0) (λ z. busy refl refl)
      (λ z. if_intro Empties (c.sleeping_count == 0) (λ y. tt) (λ y. busy refl e))
advance_at-Empties (grabbing n) c e a h =
    if_intro Empties (c.sleeping_count == 0)
      (λ z. after_grab-Empties n c (zero_of c.sleeping_count z) h) (λ z. busy refl refl)
advance_at-Empties (collecting false n) c e a h = absurd (false≢true a)
advance_at-Empties (collecting true n) c e a h =
    if_intro Empties (c.woken_count == 0) (λ z. tt) (λ z. busy (after_collect-busy n) refl)
advance_at-Empties (rezeroing false) c e a h = absurd (false≢true a)
advance_at-Empties (rezeroing true) c e a (s, w) =
    if_intro (λ d. Empties (next d)) (c.wait_semaphore == 0) (λ z f. w) (λ z f. w)

-- However the steps of any number of waiting processes, with or without timeouts, interleave with it: when
-- notify_all gives back the lock, every process that waited is awake, none has yet to report it, and the
-- counters of sleeping and of woken processes are zero.
pub notify_all-awake :
    {c d : Condition}
    → Reaches init c
    → is_all c.phase ≡ true
    → advance c ≡ next d
    → d.phase ≡ idle
    → (d.asleep ≡ 0) × (d.waking ≡ 0) × (d.woken_count ≡ 0) × (d.sleeping_count ≡ 0)
unfolding advance
notify_all-awake {c = c} {d = d} r a n e =
    let none_left =
      subst Empties n (advance_at-Empties c.phase c refl a (Reaches-Sound r init-Sound)) e in
    let (counted, free) =
      subst (λ p. Fits p d) e (subst Good n (advance-Good c (Reaches-Sound r init-Sound))) in
    (omega arith, omega arith, omega arith, omega arith)

-- While the notifier waits for a report, a waiter can go on.
abbrev Unblocks : Condition → Outcome → Type 0
Unblocks c blocked = (0 < c.waking) ⊎ ((0 < c.asleep) × (0 < c.wait_semaphore))
Unblocks c resting = Unit {0}
Unblocks c failed = Unit {0}
Unblocks c (next d) = Unit {0}

someone :
    (n : ℕ) (c : Condition)
    → c.woken_count ≡ 0
    → suc n ≤ wake_ups c
    → suc n ≤ waiters c
    → (0 < c.waking) ⊎ ((0 < c.asleep) × (0 < c.wait_semaphore))
someone n c z u v = elim (le_or_lt c.waking 0) [
  | inl none_waking ↦ inr (omega arith, omega arith)
  | inr some_waking ↦ inl some_waking
]

waiting : (n : ℕ) (all : Bool) (c : Condition) → Fits (collecting all n) c → suc n ≤ waiters c
waiting n true c (s, w, u) = omega arith
waiting n false c (s, w, u) = omega arith

woken : (n : ℕ) (all : Bool) (c : Condition) → Fits (collecting all n) c → suc n ≤ wake_ups c
woken n true c (s, w, u) = u
woken n false c (s, w, u) = w

drain-Unblocks : (c : Condition) → Unblocks c (drain c)
drain-Unblocks c = if_intro (Unblocks c) (c.sleeping_count == 0) (λ z. tt) (λ z. tt)

after_drain-Unblocks : (all : Bool) (c : Condition) → Unblocks c (after_drain all c)
after_drain-Unblocks true c = tt
after_drain-Unblocks false c = tt

after_grab-Unblocks : (n : ℕ) (c : Condition) → Unblocks c (after_grab n c)
after_grab-Unblocks zero c = tt
after_grab-Unblocks (suc n) c = tt

rezero-Unblocks : (all : Bool) (c : Condition) → Unblocks c (rezero all c)
rezero-Unblocks true c = tt
rezero-Unblocks false c = tt

advance_at-Unblocks : (p : Phase) (c : Condition) → Fits p c → Unblocks c (advance_at p c)
advance_at-Unblocks idle c h = tt
advance_at-Unblocks (draining all) c h =
    if_intro (Unblocks c) (c.woken_count == 0) (λ z. after_drain-Unblocks all c)
      (λ z. drain-Unblocks c)
advance_at-Unblocks (grabbing n) c h =
    if_intro (Unblocks c) (c.sleeping_count == 0) (λ z. after_grab-Unblocks n c) (λ z. tt)
advance_at-Unblocks (collecting all n) c h =
    if_intro (Unblocks c) (c.woken_count == 0)
      (λ z. someone n c (zero_of c.woken_count z) (woken n all c h) (waiting n all c h)) (λ z. tt)
advance_at-Unblocks (rezeroing all) c h = rezero-Unblocks all c

repr_at : (c : Condition) → c.phase ≡ idle → Sound c → num_waiters c ≡ c.asleep + c.waking
unfolding num_waiters
repr_at c e h = let (s, w) = subst (λ p. Fits p c) e h in omega arith

-- However the steps interleave: no assertion of notify or notify_all fails; where the notifier waits for
-- a report, some waiter is about to report or can be woken at once, so that there is no deadlock; and while
-- no notification runs, the number that __repr__ shows is that of the processes that wait.
pub notify-safe :
    {c : Condition}
    → Reaches init c
    → (advance c ≢ failed)
      × ((all : Bool) → c.phase ≡ idle → begin all c ≢ failed)
      × (advance c ≡ blocked → (0 < c.waking) ⊎ ((0 < c.asleep) × (0 < c.wait_semaphore)))
      × (c.phase ≡ idle → num_waiters c ≡ c.asleep + c.waking)
unfolding advance
notify-safe {c = c} r =
    let h = Reaches-Sound r init-Sound in
    (
      (λ e. subst Good e (advance-Good c h)),
      (λ all i e. subst Good e (begin-Good all c i h)),
      (λ e. subst (Unblocks c) e (advance_at-Unblocks c.phase c h)),
      (λ i. repr_at c i h),
    )
