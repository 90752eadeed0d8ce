-- ===== src/Pool/Semaphore/Bound.antt =====
-- The bound of the semaphore, and that no slot is made up or lost.
use billiard.Prelude.{ℕ, zero, suc, ◌+◌, ◌-◌, ◌≤◌, ◌<◌, ◌≡◌, refl, none, some, List, [], ◌∷◌, arith}
use billiard.Prelude.Int.{pos, ◌+ℤ◌, ◌-ℤ◌, ◌≤ℤ◌, pos_part}
use billiard.Pool.Semaphore.{
  Semaphore, init, acquire, lower, shrink, grow, release, clear, clear_rounds,
}

-- Free slots never exceed the bound, which may be below 0 only if it was shrunk too often.
abbrev pub IsBounded : Semaphore → Type 0
IsBounded s = pos s.value ≤ℤ s.initial_value

pub data Op : Type 0 where
  acquires shrinks grows releases clears : Op

-- An operation that would wait leaves the state to the others: `acquire` as it is, `shrink` with
-- the bound lowered already.
unfoldable pub apply : Op → Semaphore → Semaphore
apply acquires s = elim (acquire s) [ none ↦ s | some t ↦ t ]
apply shrinks s = elim (shrink s) [ none ↦ lower s | some t ↦ t ]
apply grows s = grow s
apply releases s = release s
apply clears s = clear s

clear_rounds-full :
    (rounds : ℕ) (s : Semaphore)
    → pos_part s.initial_value ≤ s.value + rounds
    → IsBounded s
    → clear_rounds rounds s ≡ record s { value = pos_part s.initial_value }
unfolding clear_rounds
clear_rounds-full zero s fuel h = ground arith
clear_rounds-full (suc rounds) s fuel h =
    ground (arith, clear_rounds-full rounds (record s { value = s.value + 1 }))

-- `clear` ends with every slot free, whatever the number of slots in use.
pub clear-full :
    (s : Semaphore) → IsBounded s → clear s ≡ record s { value = pos_part s.initial_value }
unfolding clear
clear-full s h = clear_rounds-full (pos_part s.initial_value) s (omega arith) h

-- The number of slots after some operations, where every `shrink` finds one.
abbrev pub total : ℕ → List Op → ℕ
total n [] = n
total n (acquires ∷ ops) = total n ops
total n (shrinks ∷ ops) = total (n - 1) ops
total n (grows ∷ ops) = total (n + 1) ops
total n (releases ∷ ops) = total n ops
total n (clears ∷ ops) = total n ops

abbrev pub Allowed : ℕ → List Op → Type 0
Allowed n [] = Unit {0}
Allowed n (acquires ∷ ops) = Allowed n ops
Allowed n (shrinks ∷ ops) = (0 < n) × Allowed (n - 1) ops
Allowed n (grows ∷ ops) = Allowed (n + 1) ops
Allowed n (releases ∷ ops) = Allowed n ops
Allowed n (clears ∷ ops) = Allowed n ops

unfoldable pub run : Semaphore → List Op → Semaphore
run s [] = s
run s (op ∷ ops) = run (apply op s) ops

-- A state with n slots of which no more than n are free.
record Holds (n : ℕ) (s : Semaphore) : Type 0 where
  bound : s.initial_value ≡ pos n
  fits : s.value ≤ n

acquire-Holds : (n : ℕ) (s : Semaphore) → Holds n s → Holds n (apply acquires s)
unfolding apply acquire
acquire-Holds n s h = ground arith

shrink-Holds : (n : ℕ) (s : Semaphore) → 0 < n → Holds n s → Holds (n - 1) (apply shrinks s)
unfolding apply shrink ◌-ℤ◌
shrink-Holds n s pos_n h = ground arith

grow-Holds : (n : ℕ) (s : Semaphore) → Holds n s → Holds (n + 1) (apply grows s)
unfolding apply grow ◌+ℤ◌
grow-Holds n s h = ground arith

release-Holds : (n : ℕ) (s : Semaphore) → Holds n s → Holds n (apply releases s)
unfolding apply release
release-Holds n s h = ground arith

clear-Holds : (n : ℕ) (s : Semaphore) → Holds n s → Holds n (apply clears s)
unfolding apply
clear-Holds n s h =
    rw (clear-full s (rw h.bound (omega (arith, h.fits))))
      (record { bound = h.bound; fits = rw h.bound (omega arith) })

run-Holds :
    (n : ℕ) (s : Semaphore) (ops : List Op)
    → Allowed n ops
    → Holds n s
    → Holds (total n ops) (run s ops)
unfolding run
run-Holds n s [] a h = h
run-Holds n s (acquires ∷ ops) a h = run-Holds n (apply acquires s) ops a (acquire-Holds n s h)
run-Holds n s (shrinks ∷ ops) a h =
    run-Holds (n - 1) (apply shrinks s) ops a.1 (shrink-Holds n s a.0 h)
run-Holds n s (grows ∷ ops) a h = run-Holds (n + 1) (apply grows s) ops a (grow-Holds n s h)
run-Holds n s (releases ∷ ops) a h = run-Holds n (apply releases s) ops a (release-Holds n s h)
run-Holds n s (clears ∷ ops) a h = run-Holds n (apply clears s) ops a (clear-Holds n s h)

-- After any operations on a new semaphore that never shrink it below 0 slots, the bound counts the
-- slots that were added and removed, and no more slots are free than there are, however often
-- `release` was called.
pub run-bounded :
    (n : ℕ) (ops : List Op)
    → Allowed n ops
    → ((run (init n) ops).initial_value ≡ pos (total n ops))
      × ((run (init n) ops).value ≤ total n ops)
unfolding init
run-bounded n ops a =
    let h = run-Holds n (init n) ops a (record { bound = refl; fits = omega arith }) in
    (h.bound, h.fits)
