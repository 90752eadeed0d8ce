-- ===== src/Heap/Bools.antt =====
-- Boolean tests and what they tell.
use billiard.Prelude.{ℕ, ◌≡◌, refl, sym, ◌∙◌, Bool, true, false, false≢true, not, ◌&&◌, ◌==◌, arith}

pub eq_of : (a b : ℕ) → (a == b) ≡ true → a ≡ b
eq_of a b h = ground arith

pub eq_to : (a b : ℕ) → a ≡ b → (a == b) ≡ true
eq_to a b h = ground arith

pub and_left : (b c : Bool) → (b && c) ≡ true → b ≡ true
and_left true c h = refl
and_left false c h = absurd (false≢true h)

pub and_right : (b c : Bool) → (b && c) ≡ true → c ≡ true
and_right true c h = h
and_right false c h = absurd (false≢true h)

pub and_intro : (b c : Bool) → b ≡ true → c ≡ true → (b && c) ≡ true
and_intro true c h k = k
and_intro false c h k = absurd (false≢true h)

pub bool_ext : (b c : Bool) → (b ≡ true → c ≡ true) → (c ≡ true → b ≡ true) → b ≡ c
bool_ext true c f g = sym (f refl)
bool_ext false true f g = g refl
bool_ext false false f g = refl

pub not-true : (b : Bool) → not b ≡ true → b ≡ false
not-true true h = absurd (false≢true h)
not-true false h = refl

pub not-false : (b : Bool) → b ≡ false → not b ≡ true
not-false true h = absurd (false≢true (sym h))
not-false false h = refl

-- A test that leads from true to false is false.
pub refute : (b : Bool) → (b ≡ true → ⊥) → b ≡ false
refute true f = absurd (f refl)
refute false f = refl

pub clash : {b : Bool} → b ≡ true → b ≡ false → ⊥
clash h k = false≢true (sym k ∙ h)
