-- ===== src/Process/Reach.antt =====
-- What a call may change of an object and of its place among the children.
use billiard.Prelude.{
  ℕ, ◌≡◌, refl, sym, subst, ◌∙◌, Bool, true, false, Option, none, some, List, [], ◌∷◌, ◌==◌,
  if◌then◌else◌, if_intro, ◌⊎◌, inl, inr, arith,
}
use billiard.Prelude.Int.{ℤ}
use billiard.Process.Fork.{Popen}
use billiard.Process.{Process, World, member, add, discard, set, leave, enter}

-- A child whose end is not known is among the children, and its sentinel is open.
abbrev pub Open : Bool → Option ℤ → Option ℕ → Type 0
Open m (some c) s = Unit {0}
Open m none none = ⊥
Open m none (some fd) = m ≡ true

-- Without a Popen an object is not among the children.
abbrev pub Kept : Bool → Option Popen → Type 0
Kept m none = m ≡ false
Kept m (some q) = Open m q.returncode q.sentinel

abbrev pub known_of : Option Popen → Option ℤ
known_of none = none
known_of (some q) = q.returncode

-- A known exit code stays, unless the object is closed, and a closed object stays closed.
abbrev pub Lasting : Process → Process → Type 0
Lasting p r =
    (p.closed ≡ true → r.closed ≡ true)
    × ((c : ℤ) → known_of p.popen ≡ some c → (known_of r.popen ≡ some c) ⊎ (r.closed ≡ true))

abbrev pub Local : Bool → Process → Bool → Process → Type 0
Local m p n r = (Kept m p.popen → Kept n r.popen) × Lasting p r

pub Local-refl : (m : Bool) (p : Process) → Local m p m p
Local-refl m p = (λ k. k, (λ e. e, λ c e. inl e))

Local-trans : (m n o : Bool) (p r s : Process) → Local m p n r → Local n r o s → Local m p o s
Local-trans m n o p r s (f, (g, h)) (f', (g', h')) =
    (λ k. f' (f k), (λ e. g' (g e), λ c e. elim (h c e) [ inl x ↦ h' c x | inr y ↦ inr (g' y) ]))

pub record Reach (w v : World) : Type 0 where
  pub pid : v.pid ≡ w.pid
  pub current : v.current ≡ w.current
  pub each :
      (j : ℕ) → Local (member j w.children) (w.processes j) (member j v.children) (v.processes j)

pub Reach-refl : (w : World) → Reach w w
Reach-refl w = record {
  pid = refl;
  current = refl;
  each = λ j. Local-refl (member j w.children) (w.processes j);
}

pub Reach-trans : {w v u : World} → Reach w v → Reach v u → Reach w u
Reach-trans {w = w} {v = v} {u = u} r s = record {
  pid = s.pid ∙ r.pid;
  current = s.current ∙ r.current;
  each = λ j.
      Local-trans (member j w.children) (member j v.children) (member j u.children) (w.processes j)
        (v.processes j) (u.processes j) (r.each j) (s.each j);
}

pub member-discard_other :
    (i j : ℕ) (l : List ℕ) → (i == j) ≡ false → member j (discard i l) ≡ member j l
unfolding discard
member-discard_other i j [] h = refl
member-discard_other i j (k ∷ l) h = ground (arith, member-discard_other i j l h)

pub member-discard : (i : ℕ) (l : List ℕ) → member i (discard i l) ≡ false
unfolding discard
member-discard i [] = refl
member-discard i (k ∷ l) = ground (arith, member-discard i l)

member-add_other : (i j : ℕ) (l : List ℕ) → (i == j) ≡ false → member j (add i l) ≡ member j l
unfolding add
member-add_other i j l h =
    if_intro (λ (xs : List ℕ). member j xs ≡ member j l) (member i l) (λ e. refl)
      (λ e. ground (arith))

pub member-add : (i : ℕ) (l : List ℕ) → member i (add i l) ≡ true
unfolding add
member-add i l =
    if_intro (λ (xs : List ℕ). member i xs ≡ true) (member i l) (λ e. e) (λ e. ground (arith))

pub eq_of : (i j : ℕ) → (i == j) ≡ true → i ≡ j
eq_of i j h = ground arith

-- A change at one object, whose place among the children may change too.
changed :
    (i : ℕ) (p : Process) (l : List ℕ) (w : World)
    → Local (member i w.children) (w.processes i) (member i l) p
    → ((j : ℕ) → (i == j) ≡ false → member j l ≡ member j w.children)
    → Reach w (record w { processes = λ j. if i == j then p else w.processes j; children = l })
changed i p l w h others = record {
  pid = refl;
  current = refl;
  each = λ j.
      if_intro (λ r. Local (member j w.children) (w.processes j) (member j l) r) (i == j)
        (λ e.
          subst (λ k. Local (member k w.children) (w.processes k) (member k l) p) (eq_of i j e) h)
        (λ e.
          subst (λ m. Local (member j w.children) (w.processes j) m (w.processes j))
            (sym (others j e)) (Local-refl (member j w.children) (w.processes j)));
}

pub Reach-set :
    (i : ℕ) (p : Process) (w : World)
    → Local (member i w.children) (w.processes i) (member i w.children) p
    → Reach w (set i p w)
Reach-set i p w h = changed i p w.children w h (λ j e. refl)

pub Reach-leave :
    (i : ℕ) (p : Process) (w : World)
    → Local (member i w.children) (w.processes i) false p
    → Reach w (leave i (set i p w))
Reach-leave i p w h =
    changed i p (discard i w.children) w
      (subst (λ m. Local (member i w.children) (w.processes i) m p)
        (sym (member-discard i w.children)) h)
      (λ j e. member-discard_other i j w.children e)

pub Reach-enter :
    (i : ℕ) (p : Process) (w : World)
    → Local (member i w.children) (w.processes i) true p
    → Reach w (enter i (set i p w))
Reach-enter i p w h =
    changed i p (add i w.children) w
      (subst (λ m. Local (member i w.children) (w.processes i) m p) (sym (member-add i w.children))
        h)
      (λ j e. member-add_other i j w.children e)
