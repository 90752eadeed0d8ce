-- ===== src/Process/Cleanup.antt =====
-- `_cleanup`: each child is asked once, and those that have ended leave the children. And `start`, which does
-- this first.
use billiard.Prelude.{
  ℕ, ◌≡◌, refl, sym, ap, subst, ◌∙◌, true, false, false≢true, Option, none, some, List, [], ◌∷◌,
  ◌==◌, if◌then◌else◌, if_intro, Bool-cases, ◌⊎◌, inl, inr, arith,
}
use billiard.Prelude.Int.{ℤ}
use billiard.Process.Fork
use billiard.Process.Fork.{Waits, Ended, value, assertion, Popen}
use billiard.Process.{
  Process, World, member, is_none, visited, visit, and_then, cleanup, listed, active_children,
  launched, launch, start_from, start,
}
use billiard.Process.Handle.{Polled, poll-Polled}
use billiard.Process.Reach.{
  known_of, Reach, Reach-refl, Reach-trans, Reach-enter, member-discard, member-discard_other,
  eq_of,
}
use billiard.Process.Methods.{popen-cases, visited-Reach, checked-Reach}

-- The object has no exit code yet, if it is among the children.
abbrev pub Quiet : ℕ → World → Type 0
Quiet j w = member j w.children ≡ true → known_of (w.processes j).popen ≡ none

pub record Visits (xs : List ℕ) (w v : World) : Type 0 where
  pub reach : Reach w v
  pub handles : (j : ℕ) → is_none (v.processes j).popen ≡ is_none (w.processes j).popen
  pub quiet : (j : ℕ) → (member j xs ≡ true) ⊎ Quiet j w → Quiet j v

abbrev AllVisits : List ℕ → World → Option World → Type 0
AllVisits xs w none = Unit {0}
AllVisits xs w (some v) = Visits xs w v

-- An object after the visit of one.
hit : (i : ℕ) (q : Popen) (r : Option ℤ × Popen) (w : World) → Polled q r → Quiet i (visited i r w)
hit i q (none, r) w p m =
    if_intro (λ (s : Process). known_of s.popen ≡ none) (i == i) (λ t. sym p.code)
      (λ f. absurd (ground arith))
hit i q (some c, r) w p m = absurd (false≢true (sym (member-discard i w.children) ∙ m))

miss :
    (i j : ℕ) (r : Option ℤ × Popen) (w : World)
    → (i == j) ≡ false
    → Quiet j w
    → Quiet j (visited i r w)
miss i j (none, r) w f h m =
    ap
      (λ b. known_of (if b then record (w.processes i) { popen = some r } else w.processes j).popen)
      f
    ∙ h m
miss i j (some c, r) w f h m =
    ap
      (λ b. known_of (if b then record (w.processes i) { popen = some r } else w.processes j).popen)
      f
    ∙ h (sym (member-discard_other i j w.children f) ∙ m)

same_handle :
    (i j : ℕ) (q r : Popen) (w : World)
    → (w.processes i).popen ≡ some q
    → is_none (if i == j then record (w.processes i) { popen = some r } else w.processes j).popen
      ≡ is_none (w.processes j).popen
same_handle i j q r w e =
    if_intro (λ (s : Process). is_none s.popen ≡ is_none (w.processes j).popen) (i == j)
      (λ t. sym (ap is_none e) ∙ ap (λ k. is_none (w.processes k).popen) (eq_of i j t)) (λ f. refl)

handle-visited :
    (i j : ℕ) (q : Popen) (r : Option ℤ × Popen) (w : World)
    → (w.processes i).popen ≡ some q
    → is_none ((visited i r w).processes j).popen ≡ is_none (w.processes j).popen
handle-visited i j q (none, r) w e = same_handle i j q r w e
handle-visited i j q (some c, r) w e = same_handle i j q r w e

first_or_rest :
    (i j : ℕ) (rest : List ℕ)
    → member j (i ∷ rest) ≡ true
    → (i ≡ j) ⊎ (((i == j) ≡ false) × (member j rest ≡ true))
first_or_rest i j rest =
    if_intro (λ b. b ≡ true → (i ≡ j) ⊎ (((i == j) ≡ false) × (member j rest ≡ true))) (i == j)
      (λ t m. inl (eq_of i j t)) (λ f m. inr (f, m))

visited-Visits :
    (i : ℕ) (q : Popen) (r : Option ℤ × Popen) (w : World)
    → (w.processes i).popen ≡ some q
    → Polled q r
    → Visits (i ∷ []) w (visited i r w)
visited-Visits i q r w e p = record {
  reach = visited-Reach i q r w e p;
  handles = λ j. handle-visited i j q r w e;
  quiet = λ j h. settled j h;
}
  where
    at_once : (j : ℕ) → i ≡ j → Quiet j (visited i r w)
    at_once j s = subst (λ k. Quiet k (visited i r w)) s (hit i q r w p)

    settled : (j : ℕ) → (member j (i ∷ []) ≡ true) ⊎ Quiet j w → Quiet j (visited i r w)
    settled j (inl m) = elim (first_or_rest i j [] m) [
      | inl s ↦ at_once j s
      | inr (f, n) ↦ absurd (false≢true n)
    ]
    settled j (inr h) = elim (Bool-cases (i == j)) [
      | inl t ↦ at_once j (eq_of i j t)
      | inr f ↦ miss i j r w f h
    ]

Visits-trans :
    (i : ℕ) (rest : List ℕ) (w v u : World)
    → Visits (i ∷ []) w v
    → Visits rest v u
    → Visits (i ∷ rest) w u
Visits-trans i rest w v u a b = record {
  reach = Reach-trans a.reach b.reach;
  handles = λ j. b.handles j ∙ a.handles j;
  quiet = λ j h. b.quiet j (onward j h);
}
  where
    once : (j : ℕ) → i ≡ j → member j (i ∷ []) ≡ true
    once j s = ground (arith, s)

    onward : (j : ℕ) → (member j (i ∷ rest) ≡ true) ⊎ Quiet j w → (member j rest ≡ true) ⊎ Quiet j v
    onward j (inl m) = elim (first_or_rest i j rest m) [
      | inl s ↦ inr (a.quiet j (inl (once j s)))
      | inr (f, n) ↦ inl n
    ]
    onward j (inr h) = inr (a.quiet j (inr h))

cleanup-AllVisits :
    (answers : ℕ → Waits) (xs : List ℕ) (w : World) → AllVisits xs w (cleanup answers xs w)
unfolding cleanup
cleanup-AllVisits answers [] w = record {
  reach = Reach-refl w;
  handles = λ j. refl;
  quiet = λ j h. none_left j h;
}
  where
    none_left : (j : ℕ) → (member j [] ≡ true) ⊎ Quiet j w → Quiet j w
    none_left j (inl m) = absurd (false≢true m)
    none_left j (inr h) = h
cleanup-AllVisits answers (i ∷ rest) w =
    popen-cases (w.processes i).popen
      (λ o. AllVisits (i ∷ rest) w (and_then (visit answers i o w) λ v. cleanup answers rest v))
      (λ e. tt)
      (λ q e.
        later (visited i (Fork.poll (answers i) q) w)
          (visited-Visits i q (Fork.poll (answers i) q) w e (poll-Polled (answers i) q))
          (cleanup answers rest (visited i (Fork.poll (answers i) q) w))
          (cleanup-AllVisits answers rest (visited i (Fork.poll (answers i) q) w)))
  where
    later :
        (v : World)
        → Visits (i ∷ []) w v
        → (o : Option World) → AllVisits rest v o
        → AllVisits (i ∷ rest) w o
    later v a none b = tt
    later v a (some u) b = Visits-trans i rest w v u a b

pub active_children-Reach :
    (answers : ℕ → Waits) (w : World) → Reach w (active_children answers w).1
unfolding active_children
active_children-Reach answers w =
    seen (cleanup answers w.children w) (cleanup-AllVisits answers w.children w)
  where
    seen : (o : Option World) → AllVisits w.children w o → Reach w (listed o w).1
    seen none a = Reach-refl w
    seen (some v) a = a.reach

launched-Reach :
    (i : ℕ) (child : Option (ℕ × ℕ)) (w : World)
    → (w.processes i).popen ≡ none
    → Reach w (launched i child w).1
launched-Reach i none w e = Reach-refl w
launched-Reach i (some (pid, fd)) w e =
    Reach-enter i
      (record (w.processes i) {
        popen = some (record { pid = pid; returncode = none; sentinel = some fd });
        sentinel = some fd;
      })
      w (λ k. refl, (λ c. c, λ c k. absurd (let z = sym (ap known_of e) ∙ k in cc)))

none_of : {A : Type 0} → (o : Option A) → is_none o ≡ true → o ≡ none
none_of none e = refl
none_of (some a) e = absurd (false≢true e)

pub start-Reach :
    (i : ℕ) (child : Option (ℕ × ℕ)) (answers : ℕ → Waits) (w : World)
    → Reach w (start i child answers w).1
unfolding start
start-Reach i child answers w =
    checked-Reach (w.processes i).closed w (start_from i child answers (w.processes i).popen w) (
      popen-cases (w.processes i).popen (λ o. Reach w (start_from i child answers o w).1)
        (λ e.
          if_intro (λ (r : Ended (Unit {0}) × World). Reach w r.1)
            ((w.processes i).parent_pid == w.pid)
            (λ t. cleaned e (cleanup answers w.children w) (cleanup-AllVisits answers w.children w))
            (λ t. Reach-refl w))
        (λ q e. Reach-refl w))
  where
    cleaned :
        (w.processes i).popen ≡ none
        → (o : Option World) → AllVisits w.children w o
        → Reach w (launch i child o w).1
    cleaned e none a = Reach-refl w
    cleaned e (some v) a =
        Reach-trans a.reach
          (launched-Reach i child v (none_of (v.processes i).popen (a.handles i ∙ ap is_none e)))

-- If each object in the list has a Popen there is no AttributeError.
pub cleanup-Visits :
    (answers : ℕ → Waits) (xs : List ℕ) (w : World)
    → ((j : ℕ) → member j xs ≡ true → is_none (w.processes j).popen ≡ false)
    → (v : World) × (cleanup answers xs w ≡ some v) × Visits xs w v
unfolding cleanup
cleanup-Visits answers xs w h =
    let (v, e) = goes xs w h in (v, e, subst (AllVisits xs w) e (cleanup-AllVisits answers xs w))
  where
    after : (i j : ℕ) (rest : List ℕ) → member j rest ≡ true → member j (i ∷ rest) ≡ true
    after i j rest m = ground (arith, m)

    goes :
        (xs : List ℕ) (w : World)
        → ((j : ℕ) → member j xs ≡ true → is_none (w.processes j).popen ≡ false)
        → (v : World) × (cleanup answers xs w ≡ some v)
    goes [] w h = (w, refl)
    goes (i ∷ rest) w h =
        popen-cases (w.processes i).popen
          (λ o.
            (v : World) × ((and_then (visit answers i o w) λ v. cleanup answers rest v) ≡ some v))
          (λ e. absurd (let z = sym (h i (ground arith)) ∙ ap is_none e in cc))
          (λ q e.
            goes rest (visited i (Fork.poll (answers i) q) w)
              (λ j m. handle-visited i j q (Fork.poll (answers i) q) w e ∙ h j (after i j rest m)))
