-- ===== src/Queues/Balance.antt =====
-- Where the objects of a queue are, and how each step moves them.
use billiard.Prelude.{
  ℕ, ◌+◌, ◌-◌, true, false, Option, none, some, List, [], ◌∷◌, ◌++◌, map, length, length-append,
  ltb, ◌==◌, ==_iff, ◌≡◌, refl, sym, ap, ◌∙◌, arith,
}
use billiard.Queues.{Fault}
use billiard.Queues.History.{Fate, sent, lost, objects}

pub append_assoc : {A : Type 0} (xs ys zs : List A) → (xs ++ ys) ++ zs ≡ xs ++ (ys ++ zs)
append_assoc [] ys zs = refl
append_assoc (x ∷ xs) ys zs = ap (λ l. x ∷ l) (append_assoc xs ys zs)

pub objects-append :
    {A : Type 0} (os : List (Option A)) (x : A) → objects (os ++ some x ∷ []) ≡ objects os ++ x ∷ []
objects-append [] x = refl
objects-append (none ∷ os) x = objects-append os x
objects-append (some y ∷ os) x = ap (λ l. y ∷ l) (objects-append os x)

pub objects-sentinel : {A : Type 0} (os : List (Option A)) → objects (os ++ none ∷ []) ≡ objects os
objects-sentinel [] = refl
objects-sentinel (none ∷ os) = objects-sentinel os
objects-sentinel (some y ∷ os) = ap (λ l. y ∷ l) (objects-sentinel os)

-- The objects that the feeder took, those of them that it sent, and the others.
abbrev pub firsts : {A : Type 0} → List (A × Fate) → List A
firsts [] = []
firsts ((x, f) ∷ fates) = x ∷ firsts fates

abbrev pub sent_of : {A : Type 0} → List (A × Fate) → List A
sent_of [] = []
sent_of ((x, sent) ∷ fates) = x ∷ sent_of fates
sent_of ((x, lost e) ∷ fates) = sent_of fates

abbrev pub lost_of : {A : Type 0} → List (A × Fate) → List A
lost_of [] = []
lost_of ((x, sent) ∷ fates) = lost_of fates
lost_of ((x, lost e) ∷ fates) = x ∷ lost_of fates

firsts-append :
    {A : Type 0} (fates : List (A × Fate)) (x : A) (f : Fate) (objs : List A)
    → firsts (fates ++ (x, f) ∷ []) ++ objs ≡ firsts fates ++ x ∷ objs
firsts-append [] x f objs = refl
firsts-append ((y, g) ∷ fates) x f objs = ap (λ l. y ∷ l) (firsts-append fates x f objs)

sent_of-sent :
    {A : Type 0} (fates : List (A × Fate)) (x : A)
    → sent_of (fates ++ (x, sent) ∷ []) ≡ sent_of fates ++ x ∷ []
sent_of-sent [] x = refl
sent_of-sent ((y, sent) ∷ fates) x = ap (λ l. y ∷ l) (sent_of-sent fates x)
sent_of-sent ((y, lost e) ∷ fates) x = sent_of-sent fates x

sent_of-lost :
    {A : Type 0} (fates : List (A × Fate)) (x : A) (fault : Fault)
    → sent_of (fates ++ (x, lost fault) ∷ []) ≡ sent_of fates
sent_of-lost [] x fault = refl
sent_of-lost ((y, sent) ∷ fates) x fault = ap (λ l. y ∷ l) (sent_of-lost fates x fault)
sent_of-lost ((y, lost e) ∷ fates) x fault = sent_of-lost fates x fault

lost_of-sent :
    {A : Type 0} (fates : List (A × Fate)) (x : A)
    → lost_of (fates ++ (x, sent) ∷ []) ≡ lost_of fates
lost_of-sent [] x = refl
lost_of-sent ((y, sent) ∷ fates) x = lost_of-sent fates x
lost_of-sent ((y, lost e) ∷ fates) x = ap (λ l. y ∷ l) (lost_of-sent fates x)

lost_of-lost :
    {A : Type 0} (fates : List (A × Fate)) (x : A) (fault : Fault)
    → length (lost_of (fates ++ (x, lost fault) ∷ [])) ≡ length (lost_of fates) + 1
lost_of-lost [] x fault = refl
lost_of-lost ((y, sent) ∷ fates) x fault = lost_of-lost fates x fault
lost_of-lost ((y, lost e) ∷ fates) x fault = omega (arith, lost_of-lost fates x fault)

module _ {A B : Type 0} (loads : B → A) where
  map-append : (bs cs : List B) → map loads (bs ++ cs) ≡ map loads bs ++ map loads cs
  map-append [] cs = refl
  map-append (b ∷ bs) cs = ap (λ l. loads b ∷ l) (map-append bs cs)

  -- Where the accepted objects are, and the slots that they take.
  pub record Balance (size slots : ℕ) (accepted given : List A) (fates : List (A × Fate))
      (objs : List A) (pipe : List B) : Type 0 where
    pub taken : accepted ≡ firsts fates ++ objs
    pub order : given ++ map loads pipe ≡ sent_of fates
    pub room : slots + (length pipe + (length (lost_of fates) + length objs)) ≡ size

  pub Balance-put :
      {size slots : ℕ} {accepted given objs : List A} {fates : List (A × Fate)} {pipe : List B}
      (x : A)
      → (slots == 0) ≡ false
      → Balance size slots accepted given fates objs pipe
      → Balance size (slots - 1) (accepted ++ x ∷ []) given fates (objs ++ x ∷ []) pipe
  Balance-put {slots = slots} {objs = objs} {fates = fates} x z h = record {
    taken = ap (λ l. l ++ x ∷ []) h.taken ∙ append_assoc (firsts fates) objs (x ∷ []);
    order = h.order;
    room =
        let r = h.room in
        let l = length-append objs (x ∷ []) in ground (arith, ==_iff slots 0, r, l);
  }

  pub Balance-send :
      {size slots : ℕ} {accepted given objs : List A} {fates : List (A × Fate)} {pipe : List B}
      (x : A) (b : B)
      → loads b ≡ x
      → Balance size slots accepted given fates (x ∷ objs) pipe
      → Balance size slots accepted given (fates ++ (x, sent) ∷ []) objs (pipe ++ b ∷ [])
  Balance-send {given = given} {objs = objs} {fates = fates} {pipe = pipe} x b e h = record {
    taken = h.taken ∙ sym (firsts-append fates x sent objs);
    order =
        ap (λ l. given ++ l) (map-append pipe (b ∷ []))
        ∙ sym (append_assoc given (map loads pipe) (loads b ∷ []))
        ∙ ap (λ l. l ++ loads b ∷ []) h.order
        ∙ ap (λ y. sent_of fates ++ y ∷ []) e
        ∙ sym (sent_of-sent fates x);
    room =
        let r = h.room in
        let l = length-append pipe (b ∷ []) in
        let m = ap length (lost_of-sent fates x) in omega (arith, r, l, m);
  }

  pub Balance-lose :
      {size slots : ℕ} {accepted given objs : List A} {fates : List (A × Fate)} {pipe : List B}
      (x : A) (fault : Fault)
      → Balance size slots accepted given fates (x ∷ objs) pipe
      → Balance size slots accepted given (fates ++ (x, lost fault) ∷ []) objs pipe
  Balance-lose {objs = objs} {fates = fates} x fault h = record {
    taken = h.taken ∙ sym (firsts-append fates x (lost fault) objs);
    order = h.order ∙ sym (sent_of-lost fates x fault);
    room = let r = h.room in let m = lost_of-lost fates x fault in omega (arith, r, m);
  }

  pub Balance-get :
      {size slots : ℕ} {accepted given objs : List A} {fates : List (A × Fate)} {pipe : List B}
      (b : B)
      → Balance size slots accepted given fates objs (b ∷ pipe)
      → Balance size (slots + 1) accepted (given ++ loads b ∷ []) fates objs pipe
  Balance-get {given = given} {pipe = pipe} b h = record {
    taken = h.taken;
    order = append_assoc given (loads b ∷ []) (map loads pipe) ∙ h.order;
    room = let r = h.room in omega (arith, r);
  }

  pub Balance-room :
      {size slots : ℕ} {accepted given objs : List A} {fates : List (A × Fate)} {pipe : List B}
      (b : B)
      → Balance size slots accepted given fates objs (b ∷ pipe)
      → ltb slots size ≡ true
  Balance-room b h = let r = h.room in ground (arith, r)
