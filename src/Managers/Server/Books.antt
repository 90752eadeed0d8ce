-- ===== src/Managers/Server/Books.antt =====
-- The references that the clients of a server hold, and what agrees with them.
use billiard.Prelude.{
  ℕ, zero, suc, ◌-◌, ◌<◌, ◌≡◌, ◌≢◌, refl, sym, ap, ◌∙◌, Bool, true, false, Option, none, some, List,
  ◌==◌, if◌then◌else◌, if_intro, arith,
}
use billiard.Prelude.Dict.{Dict, lookup, insert, is_some, lookup-insert}
use billiard.Managers.Server.{Shared, Entry, placeholder, shared, Server, Result, raised, ok}
use billiard.Managers.Server.Dispatch.{Reply, returns, error, traceback, proxy}

-- The requests that touch the counts.
pub data Op (Obj : Type 0) : Type 0 where
  creates : ℕ → List Obj → Bool → Op Obj
  increfs decrefs : ℕ → Op Obj
  serves : ℕ → ℕ → Op Obj

-- The server, and how many references to each ident were answered and not given back.
pub record Books (Obj : Type 0) : Type 0 where
  pub server : Server Obj
  pub held : ℕ → ℕ

abbrev pub put : {A : Type 0} → ℕ → A → (ℕ → A) → ℕ → A
put k v f j = if k == j then v else f j

abbrev pub count_entry : ℕ → Option ℕ
count_entry zero = none
count_entry (suc n) = some (suc n)

abbrev pub positive : ℕ → Bool
positive zero = false
positive (suc n) = true

module _ {Obj : Type 0} where
  abbrev pub given : Result Obj ℕ → Books Obj → Books Obj
  given (raised s) b = record b { server = s }
  given (ok k s) b = record { server = s; held = put k (suc (b.held k)) b.held }

  abbrev pub taken : Result Obj ℕ → Books Obj → Books Obj
  taken (raised s) b = record b { server = s }
  taken (ok k s) b = record { server = s; held = put k (b.held k - 1) b.held }

  abbrev pub answered : Server Obj → Reply Obj → Books Obj → Books Obj
  answered s (proxy k) b = record { server = s; held = put k (suc (b.held k)) b.held }
  answered s (returns v) b = record b { server = s }
  answered s error b = record b { server = s }
  answered s traceback b = record b { server = s }

  abbrev pub answered_pair : Server Obj × Reply Obj → Books Obj → Books Obj
  answered_pair (s, r) b = answered s r b

  pub record Agree (id_of : Obj → ℕ) (objs : ℕ → Option (Entry Obj)) (counts : ℕ → Option ℕ)
      (held : ℕ → ℕ) : Type 0 where
    pub counted : (k : ℕ) → counts k ≡ count_entry (held k)
    pub present : (k : ℕ) → k ≢ 0 → is_some (objs k) ≡ positive (held k)
    pub none_of_server : held 0 ≡ 0
    pub server_entry : objs 0 ≡ some placeholder
    pub own_id : (k : ℕ) (e : Shared Obj) → objs k ≡ some (shared e) → id_of e.obj ≡ k

pub eq_of : (k j : ℕ) → (k == j) ≡ true → k ≡ j
eq_of k j h = ground arith

self_eq : (k : ℕ) → (k == k) ≡ true
self_eq k = ground arith

pub put_self : {A : Type 0} (k : ℕ) (f : ℕ → A) (j : ℕ) → f j ≡ put k (f k) f j
put_self k f j = if_intro (λ x. f j ≡ x) (k == j) (λ t. ap f (sym (eq_of k j t))) (λ n. refl)

pub lookup-insert_self :
    {V : Type 0} (k : ℕ) (v : V) (d : Dict V) → lookup k (insert k v d) ≡ some v
lookup-insert_self k v d =
    lookup-insert k k v d ∙ ap (λ b. if b then some v else lookup k d) (self_eq k)

module _ {Obj : Type 0} (id_of : Obj → ℕ) where
  -- One ident gets another entry and another count.
  pub Agree-put :
      {objs objs' : ℕ → Option (Entry Obj)} {counts counts' : ℕ → Option ℕ} {held : ℕ → ℕ} (k h : ℕ)
      (o : Option (Entry Obj)) (c : Option ℕ)
      → Agree id_of objs counts held
      → k ≢ 0
      → c ≡ count_entry h
      → is_some o ≡ positive h
      → ((e : Shared Obj) → o ≡ some (shared e) → id_of e.obj ≡ k)
      → ((j : ℕ) → objs' j ≡ put k o objs j)
      → ((j : ℕ) → counts' j ≡ put k c counts j)
      → Agree id_of objs' counts' (put k h held)
  Agree-put {objs = objs} {counts = counts} {held = held} k h o c a nz ce oe own os cs = record {
    counted = λ j. cs j ∙ counted_at (k == j) j;
    present = λ j n. ap is_some (os j) ∙ present_at (k == j) j n;
    none_of_server =
        if_intro (λ n. n ≡ 0) (k == 0) (λ t. absurd (nz (eq_of k 0 t))) (λ f. a.none_of_server);
    server_entry =
        os 0
        ∙ if_intro (λ x. x ≡ some placeholder) (k == 0) (λ t. absurd (nz (eq_of k 0 t)))
            (λ f. a.server_entry);
    own_id = λ j e q.
        if_intro (λ x. x ≡ some (shared e) → id_of e.obj ≡ j) (k == j)
          (λ t x. own e x ∙ eq_of k j t) (λ f x. a.own_id j e x) (sym (os j) ∙ q);
  }
    where
      counted_at :
          (b : Bool) (j : ℕ) → (if b then c else counts j) ≡ count_entry (if b then h else held j)
      counted_at true j = ce
      counted_at false j = a.counted j

      present_at :
          (b : Bool) (j : ℕ)
          → j ≢ 0
          → is_some (if b then o else objs j) ≡ positive (if b then h else held j)
      present_at true j n = oe
      present_at false j n = a.present j n

pub none_held : (h : ℕ) → none ≡ count_entry h → h ≡ 0
none_held zero e = refl
none_held (suc h) e = absurd (cc)

pub some_held : (h n : ℕ) → some n ≡ count_entry h → (h ≡ n) × (0 < n)
some_held zero n e = absurd (cc)
some_held (suc h) n e = let q = same e in (sym q, omega (arith, q))
  where
    same : some n ≡ some (suc h) → n ≡ suc h
    same f = cc

pub positive_of : (n : ℕ) → 0 < n → positive n ≡ true
positive_of zero p = absurd (omega (arith, p))
positive_of (suc n) p = refl

pub pred_of : (h n : ℕ) → h ≡ suc (suc n) → h - 1 ≡ suc n
pred_of h n e = omega (arith, e)

pub if_twice {ℓ} :
    {A : Type ℓ} (b : Bool) (x y z : A)
    → (if b then x else if b then y else z) ≡ (if b then x else z)
if_twice true x y z = refl
if_twice false x y z = refl
