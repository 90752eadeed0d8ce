-- ===== src/Managers/Server/Counts.antt =====
-- What create, incref and decref do to the references that clients hold.
use billiard.Prelude.{
  ℕ, zero, suc, ◌+◌, ◌-◌, ◌<◌, ◌≡◌, ◌≢◌, refl, sym, ap, subst, ◌∙◌, Bool, true, false≢true, Option,
  none, some, List, ◌==◌, if◌then◌else◌, if_intro, arith,
}
use billiard.Prelude.Dict.{lookup, insert, contains, is_some, lookup-insert, lookup-erase}
use billiard.Managers.Server.{
  Shared, Entry, placeholder, shared, Server, Registered, World, Result, raised, ok, add_ref,
  add_ref_to, drop_ref, construct, shared_as, store, share, create_as, create,
}
use billiard.Managers.Server.Dispatch.{create_reply}
use billiard.Managers.Server.Books.{
  Books, given, taken, answered_pair, count_entry, positive, Agree, Agree-put, put_self,
  lookup-insert_self, none_held, some_held, positive_of, pred_of, if_twice,
}

module _ {Obj : Type 0} (world : World Obj) where
  abbrev pub Holds : Books Obj → Type 0
  Holds b =
      Agree world.id_of (λ k. lookup k b.server.id_to_obj) (λ k. lookup k b.server.id_to_refcount)
        b.held

  held_ident : (k n : ℕ) (b : Books Obj) → Holds b → b.held k ≡ n → 0 < n → k ≢ 0
  held_ident k n b a e p z =
      let q = sym (ap b.held z) ∙ e in let o = a.none_of_server in omega (arith, p, q, o)

  known :
      (k n : ℕ) (b : Books Obj)
      → Holds b
      → b.held k ≡ n
      → 0 < n
      → is_some (lookup k b.server.id_to_obj) ≡ true
  known k n b a e p = a.present k (held_ident k n b a e p) ∙ ap positive e ∙ positive_of n p

  pub add_ref-Holds :
      (k : ℕ) (o : Option ℕ) (b : Books Obj)
      → lookup k b.server.id_to_refcount ≡ o
      → Holds b
      → Holds (given (add_ref k o b.server) b)
  add_ref-Holds k none b e a = a
  add_ref-Holds k (some n) b e a =
      let (h, p) = some_held (b.held k) n (sym e ∙ a.counted k) in
      Agree-put world.id_of k (suc (b.held k)) (lookup k b.server.id_to_obj) (some (n + 1)) a
        (held_ident k n b a h p) (ap some (omega (arith, h))) (known k n b a h p) (a.own_id k)
        (put_self k (λ j. lookup j b.server.id_to_obj))
        (λ j. lookup-insert k j (n + 1) b.server.id_to_refcount)

  pub drop_ref-Holds :
      (k : ℕ) (o : Option ℕ) (b : Books Obj)
      → lookup k b.server.id_to_refcount ≡ o
      → Holds b
      → Holds (taken (drop_ref k o b.server) b)
  drop_ref-Holds k none b e a = a
  drop_ref-Holds k (some zero) b e a = a
  drop_ref-Holds k (some (suc zero)) b e a =
      let (h, p) = some_held (b.held k) 1 (sym e ∙ a.counted k) in
      if_intro (λ r. Holds (taken r b)) (contains k b.server.id_to_obj)
        (λ t.
          Agree-put world.id_of k (b.held k - 1) none none a (held_ident k 1 b a h p)
            (ap (λ m. count_entry (m - 1)) (sym h)) (ap (λ m. positive (m - 1)) (sym h))
            (λ s q. absurd (cc)) (λ j. lookup-erase k j b.server.id_to_obj)
            (λ j.
              lookup-erase k j (insert k 0 b.server.id_to_refcount)
              ∙ ap (λ x. if k == j then none else x) (lookup-insert k j 0 b.server.id_to_refcount)
              ∙ if_twice (k == j) none (some 0) (lookup j b.server.id_to_refcount)))
        (λ f. absurd (false≢true (sym f ∙ known k 1 b a h p)))
  drop_ref-Holds k (some (suc (suc n))) b e a =
      let (h, p) = some_held (b.held k) (suc (suc n)) (sym e ∙ a.counted k) in
      Agree-put world.id_of k (b.held k - 1) (lookup k b.server.id_to_obj) (some (suc n)) a
        (held_ident k (suc (suc n)) b a h p) (sym (ap count_entry (pred_of (b.held k) n h)))
        (known k (suc (suc n)) b a h p ∙ sym (ap positive (pred_of (b.held k) n h))) (a.own_id k)
        (put_self k (λ j. lookup j b.server.id_to_obj))
        (λ j. lookup-insert k j (suc n) b.server.id_to_refcount)

  abbrev ident_or : ℕ → Option (Entry Obj) → ℕ
  ident_or k none = k
  ident_or k (some placeholder) = k
  ident_or k (some (shared e)) = world.id_of e.obj

  abbrev stored : ℕ → Shared Obj → Books Obj → Server Obj
  stored k e b = record b.server { id_to_obj = insert k (shared e) b.server.id_to_obj }

  abbrev stored_new : ℕ → Shared Obj → Books Obj → Server Obj
  stored_new k e b = record {
    id_to_obj = insert k (shared e) b.server.id_to_obj;
    id_to_refcount = insert k 0 b.server.id_to_refcount;
  }

  store-new :
      (k : ℕ) (e : Shared Obj) (b : Books Obj)
      → lookup k b.server.id_to_refcount ≡ none
      → add_ref_to k (store k (shared e) b.server)
        ≡ ok k (record {
          id_to_obj = insert k (shared e) b.server.id_to_obj;
          id_to_refcount = insert k 1 (insert k 0 b.server.id_to_refcount);
        })
  store-new k e b q =
      ap (λ o. add_ref_to k (if is_some o then stored k e b else stored_new k e b)) q
      ∙ ap (λ o. add_ref k o (stored_new k e b)) (lookup-insert_self k 0 b.server.id_to_refcount)

  store-known :
      (k n : ℕ) (e : Shared Obj) (b : Books Obj)
      → lookup k b.server.id_to_refcount ≡ some n
      → add_ref_to k (store k (shared e) b.server)
        ≡ ok k (record {
          id_to_obj = insert k (shared e) b.server.id_to_obj;
          id_to_refcount = insert k (n + 1) b.server.id_to_refcount;
        })
  store-known k n e b q =
      ap (λ o. add_ref_to k (if is_some o then stored k e b else stored_new k e b)) q
      ∙ ap (λ o. add_ref k o (stored k e b)) q

  store-Holds :
      (k : ℕ) (e : Shared Obj) (o : Option ℕ) (b : Books Obj)
      → k ≢ 0
      → world.id_of e.obj ≡ k
      → lookup k b.server.id_to_refcount ≡ o
      → Holds b
      → Holds (given (add_ref_to k (store k (shared e) b.server)) b)
  store-Holds k e none b nz own q a =
      let h = none_held (b.held k) (sym q ∙ a.counted k) in
      subst (λ r. Holds (given r b)) (sym (store-new k e b q))
        (Agree-put world.id_of k (suc (b.held k)) (some (shared e)) (some 1) a nz
          (ap (λ m. some (suc m)) (sym h)) refl (λ s x. sym (ap (ident_or k) x) ∙ own)
          (λ j. lookup-insert k j (shared e) b.server.id_to_obj)
          (λ j.
            lookup-insert k j 1 (insert k 0 b.server.id_to_refcount)
            ∙ ap (λ x. if k == j then some 1 else x) (lookup-insert k j 0 b.server.id_to_refcount)
            ∙ if_twice (k == j) (some 1) (some 0) (lookup j b.server.id_to_refcount)))
  store-Holds k e (some n) b nz own q a =
      let (h, p) = some_held (b.held k) n (sym q ∙ a.counted k) in
      subst (λ r. Holds (given r b)) (sym (store-known k n e b q))
        (Agree-put world.id_of k (suc (b.held k)) (some (shared e)) (some (n + 1)) a nz
          (ap some (omega (arith, h))) refl (λ s x. sym (ap (ident_or k) x) ∙ own)
          (λ j. lookup-insert k j (shared e) b.server.id_to_obj)
          (λ j. lookup-insert k j (n + 1) b.server.id_to_refcount))

  share-Holds :
      (r : Registered Obj) (o : Option Obj) (b : Books Obj)
      → ((x : Obj) → world.id_of x ≢ 0)
      → Holds b
      → Holds (given (share world r o b.server) b)
  share-Holds r none b nz a = a
  share-Holds r (some obj) b nz a =
      store-Holds (world.id_of obj) (shared_as world r obj)
        (lookup (world.id_of obj) b.server.id_to_refcount) b (nz obj) refl refl a

  create_as-Holds :
      (r : Option (Registered Obj)) (args : List Obj) (has_kwds : Bool) (b : Books Obj)
      → ((x : Obj) → world.id_of x ≢ 0)
      → Holds b
      → Holds (given (create_as world r args has_kwds b.server) b)
  create_as-Holds none args has_kwds b nz a = a
  create_as-Holds (some r) args has_kwds b nz a =
      share-Holds r (construct r.callable args has_kwds) b nz a

  pub create-Holds :
      (typeid : ℕ) (args : List Obj) (has_kwds : Bool) (b : Books Obj)
      → ((x : Obj) → world.id_of x ≢ 0)
      → Holds b
      → Holds (given (create world typeid args has_kwds b.server) b)
  unfolding create
  create-Holds typeid args has_kwds b nz a =
      create_as-Holds (world.registry typeid) args has_kwds b nz a

  pub reply-Holds :
      (r : Result Obj ℕ) (b : Books Obj)
      → Holds (given r b)
      → Holds (answered_pair (create_reply r) b)
  reply-Holds (raised s) b a = a
  reply-Holds (ok k s) b a = a
