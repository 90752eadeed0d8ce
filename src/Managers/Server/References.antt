-- ===== src/Managers/Server/References.antt =====
-- The two dicts of the server against the references that its clients hold.
use billiard.Prelude.{
  ℕ, ◌≡◌, ◌≢◌, refl, sym, false, Option, none, some, List, [], ◌∷◌, ◌==◌, if_intro,
}
use billiard.Prelude.Dict.{lookup, contains, is_some}
use billiard.Managers.Server.{
  Shared, Entry, placeholder, shared, World, init, incref, decref, create,
}
use billiard.Managers.Server.Dispatch.{
  Methods, Called, no_attribute, raises, gives, typeid_of, elem, fallback, fallback_reply,
  after_value, after_call, serve_entry, serve,
}
use billiard.Managers.Server.Books.{
  Op, creates, increfs, decrefs, serves, Books, given, taken, answered, answered_pair, count_entry,
  positive, eq_of,
}
use billiard.Managers.Server.Counts.{
  Holds, add_ref-Holds, drop_ref-Holds, create-Holds, reply-Holds,
}

module _ {Obj : Type 0} (world : World Obj) (methods : Methods Obj) where
  fallback-Holds :
      (o : Option Obj) (b : Books Obj)
      → Holds world b
      → Holds world (answered b.server (fallback_reply o) b)
  fallback-Holds none b a = a
  fallback-Holds (some v) b a = a

  value-Holds :
      (t : Option ℕ) (v : Obj) (b : Books Obj)
      → ((x : Obj) → world.id_of x ≢ 0)
      → Holds world b
      → Holds world (answered_pair (after_value world t v b.server) b)
  unfolding after_value
  value-Holds none v b nz a = a
  value-Holds (some t) v b nz a =
      reply-Holds world (create world t (v ∷ []) false b.server) b
        (create-Holds world t (v ∷ []) false b nz a)

  call-Holds :
      (method : ℕ) (e : Shared Obj) (c : Called Obj) (b : Books Obj)
      → ((x : Obj) → world.id_of x ≢ 0)
      → Holds world b
      → Holds world (answered_pair (after_call world methods method e c b.server) b)
  unfolding after_call
  call-Holds method e no_attribute b nz a = fallback-Holds (fallback methods method e.obj) b a
  call-Holds method e raises b nz a = a
  call-Holds method e (gives v) b nz a = value-Holds (typeid_of e.method_to_typeid method) v b nz a

  entry-Holds :
      (method : ℕ) (o : Option (Entry Obj)) (b : Books Obj)
      → ((x : Obj) → world.id_of x ≢ 0)
      → Holds world b
      → Holds world (answered_pair (serve_entry world methods method o b.server) b)
  unfolding serve_entry
  entry-Holds method none b nz a = a
  entry-Holds method (some placeholder) b nz a = a
  entry-Holds method (some (shared e)) b nz a =
      if_intro (λ p. Holds world (answered_pair p b)) (elem method e.exposed)
        (λ t. call-Holds method e (methods.call e.obj method) b nz a)
        (λ f. fallback-Holds (fallback methods method e.obj) b a)

  unfoldable pub step : Op Obj → Books Obj → Books Obj
  unfolding create incref decref serve
  step (creates typeid args has_kwds) b = given (create world typeid args has_kwds b.server) b
  step (increfs k) b = given (incref k b.server) b
  step (decrefs k) b = taken (decref k b.server) b
  step (serves ident method) b = answered_pair (serve world methods ident method b.server) b

  unfoldable pub run : List (Op Obj) → Books Obj → Books Obj
  unfolding step
  run [] b = b
  run (op ∷ ops) b = run ops (step op b)

  run-Holds :
      (ops : List (Op Obj)) (b : Books Obj)
      → ((x : Obj) → world.id_of x ≢ 0)
      → Holds world b
      → Holds world (run ops b)
  unfolding run step incref decref serve
  run-Holds [] b nz a = a
  run-Holds (creates typeid args has_kwds ∷ ops) b nz a =
      run-Holds ops _ nz (create-Holds world typeid args has_kwds b nz a)
  run-Holds (increfs k ∷ ops) b nz a =
      run-Holds ops _ nz (add_ref-Holds world k (lookup k b.server.id_to_refcount) b refl a)
  run-Holds (decrefs k ∷ ops) b nz a =
      run-Holds ops _ nz (drop_ref-Holds world k (lookup k b.server.id_to_refcount) b refl a)
  run-Holds (serves ident method ∷ ops) b nz a =
      run-Holds ops _ nz (entry-Holds method (lookup ident b.server.id_to_obj) b nz a)

  init-Holds : Holds world (record { server = init; held = λ k. 0 })
  unfolding init lookup
  init-Holds = record {
    counted = λ k. refl;
    present = λ k nz.
        if_intro (λ (o : Option (Entry Obj)). is_some o ≡ false) (0 == k)
          (λ t. absurd (nz (sym (eq_of 0 k t)))) (λ f. refl);
    none_of_server = refl;
    server_entry = refl;
    own_id = λ k e.
        if_intro (λ (o : Option (Entry Obj)). o ≡ some (shared e) → world.id_of e.obj ≡ k) (0 == k)
          (λ t q. absurd (cc)) (λ f q. absurd (cc));
  }

  -- Where `id` is never 0: after any sequence of create, incref, decref and requests of proxies, with
  -- whatever the callables and the methods do, the count of each ident is the number of the references
  -- that were answered (by create, incref or a '#PROXY') less those that decref took back; there is no
  -- count exactly if that is 0; the server has an object under an ident other than its own exactly if it
  -- is above 0; and the object stored under an ident has that ident.
  pub run-references :
      (ops : List (Op Obj)) (k : ℕ)
      → ((x : Obj) → world.id_of x ≢ 0)
      → let b = run ops (record { server = init; held = λ j. 0 }) in
        (lookup k b.server.id_to_refcount ≡ count_entry (b.held k))
        × (k ≢ 0 → contains k b.server.id_to_obj ≡ positive (b.held k))
        × ((e : Shared Obj) → lookup k b.server.id_to_obj ≡ some (shared e) → world.id_of e.obj ≡ k)
  run-references ops k nz =
      let a = run-Holds ops _ nz init-Holds in (a.counted k, a.present k, a.own_id k)
