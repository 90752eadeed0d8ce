-- ===== src/Managers/Server/Tests.antt =====
-- A server whose objects are numbers, with an id above them.
use billiard.Prelude.{
  ℕ, ◌+◌, ◌≡◌, ◌≢◌, refl, false, none, some, List, [], ◌∷◌, ◌==◌, if◌then◌else◌, arith,
}
use billiard.Prelude.Dict.{lookup, insert, erase, contains}
use billiard.Managers.Server.{Shared, shared, Registered, World, init, incref, decref, create}
use billiard.Managers.Server.Dispatch.{Methods, gives, serve, serve_entry, after_call, after_value}
use billiard.Managers.Server.Books.{Op, creates, increfs, decrefs, serves, count_entry, positive}
use billiard.Managers.Server.References.{step, run, run-references}

-- The results of method 5 are shared again.
abbrev number : Registered ℕ
number = record { callable = none; exposed = some (5 ∷ []); method_to_typeid = some ((5, 1) ∷ []) }

abbrev world : World ℕ
world = record {
  registry = λ typeid. if typeid == 1 then some number else none;
  id_of = λ x. x + 1;
  public_methods = λ x. [];
}

abbrev methods : Methods ℕ
methods = record { call = λ x method. gives (x + 2); str = λ x. none; repr = λ x. some x }

abbrev ops : List (Op ℕ)
ops =
    creates 1 (7 ∷ []) false
    ∷ serves 8 5
    ∷ increfs 10
    ∷ decrefs 8
    ∷ decrefs 8
    ∷ creates 2 [] false
    ∷ []

-- One reference to the result of the method, and one more.
run-held : (run world methods ops (record { server = init; held = λ j. 0 })).held 10 ≡ 2
unfolding run step create incref decref serve serve_entry after_call after_value init lookup insert
    erase
run-held = refl

ids_positive : (x : ℕ) → x + 1 ≢ 0
ids_positive x e = omega (arith, e)

abbrev ten : ℕ
ten = 10

run-references_example :
    let b = run world methods ops (record { server = init; held = λ j. 0 }) in
    (lookup ten b.server.id_to_refcount ≡ count_entry (b.held ten))
    × (ten ≢ 0 → contains ten b.server.id_to_obj ≡ positive (b.held ten))
    × ((e : Shared ℕ) → lookup ten b.server.id_to_obj ≡ some (shared e) → e.obj + 1 ≡ ten)
run-references_example = run-references world methods ops ten ids_positive
