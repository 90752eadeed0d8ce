-- ===== src/Managers/Server.antt =====
-- billiard/managers.py, `class Server`: the shared objects with their reference counts, and the requests of
-- a proxy. Objects are references, names of types and methods are numbers, and an ident is the number that
-- `id` gives, where 0 is the ident '0' of the server itself.
pub mod Dispatch
mod Books
mod Counts
mod References
mod Tests
use billiard.Prelude.{
  ℕ, zero, suc, ◌+◌, ◌-◌, Bool, true, false, Option, none, some, List, [], ◌∷◌, ◌++◌, ◌==◌,
  if◌then◌else◌, not,
}
use billiard.Prelude.Dict.{Dict, lookup, insert, erase, contains}

pub record Shared (Obj : Type 0) : Type 0 where
  pub obj : Obj
  pub exposed : List ℕ
  pub method_to_typeid : Option (Dict ℕ)

-- A value of `id_to_obj`: the pair under '0', or an object.
pub data Entry (Obj : Type 0) : Type 0 where
  placeholder : Entry Obj
  shared : Shared Obj → Entry Obj

pub record Server (Obj : Type 0) : Type 0 where
  pub id_to_obj : Dict (Entry Obj)
  pub id_to_refcount : Dict ℕ

-- An entry of the registry; the callable takes the positional arguments, and whether there are others,
-- and none is an exception.
pub record Registered (Obj : Type 0) : Type 0 where
  pub callable : Option (List Obj → Bool → Option Obj)
  pub exposed : Option (List ℕ)
  pub method_to_typeid : Option (Dict ℕ)

-- What is not in the file: the registry, `id` and `public_methods`.
pub record World (Obj : Type 0) : Type 0 where
  pub registry : ℕ → Option (Registered Obj)
  pub id_of : Obj → ℕ
  pub public_methods : Obj → List ℕ

-- An exception with the state that it leaves, or a value with the next state.
pub data Result (Obj V : Type 0) : Type 0 where
  raised : Server Obj → Result Obj V
  ok : V → Server Obj → Result Obj V

abbrev pub keys : {V : Type 0} → Dict V → List ℕ
keys [] = []
keys ((k, v) ∷ d) = k ∷ keys d

-- `__init__`
unfoldable pub init : {Obj : Type 0} → Server Obj
init = record { id_to_obj = (0, placeholder) ∷ []; id_to_refcount = [] }

abbrev pub or_else : {V : Type 0} → Option V → V → V
or_else none v = v
or_else (some w) v = w

abbrev pub more_methods : Option (Dict ℕ) → List ℕ
more_methods none = []
more_methods (some d) = keys d

module _ {Obj : Type 0} where
  abbrev pub add_ref : ℕ → Option ℕ → Server Obj → Result Obj ℕ
  add_ref ident none s = raised s
  add_ref ident (some n) s =
      ok ident (record s { id_to_refcount = insert ident (n + 1) s.id_to_refcount })

  abbrev pub add_ref_to : ℕ → Server Obj → Result Obj ℕ
  add_ref_to ident s = add_ref ident (lookup ident s.id_to_refcount) s

  unfoldable pub incref : ℕ → Server Obj → Result Obj ℕ
  incref ident s = add_ref_to ident s

  -- `del self.id_to_obj[ident], self.id_to_refcount[ident]`, for a count of 0.
  abbrev pub dispose : ℕ → Server Obj → Result Obj ℕ
  dispose ident s =
      if contains ident s.id_to_obj
      then ok ident (record s {
        id_to_obj = erase ident s.id_to_obj;
        id_to_refcount = erase ident s.id_to_refcount;
      })
      else raised s

  abbrev pub drop_ref : ℕ → Option ℕ → Server Obj → Result Obj ℕ
  drop_ref ident none s = raised s
  drop_ref ident (some zero) s = raised s
  drop_ref ident (some (suc zero)) s =
      dispose ident (record s { id_to_refcount = insert ident 0 s.id_to_refcount })
  drop_ref ident (some (suc (suc n))) s =
      ok ident (record s { id_to_refcount = insert ident (suc n) s.id_to_refcount })

  unfoldable pub decref : ℕ → Server Obj → Result Obj ℕ
  decref ident s = drop_ref ident (lookup ident s.id_to_refcount) s

  -- The object of `create`, or none where the lookup, the assertion or the callable raises.
  abbrev pub construct : Option (List Obj → Bool → Option Obj) → List Obj → Bool → Option Obj
  construct (some callable) args has_kwds = callable args has_kwds
  construct none [] has_kwds = none
  construct none (obj ∷ []) has_kwds = if has_kwds then none else some obj
  construct none (obj ∷ other ∷ rest) has_kwds = none

  abbrev pub with_count : ℕ → Server Obj → Server Obj
  with_count ident s =
      if contains ident s.id_to_refcount
      then s
      else record s { id_to_refcount = insert ident 0 s.id_to_refcount }

  abbrev pub shared_as : World Obj → Registered Obj → Obj → Shared Obj
  shared_as world r obj = record {
    obj = obj;
    exposed = or_else r.exposed (world.public_methods obj) ++ more_methods r.method_to_typeid;
    method_to_typeid = r.method_to_typeid;
  }

  abbrev pub store : ℕ → Entry Obj → Server Obj → Server Obj
  store ident entry s = with_count ident (record s { id_to_obj = insert ident entry s.id_to_obj })

  -- `create` from the new object on.
  abbrev pub share : World Obj → Registered Obj → Option Obj → Server Obj → Result Obj ℕ
  share world r none s = raised s
  share world r (some obj) s =
      add_ref_to (world.id_of obj) (store (world.id_of obj) (shared (shared_as world r obj)) s)

  abbrev pub create_as :
      World Obj → Option (Registered Obj) → List Obj → Bool → Server Obj → Result Obj ℕ
  create_as world none args has_kwds s = raised s
  create_as world (some r) args has_kwds s = share world r (construct r.callable args has_kwds) s

  unfoldable pub create : World Obj → ℕ → List Obj → Bool → Server Obj → Result Obj ℕ
  create world typeid args has_kwds s = create_as world (world.registry typeid) args has_kwds s
