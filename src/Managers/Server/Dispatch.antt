-- ===== src/Managers/Server/Dispatch.antt =====
-- `Server.serve_client`: one request of a proxy, and what is sent back.
use billiard.Prelude.{ℕ, Bool, false, Option, none, some, List, [], ◌∷◌, ◌==◌, if◌then◌else◌, ◌||◌}
use billiard.Prelude.Dict.{Dict, lookup}
use billiard.Managers.Server.{
  Shared, Entry, placeholder, shared, Server, World, Result, raised, ok, create,
}

-- How a method call ends: there is no such attribute, it raises, or it gives an object.
pub data Called (Obj : Type 0) : Type 0 where
  no_attribute raises : Called Obj
  gives : Obj → Called Obj

-- '#RETURN', '#ERROR', '#PROXY' with the ident of its token, and '#TRACEBACK'.
pub data Reply (Obj : Type 0) : Type 0 where
  returns : Obj → Reply Obj
  error traceback : Reply Obj
  proxy : ℕ → Reply Obj

-- The classes of the objects: their methods, and `str` and `repr` of them.
pub record Methods (Obj : Type 0) : Type 0 where
  pub call : Obj → ℕ → Called Obj
  pub str : Obj → Option Obj
  pub repr : Obj → Option Obj

-- The names '__str__', '__repr__' and '#GETVALUE'.
abbrev pub str_name : ℕ
str_name = 1

abbrev pub repr_name : ℕ
repr_name = 2

abbrev pub getvalue_name : ℕ
getvalue_name = 3

abbrev pub elem : ℕ → List ℕ → Bool
elem name [] = false
elem name (n ∷ ns) = name == n || elem name ns

abbrev pub typeid_of : Option (Dict ℕ) → ℕ → Option ℕ
typeid_of none method = none
typeid_of (some d) method = lookup method d

module _ {Obj : Type 0} where
  abbrev pub fallback_reply : Option Obj → Reply Obj
  fallback_reply none = traceback
  fallback_reply (some v) = returns v

  abbrev pub create_reply : Result Obj ℕ → Server Obj × Reply Obj
  create_reply (raised s) = (s, traceback)
  create_reply (ok ident s) = (s, proxy ident)

  -- A name that is not in `fallback_mapping` is a KeyError.
  unfoldable pub fallback : Methods Obj → ℕ → Obj → Option Obj
  fallback methods method obj =
      if method == str_name
      then methods.str obj
      else if method == repr_name
      then methods.repr obj
      else if method == getvalue_name
      then some obj
      else none

  -- The result is shared under its own type of proxy; what `create` raises is taken to be no AttributeError.
  unfoldable pub after_value : World Obj → Option ℕ → Obj → Server Obj → Server Obj × Reply Obj
  unfolding create
  after_value world none v s = (s, returns v)
  after_value world (some typeid) v s = create_reply (create world typeid (v ∷ []) false s)

module _ {Obj : Type 0} (world : World Obj) (methods : Methods Obj) where
  unfoldable pub after_call : ℕ → Shared Obj → Called Obj → Server Obj → Server Obj × Reply Obj
  unfolding fallback after_value
  after_call method entry no_attribute s = (s, fallback_reply (fallback methods method entry.obj))
  after_call method entry raises s = (s, error)
  after_call method entry (gives v) s =
      after_value world (typeid_of entry.method_to_typeid method) v s

  -- A method that is not exposed is an AttributeError, as one that is missing.
  unfoldable pub serve_entry : ℕ → Option (Entry Obj) → Server Obj → Server Obj × Reply Obj
  unfolding after_call fallback
  serve_entry method none s = (s, traceback)
  serve_entry method (some placeholder) s = (s, traceback)
  serve_entry method (some (shared entry)) s =
      if elem method entry.exposed
      then after_call method entry (methods.call entry.obj method) s
      else (s, fallback_reply (fallback methods method entry.obj))

  unfoldable pub serve : ℕ → ℕ → Server Obj → Server Obj × Reply Obj
  unfolding serve_entry
  serve ident method s = serve_entry method (lookup ident s.id_to_obj) s
