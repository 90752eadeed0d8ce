-- ===== src/Pool/IMap.antt =====
-- billiard/pool.py, `class IMapIterator` and `class IMapUnorderedIterator`: the results of
-- `Pool.imap` and `Pool.imap_unordered`, handed out one by one.
pub mod Ordered
pub mod Complete
mod Tests
use billiard.Prelude.{
  ℕ, zero, suc, ◌+◌, Bool, true, false, Option, none, some, List, [], ◌∷◌, ◌++◌, length, ◌==◌,
  if◌then◌else◌,
}
use billiard.Prelude.Dict.{Dict, lookup, insert, erase}

-- `V` is what a worker sends, a pair of a flag and a value. `cached` says whether the cache has the
-- entry of this job. The keys of `unsorted` are those of `key`.
pub record IMap (V : Type 0) : Type 0 where
  pub items : List V
  pub index : ℕ
  pub length_ : Option ℕ
  pub is_ready : Bool
  pub unsorted : Dict V
  pub worker_pids : List ℕ
  pub cached : Bool

-- A method returns, or its `del self._cache[self._job]` is a KeyError.
pub data Outcome (V : Type 0) : Type 0 where
  done : IMap V → Outcome V
  key_error : IMap V → Outcome V

-- A key of `_unsorted` is an index or None: None is 0, and the index i is i + 1.
abbrev pub key : Option ℕ → ℕ
key none = 0
key (some i) = suc i

abbrev pub is_index : ℕ → Option ℕ → Bool
is_index n none = false
is_index n (some i) = n == i

module _ {V : Type 0} where
  -- The state that an outcome leaves.
  abbrev pub after : Outcome V → IMap V
  after (done s) = s
  after (key_error s) = s

  -- `__init__`
  unfoldable pub init : IMap V
  init = record {
    items = [];
    index = 0;
    length_ = none;
    is_ready = false;
    unsorted = [];
    worker_pids = [];
    cached = true;
  }

  -- `while self._index in self._unsorted`: each round takes an entry out, so their number bounds the
  -- rounds.
  unfoldable pub drain : ℕ → IMap V → IMap V
  drain zero s = s
  drain (suc rounds) s = elim (lookup (key (some s.index)) s.unsorted) [
    | none ↦ s
    | some obj ↦ drain rounds (record s {
      items = s.items ++ obj ∷ [];
      index = s.index + 1;
      unsorted = erase (key (some s.index)) s.unsorted;
    })
  ]

  -- `if self._index == self._length` and what follows
  abbrev pub settle : IMap V → Outcome V
  settle s =
      if is_index s.index s.length_
      then (let s' : IMap V = record s { is_ready = true; cached = false } in
          if s.cached then done s' else key_error s')
      else done s

  -- `IMapIterator._set`; the index is None where the pool reports a lost worker.
  unfoldable pub set_item : Option ℕ → V → IMap V → Outcome V
  unfolding drain
  set_item i obj s =
      let s' = record s { items = s.items ++ obj ∷ []; index = s.index + 1 } in
      settle (
        if is_index s.index i
        then drain (length s.unsorted) s'
        else record s { unsorted = insert (key i) obj s.unsorted })

  -- `_set_length`
  unfoldable pub set_length : ℕ → IMap V → Outcome V
  set_length n s = settle (record s { length_ = some n })

  -- `_ack`
  unfoldable pub ack : Option ℕ → ℕ → ℕ → IMap V → IMap V
  ack i time pid s = record s { worker_pids = s.worker_pids ++ pid ∷ [] }

  -- `IMapUnorderedIterator._set`
  unfoldable pub set_unordered : Option ℕ → V → IMap V → Outcome V
  set_unordered i obj s = settle (record s { items = s.items ++ obj ∷ []; index = s.index + 1 })

-- How an attempt of `next` ends: with an item, with StopIteration, or with nothing yet.
pub data Next (V : Type 0) : Type 0 where
  item : V → IMap V → Next V
  stop : IMap V → Next V
  empty : IMap V → Next V

module _ {V : Type 0} where
  attempt_from : List V → IMap V → Next V
  attempt_from (obj ∷ rest) s = item obj (record s { items = rest })
  attempt_from [] s =
      if is_index s.index s.length_ then stop (record s { is_ready = true }) else empty s

  -- Each of the two attempts of `next`. Before the wait `empty` means to wait; after it, TimeoutError.
  unfoldable pub attempt : IMap V → Next V
  unfolding attempt_from
  attempt s = attempt_from s.items s
