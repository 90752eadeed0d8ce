-- ===== src/Pool/IMap/Ordered.antt =====
-- `imap` hands the results out in the order of the inputs, in whatever order the workers answer.
use mathlib.Core.List.{append_assoc}
use billiard.Prelude.{
  ℕ, zero, suc, ◌+◌, ◌≤◌, ◌<◌, ◌≡◌, refl, sym, ap, ◌∙◌, inl, inr, Bool, true, false, ◌||◌, Option,
  none, some, List, [], ◌∷◌, ◌++◌, length, arith, ◌==◌, if◌then◌else◌, Bool-cases, Option-cases,
}
use billiard.Prelude.Dict.{
  lookup, insert, erase, lookup-insert, lookup-erase, lookup-nil, length-erase_lt,
}
use billiard.Pool.IMap.{
  IMap, key, is_index, after, init, drain, settle, set_item, set_length, ack, Next, item, stop,
  empty, attempt, attempt_from,
}

-- r 0, …, r (n - 1)
abbrev pub upto {ℓ} : {V : Type ℓ} → (ℕ → V) → ℕ → List V
upto r zero = []
upto r (suc n) = upto r n ++ r n ∷ []

-- What happens to an iterator: the result of an index arrives, the caller asks for an item, the task
-- handler announces the length, a worker acknowledges a task.
pub data Event : Type 0 where
  arrives : ℕ → Event
  asks : Event
  totals : ℕ → Event
  acks : ℕ → ℕ → Event

-- The caller's items after an attempt, and the state.
abbrev pub taken : {V : Type 0} → List V → Next V → List V × IMap V
taken out (item v s) = (out ++ v ∷ [], s)
taken out (stop s) = (out, s)
taken out (empty s) = (out, s)

-- The result of index i is r i.
unfoldable pub play : {V : Type 0} → (ℕ → V) → List V × IMap V → List Event → List V × IMap V
play r (out, s) [] = (out, s)
play r (out, s) (arrives i ∷ events) = play r (out, after (set_item (some i) (r i) s)) events
play r (out, s) (asks ∷ events) = play r (taken out (attempt s)) events
play r (out, s) (totals n ∷ events) = play r (out, after (set_length n s)) events
play r (out, s) (acks i pid ∷ events) = play r (out, ack (some i) 0 pid s) events

abbrev add_seen : ℕ → (ℕ → Bool) → ℕ → Bool
add_seen i seen j = i == j || seen j

-- The indices that have arrived.
abbrev pub seen_after : (ℕ → Bool) → List Event → ℕ → Bool
seen_after seen [] = seen
seen_after seen (arrives i ∷ events) = seen_after (add_seen i seen) events
seen_after seen (asks ∷ events) = seen_after seen events
seen_after seen (totals n ∷ events) = seen_after seen events
seen_after seen (acks i pid ∷ events) = seen_after seen events

module _ {V : Type 0} (r : ℕ → V) where
  -- What holds while the indices of `seen` have arrived and the caller has got `out`; `_index` may
  -- still be behind.
  record Pre (seen : ℕ → Bool) (out : List V) (s : IMap V) : Type 0 where
    order : out ++ s.items ≡ upto r s.index
    below : (j : ℕ) → j < s.index → seen j ≡ true
    kept : (j : ℕ) → s.index ≤ j → lookup (suc j) s.unsorted ≡ (if seen j then some (r j) else none)

  -- One more item in order.
  deliver-Pre :
      (seen : ℕ → Bool) (out : List V) (s : IMap V)
      → Pre seen out s
      → seen s.index ≡ true
      → Pre seen out (record s {
        items = s.items ++ r s.index ∷ [];
        index = s.index + 1;
        unsorted = erase (key (some s.index)) s.unsorted;
      })
  deliver-Pre seen out s h here = record {
    order =
        let e : s.index + 1 ≡ suc s.index = omega arith in
        rw e (
          sym (append_assoc out s.items (r s.index ∷ []))
          ∙ ap (λ (l : List V). l ++ r s.index ∷ []) h.order);
    below = λ j lt. ground (arith, h.below j, here);
    kept = λ j le. ground (arith, h.kept j, lookup-erase (suc s.index) (suc j) s.unsorted);
  }

  drain-Pre :
      (rounds : ℕ) (seen : ℕ → Bool) (out : List V) (s : IMap V)
      → length s.unsorted ≤ rounds
      → Pre seen out s
      → Pre seen out (drain rounds s) × (seen (drain rounds s).index ≡ false)
  unfolding drain
  drain-Pre zero seen out s fits h =
      (h, ground (arith, h.kept s.index (omega arith), lookup-nil (suc s.index) s.unsorted fits))
  drain-Pre (suc rounds) seen out s fits h = elim (Option-cases (lookup (suc s.index) s.unsorted)) [
    | inl absent ↦ rw (absent, drain) (h, ground (arith, h.kept s.index (omega arith)))
    | inr (obj, e) ↦
        let here : seen s.index ≡ true = ground (arith, h.kept s.index (omega arith)) in
        let same : obj ≡ r s.index = ground (arith, h.kept s.index (omega arith)) in
        rw (e, same, drain)
          (drain-Pre rounds seen out _
            (omega (arith, length-erase_lt (suc s.index) obj s.unsorted e))
            (deliver-Pre seen out s h here))
  ]

  -- What holds after every event: nothing that could be handed out waits in `unsorted`.
  pub record Inv (seen : ℕ → Bool) (out : List V) (s : IMap V) : Type 0 where
    pre : Pre seen out s
    pub gap : seen s.index ≡ false

  -- The other fields do not matter.
  repack :
      (seen : ℕ → Bool) (out : List V) (s : IMap V) (n : Option ℕ) (f c : Bool) (w : List ℕ)
      → Inv seen out s
      → Inv seen out (record s { length_ = n; is_ready = f; worker_pids = w; cached = c })
  repack seen out s n f c w h = record {
    pre = record { order = h.pre.order; below = h.pre.below; kept = h.pre.kept };
    gap = h.gap;
  }

  settle-Inv :
      (seen : ℕ → Bool) (out : List V) (s : IMap V)
      → Inv seen out s
      → Inv seen out (after (settle s))
  settle-Inv seen out s h = elim (Bool-cases (is_index s.index s.length_)) [
    | inl full ↦ elim (Bool-cases s.cached) [
      | inl listed ↦ rw (full, listed) (repack seen out s s.length_ true false s.worker_pids h)
      | inr gone ↦ rw (full, gone) (repack seen out s s.length_ true false s.worker_pids h)
    ]
    | inr open_ ↦ rw open_ h
  ]

  arrive-Pre :
      (i : ℕ) (seen : ℕ → Bool) (out : List V) (s : IMap V)
      → s.index ≡ i
      → Pre seen out s
      → Pre (add_seen i seen) out (record s { items = s.items ++ r i ∷ []; index = s.index + 1 })
  arrive-Pre i seen out s here h = record {
    order =
        let e : s.index + 1 ≡ suc i = omega arith in
        rw e (
          sym (append_assoc out s.items (r i ∷ []))
          ∙ ap (λ (l : List V). l ++ r i ∷ []) (h.order ∙ ap (upto r) here));
    below = λ j lt. ground (arith, h.below j);
    kept = λ j le. ground (arith, h.kept j);
  }

  store-Pre :
      (i : ℕ) (seen : ℕ → Bool) (out : List V) (s : IMap V)
      → Pre seen out s
      → Pre (add_seen i seen) out (record s { unsorted = insert (key (some i)) (r i) s.unsorted })
  store-Pre i seen out s h = record {
    order = h.order;
    below = λ j lt. ground (arith, h.below j);
    kept = λ j le. ground (arith, h.kept j, lookup-insert (suc i) (suc j) (r i) s.unsorted);
  }

  set_item-Inv :
      (i : ℕ) (seen : ℕ → Bool) (out : List V) (s : IMap V)
      → Inv seen out s
      → Inv (add_seen i seen) out (after (set_item (some i) (r i) s))
  unfolding set_item
  set_item-Inv i seen out s h = elim (Bool-cases (s.index == i)) [
    | inl here ↦
        let (pre, gap) =
          drain-Pre (length s.unsorted) (add_seen i seen) out _ (omega arith)
            (arrive-Pre i seen out s (ground arith) h.pre) in
        rw here (settle-Inv (add_seen i seen) out _ (record { pre = pre; gap = gap }))
    | inr later ↦ rw later (
        settle-Inv (add_seen i seen) out _
          (record { pre = store-Pre i seen out s h.pre; gap = ground (arith, h.gap) }))
  ]

  attempt_from-Inv :
      (seen : ℕ → Bool) (out items : List V) (s : IMap V)
      → s.items ≡ items
      → Inv seen out s
      → Inv seen (taken out (attempt_from items s)).0 (taken out (attempt_from items s)).1
  unfolding attempt_from
  attempt_from-Inv seen out (v ∷ rest) s e h = record {
    pre = record {
      order = append_assoc out (v ∷ []) rest ∙ ap (◌++◌ out) (sym e) ∙ h.pre.order;
      below = h.pre.below;
      kept = h.pre.kept;
    };
    gap = h.gap;
  }
  attempt_from-Inv seen out [] s e h = elim (Bool-cases (is_index s.index s.length_)) [
    | inl full ↦ rw full (repack seen out s s.length_ true s.cached s.worker_pids h)
    | inr open_ ↦ rw open_ h
  ]

  play-Inv :
      (seen : ℕ → Bool) (out : List V) (s : IMap V) (events : List Event)
      → Inv seen out s
      → Inv (seen_after seen events) (play r (out, s) events).0 (play r (out, s) events).1
  unfolding play attempt set_length ack
  play-Inv seen out s [] h = h
  play-Inv seen out s (arrives i ∷ events) h =
      play-Inv (add_seen i seen) out (after (set_item (some i) (r i) s)) events
        (set_item-Inv i seen out s h)
  play-Inv seen out s (asks ∷ events) h =
      play-Inv seen (taken out (attempt s)).0 (taken out (attempt s)).1 events
        (attempt_from-Inv seen out s.items s refl h)
  play-Inv seen out s (totals n ∷ events) h = play-Inv seen out (after (set_length n s)) events (
      settle-Inv seen out (record s { length_ = some n })
        (repack seen out s (some n) s.is_ready s.cached s.worker_pids h))
  play-Inv seen out s (acks i pid ∷ events) h =
      play-Inv seen out (ack (some i) 0 pid s) events
        (repack seen out s s.length_ s.is_ready s.cached (s.worker_pids ++ pid ∷ []) h)

  init-Inv : Inv (λ j. false) [] init
  unfolding init lookup
  init-Inv = record {
    pre = record { order = refl; below = λ j lt. absurd (omega arith); kept = λ j le. refl };
    gap = refl;
  }

-- Whatever the order in which the results r i of indices i arrive, also with repetitions, and
-- whenever the caller asks, the length is announced or an acknowledgement comes: what the caller has
-- got followed by what is ready for it is r 0, r 1, …, r (index - 1), where every index below
-- `index` has arrived and `index` itself has not, so nothing that is in turn is held back.
pub play-in_order :
    {V : Type 0} (r : ℕ → V) (events : List Event)
    → let (out, s) = play r ([], init) events in
      (out ++ s.items ≡ upto r s.index)
      × ((j : ℕ) → j < s.index → seen_after (λ j. false) events j ≡ true)
      × (seen_after (λ j. false) events s.index ≡ false)
play-in_order r events =
    let h = play-Inv r (λ j. false) [] init events (init-Inv r) in (h.pre.order, h.pre.below, h.gap)
