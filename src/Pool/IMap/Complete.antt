-- ===== src/Pool/IMap/Complete.antt =====
-- An ordered iterator becomes ready, leaves the cache and stops exactly when all has arrived.
use billiard.Prelude.{
  ℕ, suc, ◌+◌, ◌≡◌, refl, inl, inr, true, false, Option, none, some, List, [], ◌∷◌, ◌++◌, arith,
  ltb, Bool-cases, Option-cases, ◌∙◌, ap, zero, length,
}
use billiard.Prelude.Dict.{lookup, insert}
use billiard.Pool.IMap.{
  IMap, key, is_index, after, init, settle, drain, set_item, set_length, ack, attempt, attempt_from,
}
use billiard.Pool.IMap.Ordered.{
  Event, arrives, asks, totals, acks, taken, play, seen_after, upto, play-in_order,
}

-- The length that was announced last.
abbrev pub total_after : Option ℕ → List Event → Option ℕ
total_after n [] = n
total_after n (arrives i ∷ events) = total_after n events
total_after n (asks ∷ events) = total_after n events
total_after n (totals m ∷ events) = total_after (some m) events
total_after n (acks i pid ∷ events) = total_after n events

module _ {V : Type 0} where
  -- A job that has all its items is ready and no longer in the cache.
  abbrev Settled : IMap V → Type 0
  Settled s = is_index s.index s.length_ ≡ true → (s.is_ready ≡ true) × (s.cached ≡ false)

  settle-Settled :
      (s : IMap V) → Settled (after (settle s)) × ((after (settle s)).length_ ≡ s.length_)
  settle-Settled s = elim (Bool-cases (is_index s.index s.length_)) [
    | inl full ↦ rw full (elim (Bool-cases s.cached) [
      | inl listed ↦ rw listed (λ e. (refl, refl), refl)
      | inr gone ↦ rw gone (λ e. (refl, refl), refl)
    ])
    | inr open_ ↦ rw open_ (λ e. cc, refl)
  ]

  length-drain : (rounds : ℕ) (s : IMap V) → (drain rounds s).length_ ≡ s.length_
  unfolding drain
  length-drain zero s = refl
  length-drain (suc rounds) s = elim (Option-cases (lookup (suc s.index) s.unsorted)) [
    | inl absent ↦ rw (absent, drain) refl
    | inr (obj, e) ↦ rw (e, drain) (length-drain rounds _)
  ]

  set_item-Settled :
      (i : Option ℕ) (v : V) (s : IMap V)
      → Settled (after (set_item i v s)) × ((after (set_item i v s)).length_ ≡ s.length_)
  unfolding set_item
  set_item-Settled i v s = elim (Bool-cases (is_index s.index i)) [
    | inl here ↦ rw here (
        let (ok, same) = settle-Settled (
          drain (length s.unsorted)
            (record s { items = s.items ++ v ∷ []; index = s.index + 1 })) in
        (ok, same ∙ length-drain (length s.unsorted) _))
    | inr later ↦ rw later (settle-Settled (record s { unsorted = insert (key i) v s.unsorted }))
  ]

  attempt_from-Settled :
      (out items : List V) (s : IMap V)
      → Settled s
      → Settled (taken out (attempt_from items s)).1
        × ((taken out (attempt_from items s)).1.length_ ≡ s.length_)
  unfolding attempt_from
  attempt_from-Settled out (v ∷ rest) s h = (h, refl)
  attempt_from-Settled out [] s h = elim (Bool-cases (is_index s.index s.length_)) [
    | inl full ↦ rw full (λ e. (refl, (h full).1), refl)
    | inr open_ ↦ rw open_ (λ e. cc, refl)
  ]

  play-Settled :
      (r : ℕ → V) (out : List V) (s : IMap V) (events : List Event)
      → Settled s
      → Settled (play r (out, s) events).1
        × ((play r (out, s) events).1.length_ ≡ total_after s.length_ events)
  unfolding play attempt set_length ack
  play-Settled r out s [] h = (h, refl)
  play-Settled r out s (arrives i ∷ events) h =
      let (ok, same) = set_item-Settled (some i) (r i) s in
      let (fin, len) = play-Settled r out (after (set_item (some i) (r i) s)) events ok in
      (fin, len ∙ ap (λ n. total_after n events) same)
  play-Settled r out s (asks ∷ events) h =
      let (ok, same) = attempt_from-Settled out s.items s h in
      let (fin, len) =
        play-Settled r (taken out (attempt s)).0 (taken out (attempt s)).1 events ok in
      (fin, len ∙ ap (λ n. total_after n events) same)
  play-Settled r out s (totals n ∷ events) h =
      let (ok, same) = settle-Settled (record s { length_ = some n }) in
      let (fin, len) = play-Settled r out (after (set_length n s)) events ok in
      (fin, len ∙ ap (λ m. total_after m events) same)
  play-Settled r out s (acks i pid ∷ events) h = play-Settled r out (ack (some i) 0 pid s) events h

-- When the results of exactly the indices below n have arrived, in any order, and the announced
-- length is n: the iterator is ready, has left the cache, and what the caller has got and can still
-- get is exactly r 0, …, r (n - 1).
pub play_complete :
    {V : Type 0} (r : ℕ → V) (n : ℕ) (events : List Event)
    → ((j : ℕ) → seen_after (λ j. false) events j ≡ ltb j n)
    → total_after none events ≡ some n
    → let (out, s) = play r ([], init) events in
      (s.is_ready ≡ true) × (s.cached ≡ false) × (out ++ s.items ≡ upto r n)
unfolding init
play_complete r n events seen total =
    let (order, below, gap) = play-in_order r events in
    let s = (play r ([], init) events).1 in
    let (ready, length_) = play-Settled r [] init events (λ e. cc) in
    let all : s.index ≡ n = ground (arith, seen s.index, seen n, gap, below n) in
    let full : is_index s.index s.length_ ≡ true = rw (length_, total) (ground (arith, all)) in
    ((ready full).0, (ready full).1, rw (← all) order)
