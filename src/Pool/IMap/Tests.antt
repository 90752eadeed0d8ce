-- ===== src/Pool/IMap/Tests.antt =====
-- Inputs for the iterators of `imap`.
use billiard.Prelude.{ℕ, ◌+◌, ◌<◌, ◌≡◌, refl, true, false, List, [], ◌∷◌, ◌++◌, ltb, arith}
use billiard.Prelude.Dict.{lookup, insert, erase}
use billiard.Pool.IMap.{init, set_item, set_length, ack, attempt}
use billiard.Pool.IMap.Ordered.{
  Event, arrives, asks, totals, acks, play, seen_after, upto, play-in_order,
}
use billiard.Pool.IMap.Complete.{play_complete}

abbrev lost : ℕ
lost = 99

abbrev tens : ℕ → ℕ
tens i = i + 10

abbrev shuffled : List Event
shuffled = arrives 2 ∷ asks ∷ arrives 0 ∷ acks 1 7 ∷ asks ∷ totals 3 ∷ arrives 1 ∷ []

play-shuffled : (play tens ([], init) shuffled).0 ≡ 10 ∷ []
unfolding play init set_item set_length ack attempt lookup insert erase
play-shuffled = refl

play-in_order_example :
    let (out, s) = play tens ([], init) shuffled in
    (out ++ s.items ≡ upto tens s.index)
    × ((j : ℕ) → j < s.index → seen_after (λ j. false) shuffled j ≡ true)
    × (seen_after (λ j. false) shuffled s.index ≡ false)
play-in_order_example = play-in_order tens shuffled

seen_shuffled : (j : ℕ) → seen_after (λ j. false) shuffled j ≡ ltb j 3
seen_shuffled j = ground arith

play_complete_example :
    let (out, s) = play tens ([], init) shuffled in
    (s.is_ready ≡ true) × (s.cached ≡ false) × (out ++ s.items ≡ 10 ∷ 11 ∷ 12 ∷ [])
play_complete_example = play_complete tens 3 shuffled seen_shuffled refl
