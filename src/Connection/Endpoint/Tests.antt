-- ===== src/Connection/Endpoint/Tests.antt =====
-- A connection on concrete streams.
use billiard.Prelude.{
  ◌≡◌, refl, inl, inr, true, false, none, some, List, [], ◌∷◌, ◌++◌, arith, if◌then◌else◌, ltb,
}
use billiard.Prelude.Int.{pos}
use billiard.Connection.Stream.{Read, gives, got}
use billiard.Connection.Stream.Writes.{frame}
use billiard.Connection.Endpoint.{
  Endpoint, bad_message_length, bad_message_length_state, size_too_large, handle_closed, write_only,
  part, recv,
}
use billiard.Connection.Endpoint.Limits.{after_limit, recv-limit}

abbrev pipe : Endpoint
pipe = record { handle = some 5; readable = true; writable = false }

abbrev reads : List Read
reads = gives 4 ∷ gives 4 ∷ gives 4 ∷ gives 4 ∷ gives 4 ∷ gives 4 ∷ gives 4 ∷ []

part_middle : part (1 ∷ 2 ∷ 3 ∷ 4 ∷ []) (pos 1) (some (pos 2)) ≡ inl (2 ∷ 3 ∷ [])
unfolding part
part_middle = refl

part_over : part (1 ∷ 2 ∷ []) (pos 1) (some (pos 2)) ≡ inr size_too_large
unfolding part
part_over = refl

recv-limit_example :
    (left : List Read) × (recv pipe reads (some (pos 2)) (frame (1 ∷ 2 ∷ 3 ∷ []) ++ 9 ∷ []) ≡ (
      after_limit pipe 2 3,
      (if ltb 2 3 then inr bad_message_length else inl (got (1 ∷ 2 ∷ 3 ∷ []) (9 ∷ []) left)),
    ))
    × ((recv (bad_message_length_state pipe) reads none []).1
        ≡ inr (if pipe.writable then write_only else handle_closed))
    × ((bad_message_length_state pipe).writable ≡ pipe.writable)
    × ((bad_message_length_state pipe).handle ≡ (if pipe.writable then some 5 else none))
recv-limit_example =
    recv-limit pipe 5 reads reads 2 (1 ∷ 2 ∷ 3 ∷ []) (9 ∷ []) [] refl refl (omega arith)
      (omega arith) (omega arith)
