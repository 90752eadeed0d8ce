-- ===== src/Connection/Stream/Tests.antt =====
-- Messages in pieces.
use billiard.Prelude.{ℕ, ◌≡◌, refl, none, some, List, [], ◌∷◌, arith}
use billiard.Connection.Header.{pack, unpack}
use billiard.Connection.Stream.{
  Write, wrote, done, Read, gives, raised, eof_error, end_in_message, send, send_bytes, recv_loop,
  recv, recv_bytes,
}
use billiard.Connection.Stream.RoundTrip.{send_all, recv_all, count, recv_all-send_all}

abbrev messages : List (List ℕ)
messages = (5 ∷ 6 ∷ []) ∷ [] ∷ []

abbrev writes : List Write
writes =
    wrote 3
    ∷ Write.eintr
    ∷ wrote 2
    ∷ wrote 9
    ∷ wrote 9
    ∷ wrote 9
    ∷ wrote 9
    ∷ wrote 9
    ∷ wrote 9
    ∷ wrote 9
    ∷ wrote 9
    ∷ []

abbrev reads : List Read
reads =
    gives 1
    ∷ Read.eintr
    ∷ gives 2
    ∷ gives 9
    ∷ gives 1
    ∷ gives 9
    ∷ gives 9
    ∷ gives 9
    ∷ gives 9
    ∷ gives 9
    ∷ gives 9
    ∷ []

frame_bytes :
    send_bytes writes (5 ∷ 6 ∷ [])
    ≡ some (
        done
          (0 ∷ 0 ∷ 0 ∷ 2 ∷ 5 ∷ 6 ∷ [])
          (wrote 9 ∷ wrote 9 ∷ wrote 9 ∷ wrote 9 ∷ wrote 9 ∷ wrote 9 ∷ wrote 9 ∷ []))
unfolding send_bytes send pack
frame_bytes = refl

-- The end of the file before a message, and within one.
eof_before : recv_bytes (gives 4 ∷ []) none [] ≡ raised eof_error
unfolding recv_bytes recv recv_loop
eof_before = refl

eof_within :
    recv_bytes (gives 4 ∷ gives 9 ∷ gives 9 ∷ []) none (0 ∷ 0 ∷ 0 ∷ 2 ∷ 5 ∷ [])
    ≡ raised end_in_message
unfolding recv_bytes recv recv_loop unpack
eof_within = refl

recv_all-send_all_example :
    (stream : List ℕ) × (left : List Write) × (send_all writes messages ≡ some (done stream left))
    × (recv_all (count messages) reads stream ≡ some (messages, []))
recv_all-send_all_example =
    recv_all-send_all writes reads messages (omega arith) (omega arith) (omega arith) (omega arith)
      (omega arith)
