-- ===== src/Connection/Challenge/Handshake.antt =====
-- How the handshake of a listener and a client ends.
use billiard.Prelude.{
  ℕ, ◌≤◌, ◌≡◌, refl, Bool, true, false, some, List, [], ◌∷◌, ◌++◌, length, ltb, if◌then◌else◌, ◌&&◌,
  arith,
}
use billiard.Connection.Challenge.{
  bytes_eq, challenge_prefix, Ending, connected, authentication_error, unanswered,
  deliver_challenge, answer_challenge, accept, client, alone, run,
}

-- Each side accepts the digest of the other.
abbrev pub agree : (List ℕ → List ℕ → List ℕ) → List ℕ → List ℕ → List ℕ → List ℕ → Bool
agree hmac key key' message message' =
    bytes_eq (hmac key' message) (hmac key message)
    && bytes_eq (hmac key message') (hmac key' message')

short : (m : List ℕ) → length m ≤ 256 → ltb 256 (length m) ≡ false
short m h = ground arith

abbrev pub is_empty : List ℕ → Bool
is_empty [] = true
is_empty (b ∷ bs) = false

-- How the two sides end.
abbrev pub outcome :
    (List ℕ → List ℕ → List ℕ) → List ℕ → List ℕ → List ℕ → List ℕ → Ending × Ending
outcome hmac key key' message message' =
    if is_empty key
    then (connected, unanswered)
    else if agree hmac key key' message message'
    then (connected, connected)
    else (authentication_error, authentication_error)

-- A listener and a client that both have a key, over digests of at most 256 bytes and random messages of
-- 20: if the key of the listener is not empty, both are connected where each gets the digest that it
-- computes itself, and otherwise both end with AuthenticationError. If the key of the listener is
-- empty, also where the client has the same, the listener takes the connection at once, and the
-- client waits for a challenge that does not come.
pub run-accept :
    (hmac : List ℕ → List ℕ → List ℕ) (key key' message message' : List ℕ)
    → ((a b : List ℕ) → length (hmac a b) ≤ 256)
    → length message ≡ 20
    → length message' ≡ 20
    → run (accept hmac (some key) message) [] (client hmac (some key') message') []
      ≡ outcome hmac key key' message message'
unfolding run alone accept client deliver_challenge answer_challenge
run-accept hmac [] key' message message' size len len' = refl
run-accept hmac (k ∷ key) key' message message' size len len' = ground (
  arith,
  short (challenge_prefix ++ message) (omega arith),
  short (challenge_prefix ++ message') (omega arith),
  short (hmac key' message) (size key' message),
  short (hmac (k ∷ key) message') (size (k ∷ key) message'),
)
