-- ===== src/Connection/Challenge/Tests.antt =====
-- The handshake with a toy digest.
use billiard.Prelude.{
  ℕ, ◌≤◌, length-take, length-append, ◌≡◌, refl, some, none, List, [], ◌∷◌, ◌++◌, take, replicate,
  length, arith,
}
use billiard.Connection.Challenge.{
  connected, unanswered, accept, client, alone, run, deliver_challenge, answer_challenge,
}
use billiard.Connection.Challenge.Handshake.{outcome, run-accept}

-- The first bytes of the key and of the message.
abbrev toy_hmac : List ℕ → List ℕ → List ℕ
toy_hmac key message = take 16 key ++ take 16 message

short_take : (n : ℕ) (xs : List ℕ) → length (take n xs) ≤ n
short_take n xs = omega (arith, length-take n xs)

short_toy : (key message : List ℕ) → length (toy_hmac key message) ≤ 256
short_toy key message =
    omega (
      arith,
      length-append (take 16 key) (take 16 message),
      short_take 16 key,
      short_take 16 message,
    )

run-accept_example :
    run
      (accept toy_hmac (some (1 ∷ [])) (replicate 20 7))
      []
      (client toy_hmac (some (2 ∷ [])) (replicate 20 8))
      []
    ≡ outcome toy_hmac (1 ∷ []) (2 ∷ []) (replicate 20 7) (replicate 20 8)
run-accept_example =
    run-accept toy_hmac (1 ∷ []) (2 ∷ []) (replicate 20 7) (replicate 20 8) short_toy refl refl

-- The same key on both sides.
run_same :
    run
      (accept toy_hmac (some (1 ∷ [])) (replicate 20 7))
      []
      (client toy_hmac (some (1 ∷ [])) (replicate 20 8))
      []
    ≡ (connected, connected)
unfolding run alone accept client deliver_challenge answer_challenge
run_same = refl

run_no_key :
    run (accept toy_hmac (some (1 ∷ [])) (replicate 20 7)) [] (client toy_hmac none []) []
    ≡ (unanswered, connected)
unfolding run alone accept client deliver_challenge answer_challenge
run_no_key = refl
