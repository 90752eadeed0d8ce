-- ===== src/Connection/Challenge.antt =====
-- `deliver_challenge` and `answer_challenge`, as `Listener.accept` and `Client` use them. `hmac` of the
-- standard library is a parameter, and the random message of a challenge is an argument.
mod Handshake
mod Tests
use billiard.Prelude.{
  ℕ, Bool, true, false, Option, none, some, List, [], ◌∷◌, ◌++◌, length, drop, take, ltb, ◌==◌,
  if◌then◌else◌, ◌&&◌,
}

abbrev pub bytes_eq : List ℕ → List ℕ → Bool
bytes_eq [] [] = true
bytes_eq [] (b ∷ bs) = false
bytes_eq (a ∷ as_) [] = false
bytes_eq (a ∷ as_) (b ∷ bs) = a == b && bytes_eq as_ bs

-- `#CHALLENGE#`, `#WELCOME#` and `#FAILURE#`
abbrev pub challenge_prefix : List ℕ
challenge_prefix = b'#' ∷ b'C' ∷ b'H' ∷ b'A' ∷ b'L' ∷ b'L' ∷ b'E' ∷ b'N' ∷ b'G' ∷ b'E' ∷ b'#' ∷ []

abbrev pub welcome : List ℕ
welcome = b'#' ∷ b'W' ∷ b'E' ∷ b'L' ∷ b'C' ∷ b'O' ∷ b'M' ∷ b'E' ∷ b'#' ∷ []

abbrev pub failure : List ℕ
failure = b'#' ∷ b'F' ∷ b'A' ∷ b'I' ∷ b'L' ∷ b'U' ∷ b'R' ∷ b'E' ∷ b'#' ∷ []

pub data Ending : Type 0 where
  connected authentication_error assertion_error : Ending
  -- "bad message length", and a wait for a message that the other side, which is through, does not send
  too_long unanswered : Ending
  -- both sides wait for the other
  deadlocked : Ending

-- What one side does: send a message, or wait for one.
pub data Talk : Type 0 where
  sends : List ℕ → Talk → Talk
  recvs : (List ℕ → Talk) → Talk
  ends : Ending → Talk

-- `recv_bytes(256)`
abbrev pub recv_bytes : (List ℕ → Talk) → Talk
recv_bytes k = recvs (λ m. if ltb 256 (length m) then ends too_long else k m)

module _ (hmac : List ℕ → List ℕ → List ℕ) where
  unfoldable pub deliver_challenge : List ℕ → List ℕ → Talk → Talk
  deliver_challenge authkey message next = sends (challenge_prefix ++ message) (
      recv_bytes λ response.
        if bytes_eq response (hmac authkey message)
        then sends welcome next
        else sends failure (ends authentication_error))

  unfoldable pub answer_challenge : List ℕ → Talk → Talk
  answer_challenge authkey next = recv_bytes λ message.
      if bytes_eq (take (length challenge_prefix) message) challenge_prefix
      then sends (hmac authkey (drop (length challenge_prefix) message)) (
          recv_bytes
            λ response. if bytes_eq response welcome then next else ends authentication_error)
      else ends assertion_error

  -- `Listener.accept` after the connection is there; `if self._authkey`: an empty key counts as none.
  unfoldable pub accept : Option (List ℕ) → List ℕ → Talk
  unfolding deliver_challenge answer_challenge
  accept none message = ends connected
  accept (some []) message = ends connected
  accept (some (k ∷ key)) message =
      deliver_challenge (k ∷ key) message (answer_challenge (k ∷ key) (ends connected))

  -- `Client` after the connection is there; `if authkey is not None`.
  unfoldable pub client : Option (List ℕ) → List ℕ → Talk
  unfolding deliver_challenge answer_challenge
  client none message = ends connected
  client (some key) message = answer_challenge key (deliver_challenge key message (ends connected))

-- A side whose partner has ended, with the messages that are on the way to it.
unfoldable pub alone : Talk → List (List ℕ) → Ending
alone (sends m t) waiting = alone t waiting
alone (recvs f) [] = unanswered
alone (recvs f) (m ∷ waiting) = alone (f m) waiting
alone (ends e) waiting = e

-- Two sides, each with the messages that are on the way to it.
unfoldable pub run : Talk → List (List ℕ) → Talk → List (List ℕ) → Ending × Ending
unfolding alone
run (sends m t) to_it other to_other = run t to_it other (to_other ++ m ∷ [])
run (ends e) to_it other to_other = (e, alone other to_other)
run (recvs f) (m ∷ to_it) other to_other = run (f m) to_it other to_other
run (recvs f) [] (sends m other) to_other = run (f m) [] other to_other
run (recvs f) [] (recvs g) (m ∷ to_other) = run (recvs f) [] (g m) to_other
run (recvs f) [] (recvs g) [] = (deadlocked, deadlocked)
run (recvs f) [] (ends e) to_other = (unanswered, e)
