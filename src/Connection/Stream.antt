-- ===== src/Connection/Stream.antt =====
-- `Connection._send`, `_recv`, `_send_bytes` and `_recv_bytes`. What each call of `os.write` and `os.read`
-- does is a list that the loops walk; with no further call they wait.
pub mod Reads
pub mod Writes
pub mod RoundTrip
mod Tests
use billiard.Prelude.{
  ℕ, zero, suc, ◌+◌, ◌-◌, Bool, true, false, Option, none, some, List, [], ◌∷◌, ◌++◌, length, take,
  drop, min, ltb, ◌==◌, if◌then◌else◌,
}
use billiard.Prelude.Int.{ℤ, pos, negsuc, ltb_ℤ}
use billiard.Connection.Header.{pack, unpack}

-- One call of `write`: EINTR, another error, or the number of bytes that were taken.
pub data Write : Type 0 where
  eintr fails : Write
  wrote : ℕ → Write

-- The bytes that went out, and the calls that are left.
pub data Sent : Type 0 where
  done : List ℕ → List Write → Sent
  raised waits : List ℕ → Sent

abbrev pub prepend : List ℕ → Sent → Sent
prepend bs (done out ws) = done (bs ++ out) ws
prepend bs (raised out) = raised (bs ++ out)
prepend bs (waits out) = waits (bs ++ out)

-- `_send`; `write` takes at most what it is given.
unfoldable pub send : List Write → List ℕ → Sent
send [] buf = waits []
send (eintr ∷ ws) buf = send ws buf
send (fails ∷ ws) buf = raised []
send (wrote n ∷ ws) buf =
    let rest = send ws (drop n buf) in
    prepend (take n buf) (if length buf - n == 0 then done [] ws else rest)

-- What follows the header when it is sent alone.
abbrev pub then_send : List ℕ → Sent → Sent
then_send buf (done out ws) = prepend out (send ws buf)
then_send buf (raised out) = raised out
then_send buf (waits out) = waits out

-- `_send_bytes`; none is the struct.error, before which nothing is sent.
unfoldable pub send_bytes : List Write → List ℕ → Option Sent
unfolding send
send_bytes ws buf = elim (pack (length buf)) [
  | none ↦ none
  | some header ↦
      some
        (if ltb 16384 (length buf) then then_send buf (send ws header) else send ws (header ++ buf))
]

-- One call of `read`: EINTR, another error, or that it gives at most this many of the bytes that are
-- there, and none only at the end of the file.
pub data Read : Type 0 where
  eintr fails : Read
  gives : ℕ → Read

pub data Exn : Type 0 where
  eof_error os_error end_in_message bad_header : Exn

-- The message, with what is left of the stream and of the calls.
pub data Received : Type 0 where
  got : List ℕ → List ℕ → List Read → Received
  raised : Exn → Received
  waits too_long : Received

-- One chunk of `_recv` that is not empty, before the rest of the loop.
abbrev pub prefix : List ℕ → Received → Received
prefix chunk (got buf stream rs) = got (chunk ++ buf) stream rs
prefix chunk (raised e) = raised e
prefix chunk waits = waits
prefix chunk too_long = too_long

abbrev pub is_nil : List ℕ → Bool
is_nil [] = true
is_nil (b ∷ bs) = false

-- The loop of `_recv` while `remaining` is above 0; the flag says that it is still the size.
unfoldable pub recv_loop : List Read → Bool → ℕ → List ℕ → Received
recv_loop rs whole zero stream = got [] stream rs
recv_loop [] whole (suc n) stream = waits
recv_loop (eintr ∷ rs) whole (suc n) stream = recv_loop rs whole (suc n) stream
recv_loop (fails ∷ rs) whole (suc n) stream = raised os_error
recv_loop (gives k ∷ rs) whole (suc n) stream =
    let chunk = take (min k (suc n)) stream in
    let rest = recv_loop rs false (suc n - length chunk) (drop (min k (suc n)) stream) in
    if is_nil chunk then raised (if whole then eof_error else end_in_message) else prefix chunk rest

unfoldable pub recv : List Read → ℕ → List ℕ → Received
unfolding recv_loop
recv rs size stream = recv_loop rs true size stream

-- `_recv(size)` for a size that the header gives; below 0 there is nothing to read.
abbrev pub recv_size : List Read → ℤ → List ℕ → Received
recv_size rs (pos n) stream = recv rs n stream
recv_size rs (negsuc n) stream = got [] stream rs

-- `maxsize is not None and size > maxsize`
abbrev pub exceeds : ℤ → Option ℕ → Bool
exceeds size none = false
exceeds size (some maxsize) = ltb_ℤ (pos maxsize) size

-- What `_recv_bytes` does with the header; `too_long` is its None.
abbrev pub recv_body : Option ℕ → Received → Received
recv_body maxsize (got header stream rs) = elim (unpack header) [
  | none ↦ raised bad_header
  | some size ↦ if exceeds size maxsize then too_long else recv_size rs size stream
]
recv_body maxsize (raised e) = raised e
recv_body maxsize waits = waits
recv_body maxsize too_long = too_long

unfoldable pub recv_bytes : List Read → Option ℕ → List ℕ → Received
unfolding recv
recv_bytes rs maxsize stream = recv_body maxsize (recv rs 4 stream)
