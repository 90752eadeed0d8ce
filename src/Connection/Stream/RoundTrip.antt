-- ===== src/Connection/Stream/RoundTrip.antt =====
-- What is sent is what is received, message by message.
use billiard.Prelude.{
  ℕ, zero, suc, ◌+◌, ◌^◌, ◌≤◌, ◌<◌, ◌≡◌, refl, ap, ◌∙◌, true, Option, none, some, List, [], ◌∷◌,
  ◌++◌, length, arith,
}
use billiard.Prelude.Int.{pos}
use billiard.Connection.Header.{pack, unpack, unpack-pack}
use billiard.Connection.Stream.{
  Write, Sent, Read, done, raised, waits, too_long, prepend, send_bytes, got, recv, recv_body,
  recv_bytes,
}
use billiard.Connection.Stream.Reads
use billiard.Connection.Stream.Writes
use billiard.Connection.Stream.Reads.{recv_loop-got}
use billiard.Connection.Stream.Writes.{frame, send_bytes-Out}

append_assoc : (xs ys zs : List ℕ) → (xs ++ ys) ++ zs ≡ xs ++ (ys ++ zs)
append_assoc [] ys zs = refl
append_assoc (x ∷ xs) ys zs = ap (λ l. x ∷ l) (append_assoc xs ys zs)

recv_bytes-parts :
    (rs mid left : List Read) (a b c d : ℕ) (m rest : List ℕ)
    → recv rs 4 (a ∷ b ∷ c ∷ d ∷ (m ++ rest)) ≡ got (a ∷ b ∷ c ∷ d ∷ []) (m ++ rest) mid
    → unpack (a ∷ b ∷ c ∷ d ∷ []) ≡ some (pos (length m))
    → recv mid (length m) (m ++ rest) ≡ got m rest left
    → recv_bytes rs none (a ∷ b ∷ c ∷ d ∷ (m ++ rest)) ≡ got m rest left
unfolding recv_bytes
recv_bytes-parts rs mid left a b c d m rest h u g = rw (h, recv_bytes) (rw (u, recv_body) g)

pub frame-pack : (m header : List ℕ) → pack (length m) ≡ some header → frame m ≡ header ++ m
unfolding frame
frame-pack m header e = rw (e, frame) refl

-- One message at the front of the stream.
pub recv_bytes-frame :
    (rs : List Read) (m rest : List ℕ)
    → Reads.Progress rs
    → length m < 2 ^ 31
    → 4 + length m ≤ Reads.calls rs
    → (left : List Read) × (recv_bytes rs none (frame m ++ rest) ≡ got m rest left)
      × Reads.Progress left
      × (Reads.calls rs ≤ Reads.calls left + (4 + length m))
unfolding recv
recv_bytes-frame rs m rest p fits enough =
    let (a, b, c, d, packed, same) = unpack-pack (length m) fits in
    let (mid, e, q, used) =
      recv_loop-got rs true 4 (a ∷ b ∷ c ∷ d ∷ []) (m ++ rest) p refl (omega (arith, enough)) in
    let (left, f, r, more) =
      recv_loop-got mid true (length m) m rest q refl (omega (arith, used, enough)) in
    (
      left,
      ap (λ l. recv_bytes rs none (l ++ rest)) (frame-pack m (a ∷ b ∷ c ∷ d ∷ []) packed)
          ∙ recv_bytes-parts rs mid left a b c d m rest e same f,
      r,
      omega (arith, used, more),
    )

-- Messages sent one after the other.
unfoldable pub send_all : List Write → List (List ℕ) → Option Sent
send_all ws [] = some (done [] ws)
send_all ws (m ∷ ms) = elim (send_bytes ws m) [
  | none ↦ none
  | some s ↦ elim s [
    | done out left ↦ elim (send_all left ms) [ none ↦ none | some more ↦ some (prepend out more) ]
    | raised out ↦ some (Sent.raised out)
    | waits out ↦ some (Sent.waits out)
  ]
]

-- n messages received one after the other, with what is left of the stream.
unfoldable pub recv_all : ℕ → List Read → List ℕ → Option (List (List ℕ) × List ℕ)
recv_all zero rs stream = some ([], stream)
recv_all (suc n) rs stream = elim (recv_bytes rs none stream) [
  | got m rest left ↦ elim (recv_all n left rest) [
    | none ↦ none
    | some (ms, end) ↦ some (m ∷ ms, end)
  ]
  | raised e ↦ none
  | waits ↦ none
  | too_long ↦ none
]

abbrev pub count : List (List ℕ) → ℕ
count [] = 0
count (m ∷ ms) = suc (count ms)

-- The bytes of all frames.
abbrev pub total : List (List ℕ) → ℕ
total [] = 0
total (m ∷ ms) = (4 + length m) + total ms

abbrev pub Fit : List (List ℕ) → Type 0
Fit [] = Unit {0}
Fit (m ∷ ms) = (length m < 2 ^ 31) × Fit ms

unfoldable frames : List (List ℕ) → List ℕ
frames [] = []
frames (m ∷ ms) = frame m ++ frames ms

send_all-frames :
    (ws : List Write) (ms : List (List ℕ))
    → Writes.Progress ws
    → Fit ms
    → total ms ≤ Writes.calls ws
    → (left : List Write) × (send_all ws ms ≡ some (done (frames ms) left))
unfolding send_all frames
send_all-frames ws [] p fit enough = (ws, refl)
send_all-frames ws (m ∷ ms) p fit enough =
    let (mid, e, q, used) = send_bytes-Out ws m p fit.0 (omega (arith, enough)) in
    let (left, f) = send_all-frames mid ms q fit.1 (omega (arith, used, enough)) in
    (left, rw (e, f, send_all) refl)

recv_all-frames :
    (rs : List Read) (ms : List (List ℕ))
    → Reads.Progress rs
    → Fit ms
    → total ms ≤ Reads.calls rs
    → recv_all (count ms) rs (frames ms) ≡ some (ms, [])
unfolding recv_all frames
recv_all-frames rs [] p fit enough = refl
recv_all-frames rs (m ∷ ms) p fit enough =
    let (mid, e, q, used) = recv_bytes-frame rs m (frames ms) p fit.0 (omega (arith, enough)) in
    rw (e, recv_all-frames mid ms q fit.1 (omega (arith, used, enough)), recv_all) refl

-- Any number of messages, each shorter than 2 ^ 31 bytes, with interrupted calls and short writes on the
-- one side and interrupted calls and short reads on the other: as long as each call that succeeds moves
-- a byte, and there are as many of them as the frames have bytes, all of the messages are sent, and the
-- receiver gets the same messages in the same order, with nothing left over.
pub recv_all-send_all :
    (ws : List Write) (rs : List Read) (ms : List (List ℕ))
    → Fit ms
    → Writes.Progress ws
    → Reads.Progress rs
    → total ms ≤ Writes.calls ws
    → total ms ≤ Reads.calls rs
    → (stream : List ℕ) × (left : List Write) × (send_all ws ms ≡ some (done stream left))
      × (recv_all (count ms) rs stream ≡ some (ms, []))
recv_all-send_all ws rs ms fit p q enough plenty =
    let (left, e) = send_all-frames ws ms p fit enough in
    (frames ms, left, e, recv_all-frames rs ms q fit plenty)
