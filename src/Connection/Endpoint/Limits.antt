-- ===== src/Connection/Endpoint/Limits.antt =====
-- `recv_bytes` with a maximal length.
use billiard.Prelude.{
  ℕ, ◌+◌, ◌^◌, ◌≤◌, ◌<◌, ◌≡◌, refl, ap, ◌∙◌, inl, inr, Bool, true, false, none, some, List, [], ◌∷◌,
  ◌++◌, length, if◌then◌else◌, arith, ltb,
}
use billiard.Prelude.Int.{pos}
use billiard.Connection.Header.{unpack, unpack-pack}
use billiard.Connection.Stream.{
  Read, Received, got, too_long, exceeds, recv_size, recv_loop, recv_body, recv_bytes,
}
use billiard.Connection.Stream.Reads
use billiard.Connection.Stream.Reads.{recv_loop-got}
use billiard.Connection.Stream.Writes.{frame}
use billiard.Connection.Stream.RoundTrip.{frame-pack}
use billiard.Connection.Endpoint.{
  Endpoint, handle_closed, write_only, bad_message_length, close, bad_message_length_state,
  after_recv, recv,
}
use billiard.Connection.Stream

-- What is in the stream when a message comes next.
recv_bytes-head :
    (rs mid : List Read) (k a b c d : ℕ) (m rest : List ℕ)
    → Stream.recv rs 4 (a ∷ b ∷ c ∷ d ∷ (m ++ rest)) ≡ got (a ∷ b ∷ c ∷ d ∷ []) (m ++ rest) mid
    → unpack (a ∷ b ∷ c ∷ d ∷ []) ≡ some (pos (length m))
    → recv_bytes rs (some k) (a ∷ b ∷ c ∷ d ∷ (m ++ rest))
      ≡ (if ltb k (length m) then too_long else Stream.recv mid (length m) (m ++ rest))
unfolding recv_bytes
recv_bytes-head rs mid k a b c d m rest h u = rw (h, recv_bytes) (rw (u, recv_body) (ground arith))

recv_bytes-limited :
    (rs : List Read) (k : ℕ) (m rest : List ℕ)
    → Reads.Progress rs
    → length m < 2 ^ 31
    → 4 + length m ≤ Reads.calls rs
    → (left : List Read) × (recv_bytes rs (some k) (frame m ++ rest)
        ≡ (if ltb k (length m) then too_long else got m rest left))
unfolding Stream.recv
recv_bytes-limited rs k m rest p fits enough =
    let (a, b, c, d, packed, same) = unpack-pack (length m) fits in
    let (mid, e, q, used) =
      recv_loop-got rs true 4 (a ∷ b ∷ c ∷ d ∷ []) (m ++ rest) p refl (omega (arith, enough)) in
    let (left, f, r, more) =
      recv_loop-got mid true (length m) m rest q refl (omega (arith, used, enough)) in
    (
      left,
      ap (λ l. recv_bytes rs (some k) (l ++ rest)) (frame-pack m (a ∷ b ∷ c ∷ d ∷ []) packed)
          ∙ recv_bytes-head rs mid k a b c d m rest e same
          ∙ ap (λ o. if ltb k (length m) then too_long else o) f,
    )

-- The connection after a message of this length under a limit of k bytes.
abbrev pub after_limit : Endpoint → ℕ → ℕ → Endpoint
after_limit c k n = if ltb k n then bad_message_length_state c else c

recv-open :
    (c : Endpoint) (handle : ℕ) (rs : List Read) (k : ℕ) (stream : List ℕ)
    → c.handle ≡ some handle
    → c.readable ≡ true
    → recv c rs (some (pos k)) stream ≡ after_recv c (recv_bytes rs (some k) stream)
unfolding recv
recv-open c handle rs k stream h r = ground (arith, h, r)

after_recv-if :
    (b : Bool) (c : Endpoint) (buf rest : List ℕ) (left : List Read)
    → after_recv c (if b then too_long else got buf rest left) ≡ (
      (if b then bad_message_length_state c else c),
      (if b then inr bad_message_length else inl (got buf rest left)),
    )
after_recv-if true c buf rest left = refl
after_recv-if false c buf rest left = refl

-- An open connection that may read, with a message of fewer than 2 ^ 31 bytes next in the stream and
-- calls enough to read it. With a limit below its length `recv_bytes` raises "bad message length", and
-- from then on every reading is refused: as write-only where the connection may write, and there the
-- handle stays as it is, else as closed. With a higher limit it returns the message, and the
-- connection is as before.
pub recv-limit :
    (c : Endpoint) (handle : ℕ) (rs later : List Read) (k : ℕ) (m rest stream : List ℕ)
    → c.handle ≡ some handle
    → c.readable ≡ true
    → Reads.Progress rs
    → length m < 2 ^ 31
    → 4 + length m ≤ Reads.calls rs
    → (left : List Read) × (recv c rs (some (pos k)) (frame m ++ rest) ≡ (
      after_limit c k (length m),
      (if ltb k (length m) then inr bad_message_length else inl (got m rest left)),
    ))
      × ((recv (bad_message_length_state c) later none stream).1
          ≡ inr (if c.writable then write_only else handle_closed))
      × ((bad_message_length_state c).writable ≡ c.writable)
      × ((bad_message_length_state c).handle ≡ (if c.writable then some handle else none))
unfolding recv bad_message_length_state close
recv-limit c handle rs later k m rest stream h r p fits enough =
    let (left, e) = recv_bytes-limited rs k m rest p fits enough in
    (
      left,
      recv-open c handle rs k (frame m ++ rest) h r
          ∙ ap (after_recv c) e
          ∙ after_recv-if (ltb k (length m)) c m rest left,
      ground (arith, h, r),
      ground (arith, h, r),
      ground (arith, h, r),
    )
