-- ===== src/Connection/Stream/Writes.antt =====
-- `Connection._send` puts all of a message out in whatever pieces it is taken.
use billiard.Prelude.{
  ℕ, zero, suc, ◌+◌, ◌-◌, ◌^◌, ◌≤◌, ◌<◌, ◌≡◌, refl, ap, inl, inr, true, false, none, some, List, [],
  ◌∷◌, ◌++◌, length, length-drop, take, drop, take-append-drop, ltb, ◌==◌, arith, Bool-cases,
  le_or_lt,
}
use billiard.Connection.Header.{pack, unpack-pack}
use billiard.Connection.Stream.{Write, eintr, fails, wrote, Sent, done, send, send_bytes}

-- No call raises anything but EINTR, and each that returns has taken a byte at least.
abbrev pub Progress : List Write → Type 0
Progress [] = Unit {0}
Progress (eintr ∷ ws) = Progress ws
Progress (fails ∷ ws) = ⊥
Progress (wrote n ∷ ws) = (0 < n) × Progress ws

abbrev pub calls : List Write → ℕ
calls [] = 0
calls (eintr ∷ ws) = calls ws
calls (fails ∷ ws) = calls ws
calls (wrote n ∷ ws) = suc (calls ws)

take_all : (n : ℕ) (xs : List ℕ) → length xs ≤ n → take n xs ≡ xs
take_all zero [] h = refl
take_all zero (x ∷ xs) h = absurd (omega arith)
take_all (suc n) [] h = refl
take_all (suc n) (x ∷ xs) h = ap (λ l. x ∷ l) (take_all n xs (omega arith))

append_nil : (xs : List ℕ) → xs ++ [] ≡ xs
append_nil [] = refl
append_nil (x ∷ xs) = ap (λ l. x ∷ l) (append_nil xs)

==_zero : (n : ℕ) → n ≤ 0 → (n == 0) ≡ true
==_zero n h = ground arith

==_pos : (n : ℕ) → 0 < n → (n == 0) ≡ false
==_pos n h = ground arith

-- What it means that everything went out.
pub record Out (ws : List Write) (buf : List ℕ) (s : Sent) : Type 0 where
  pub left : List Write
  pub all : s ≡ done buf left
  pub progress : Progress left
  pub used : calls ws ≤ calls left + length buf

pub send-Out :
    (ws : List Write) (buf : List ℕ)
    → Progress ws
    → 0 < length buf
    → length buf ≤ calls ws
    → Out ws buf (send ws buf)
unfolding send
send-Out [] buf p some_byte enough = absurd (omega arith)
send-Out (eintr ∷ ws) buf p some_byte enough =
    let h = send-Out ws buf p some_byte enough in
    record { left = h.left; all = h.all; progress = h.progress; used = h.used }
send-Out (fails ∷ ws) buf p some_byte enough = absurd p
send-Out (wrote n ∷ ws) buf p some_byte enough = elim (le_or_lt (length buf) n) [
  | inl all ↦ record {
    left = ws;
    all = rw (==_zero (length buf - n) (omega arith), take_all n buf all, append_nil buf) refl;
    progress = p.1;
    used = omega arith;
  }
  | inr more ↦
      let size : length (drop n buf) ≡ length buf - n = length-drop n buf in
      let h = send-Out ws (drop n buf) p.1 (omega (arith, size)) (omega (arith, size, p.0)) in
      record {
        left = h.left;
        all =
            rw (==_pos (length buf - n) (omega arith), h.all)
              (ap (λ l. done l h.left) (take-append-drop n buf));
        progress = h.progress;
        used = omega (arith, h.used, size, p.0);
      }
]

-- The bytes of a message.
unfoldable pub frame : List ℕ → List ℕ
frame buf = elim (pack (length buf)) [ none ↦ [] | some header ↦ header ++ buf ]

send_bytes-parts :
    (ws mid left : List Write) (buf header : List ℕ)
    → pack (length buf) ≡ some header
    → ltb 16384 (length buf) ≡ true
    → send ws header ≡ done header mid
    → send mid buf ≡ done buf left
    → send_bytes ws buf ≡ some (done (frame buf) left)
unfolding send_bytes frame
send_bytes-parts ws mid left buf header packed big h g =
    rw (packed, send_bytes, frame) (rw (big, h, g) refl)

send_bytes-whole :
    (ws left : List Write) (buf header : List ℕ)
    → pack (length buf) ≡ some header
    → ltb 16384 (length buf) ≡ false
    → send ws (header ++ buf) ≡ done (header ++ buf) left
    → send_bytes ws buf ≡ some (done (frame buf) left)
unfolding send_bytes frame
send_bytes-whole ws left buf header packed small h =
    rw (packed, send_bytes, frame) (rw (small, h) refl)

-- A message that fits goes out as its frame, in one part or two.
pub send_bytes-Out :
    (ws : List Write) (buf : List ℕ)
    → Progress ws
    → length buf < 2 ^ 31
    → 4 + length buf ≤ calls ws
    → (left : List Write) × (send_bytes ws buf ≡ some (done (frame buf) left))
      × Progress left
      × (calls ws ≤ calls left + (4 + length buf))
send_bytes-Out ws buf p fits enough =
    let (a, b, c, d, packed, same) = unpack-pack (length buf) fits in
    let header = a ∷ b ∷ c ∷ d ∷ [] in
    elim (Bool-cases (ltb 16384 (length buf))) [
      | inl big ↦
          let h = send-Out ws header p (omega arith) (omega (arith, enough)) in
          let g =
            send-Out h.left buf h.progress (ground (arith, big)) (omega (arith, h.used, enough)) in
          (
            g.left,
            send_bytes-parts ws h.left g.left buf header packed big h.all g.all,
            g.progress,
            omega (arith, h.used, g.used),
          )
      | inr small ↦
          let h = send-Out ws (header ++ buf) p (omega arith) (omega (arith, enough)) in
          (
            h.left,
            send_bytes-whole ws h.left buf header packed small h.all,
            h.progress,
            omega (arith, h.used),
          )
    ]
