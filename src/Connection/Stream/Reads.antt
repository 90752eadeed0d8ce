-- ===== src/Connection/Stream/Reads.antt =====
-- `Connection._recv` gets all of a message in whatever pieces it comes.
use billiard.Prelude.{
  ℕ, zero, suc, ◌+◌, ◌-◌, ◌≤◌, ◌<◌, ◌≡◌, refl, ap, Bool, false, List, [], ◌∷◌, ◌++◌, length,
  length-take, length-drop, take, drop, take-append-drop, min, arith,
}
use billiard.Connection.Stream.{Read, eintr, fails, gives, got, is_nil, recv_loop}

-- No call raises anything but EINTR, and each that returns asks for a byte at least.
abbrev pub Progress : List Read → Type 0
Progress [] = Unit {0}
Progress (eintr ∷ rs) = Progress rs
Progress (fails ∷ rs) = ⊥
Progress (gives k ∷ rs) = (0 < k) × Progress rs

-- The calls that give something.
abbrev pub calls : List Read → ℕ
calls [] = 0
calls (eintr ∷ rs) = calls rs
calls (fails ∷ rs) = calls rs
calls (gives k ∷ rs) = suc (calls rs)

take-append_le : (j : ℕ) (xs ys : List ℕ) → j ≤ length xs → take j (xs ++ ys) ≡ take j xs
take-append_le zero xs ys h = refl
take-append_le (suc j) [] ys h = absurd (omega arith)
take-append_le (suc j) (x ∷ xs) ys h = ap (λ l. x ∷ l) (take-append_le j xs ys (omega arith))

drop-append_le : (j : ℕ) (xs ys : List ℕ) → j ≤ length xs → drop j (xs ++ ys) ≡ drop j xs ++ ys
drop-append_le zero xs ys h = refl
drop-append_le (suc j) [] ys h = absurd (omega arith)
drop-append_le (suc j) (x ∷ xs) ys h = drop-append_le j xs ys (omega arith)

is_nil-take : (j : ℕ) (xs : List ℕ) → 0 < j → 0 < length xs → is_nil (take j xs) ≡ false
is_nil-take zero xs h k = absurd (omega arith)
is_nil-take (suc j) [] h k = absurd (omega arith)
is_nil-take (suc j) (x ∷ xs) h k = refl

pub recv_loop-got :
    (rs : List Read) (whole : Bool) (n : ℕ) (m rest : List ℕ)
    → Progress rs
    → length m ≡ n
    → n ≤ calls rs
    → (rs' : List Read) × (recv_loop rs whole n (m ++ rest) ≡ got m rest rs')
      × Progress rs'
      × (calls rs ≤ calls rs' + n)
unfolding recv_loop
recv_loop-got rs whole zero [] rest p len enough = (rs, refl, p, omega arith)
recv_loop-got rs whole zero (b ∷ m) rest p len enough = absurd (omega arith)
recv_loop-got [] whole (suc n) m rest p len enough = absurd (omega arith)
recv_loop-got (eintr ∷ rs) whole (suc n) m rest p len enough =
    recv_loop-got rs whole (suc n) m rest p len enough
recv_loop-got (fails ∷ rs) whole (suc n) m rest p len enough = absurd p
recv_loop-got (gives k ∷ rs) whole (suc n) m rest p len enough =
    let j = min k (suc n) in
    let fits : j ≤ length m = omega (arith, len, p.0) in
    let chunk : take j (m ++ rest) ≡ take j m = take-append_le j m rest fits in
    let size : length (take j m) ≡ j = omega (arith, length-take j m, fits) in
    let left : length (drop j m) ≡ suc n - length (take j m) =
      omega (arith, length-drop j m, size, len) in
    let (rs', e, q, used) =
      recv_loop-got rs false (suc n - length (take j m)) (drop j m) rest p.1 left
        (omega (arith, size, p.0, enough)) in
    (
      rs',
      rw
          (
            chunk,
            drop-append_le j m rest fits,
            is_nil-take j m (omega (arith, p.0)) (omega (arith, len)),
            e,
          )
          (ap (λ l. got l rest rs') (take-append-drop j m)),
      q,
      omega (arith, used, size, p.0),
    )
