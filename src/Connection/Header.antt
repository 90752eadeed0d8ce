-- ===== src/Connection/Header.antt =====
-- The header of a message in `Connection._send_bytes` and `_recv_bytes`: `struct.pack("!i", n)`, a signed
-- number of 32 bits with the highest byte first. A byte is a number below 256.
use billiard.Prelude.{
  ℕ, ◌+◌, ◌-◌, ◌*◌, ◌/◌, ◌%◌, ◌^◌, ◌<◌, ◌≡◌, Option, none, some, List, [], ◌∷◌, ltb, if◌then◌else◌,
  arith,
}
use billiard.Prelude.Int.{ℤ, pos, negsuc}

-- None is the struct.error of a number that does not fit.
unfoldable pub pack : ℕ → Option (List ℕ)
pack n =
    if ltb n (2 ^ 31)
    then some (n / 2 ^ 24 % 256 ∷ n / 2 ^ 16 % 256 ∷ n / 2 ^ 8 % 256 ∷ n % 256 ∷ [])
    else none

-- The number with these bits, in two's complement.
abbrev pub signed32 : ℕ → ℤ
signed32 w = if ltb w (2 ^ 31) then pos w else negsuc (2 ^ 32 - w - 1)

unfoldable pub unpack : List ℕ → Option ℤ
unpack (a ∷ b ∷ c ∷ d ∷ []) = some (signed32 (a * 2 ^ 24 + b * 2 ^ 16 + c * 2 ^ 8 + d))
unpack other = none

pub unpack-pack :
    (n : ℕ)
    → n < 2 ^ 31
    → (a b c d : ℕ) × (pack n ≡ some (a ∷ b ∷ c ∷ d ∷ []))
      × (unpack (a ∷ b ∷ c ∷ d ∷ []) ≡ some (pos n))
unfolding pack unpack
unpack-pack n h =
    (n / 2 ^ 24 % 256, n / 2 ^ 16 % 256, n / 2 ^ 8 % 256, n % 256, ground arith, ground arith)
