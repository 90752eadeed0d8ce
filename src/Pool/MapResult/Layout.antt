-- ===== src/Pool/MapResult/Layout.antt =====
-- The list of a `MapResult` as the batches that have arrived and the gaps of those that have not.
use billiard.Prelude.{
  ℕ, zero, suc, ◌+◌, ◌*◌, ◌≤◌, ◌≡◌, refl, ap, Bool, true, false, Option, none, some, List, [], ◌∷◌,
  ◌++◌, map, length, take, drop, replicate, get_elem?, length-replicate, length-map, arith, ◌∙◌,
}
use mathlib.Core.List.{append_assoc, append-nil}
use billiard.Pool.Chunks.Batches.{IsCut}
use billiard.Pool.MapResult.{slice_assign}

module _ {ℓ} {A : Type ℓ} where
  take_past : (m k : ℕ) (a b : List A) → m ≡ length a + k → take m (a ++ b) ≡ a ++ take k b
  take_past m k [] b e = rw (let e' : m ≡ k = omega arith in e')
  take_past zero k (x ∷ a) b e = absurd (omega arith)
  take_past (suc m) k (x ∷ a) b e = ap (◌∷◌ x) (take_past m k a b (omega arith))

  drop_past : (m k : ℕ) (a b : List A) → m ≡ length a + k → drop m (a ++ b) ≡ drop k b
  drop_past m k [] b e = rw (let e' : m ≡ k = omega arith in e')
  drop_past zero k (x ∷ a) b e = absurd (omega arith)
  drop_past (suc m) k (x ∷ a) b e = drop_past m k a b (omega arith)

  drop_all : (m : ℕ) (a : List A) → length a ≤ m → drop m a ≡ []
  drop_all zero [] h = refl
  drop_all zero (x ∷ a) h = absurd (omega arith)
  drop_all (suc m) [] h = refl
  drop_all (suc m) (x ∷ a) h = drop_all m a (omega arith)

module _ {ℓ} {A : Type ℓ} (n : ℕ) (new a b : List A) where
  slice_here : length a ≡ n → slice_assign (0 * n) ((0 + 1) * n) new (a ++ b) ≡ new ++ b
  unfolding slice_assign
  slice_here e =
      rw (let z : 0 * n ≡ 0 = omega arith in z, drop_past ((0 + 1) * n) 0 a b (omega arith)) refl

  slice_past :
      (i : ℕ)
      → length a ≡ n
      → slice_assign (suc i * n) ((suc i + 1) * n) new (a ++ b)
        ≡ a ++ slice_assign (i * n) ((i + 1) * n) new b
  unfolding slice_assign
  slice_past i e =
      rw
        (
          take_past (suc i * n) (i * n) a b (omega arith),
          drop_past ((suc i + 1) * n) ((i + 1) * n) a b (omega arith),
        )
        (append_assoc a (take (i * n) b) (new ++ drop ((i + 1) * n) b))

slice_last {ℓ} :
    {A : Type ℓ} (n : ℕ) (new a : List A)
    → length a ≤ n
    → slice_assign (0 * n) ((0 + 1) * n) new (a ++ []) ≡ new ++ []
unfolding slice_assign
slice_last n new a h =
    rw (let z : 0 * n ≡ 0 = omega arith in z, append-nil a, drop_all ((0 + 1) * n) a (omega arith))
      refl

-- A batch's results, and whether they have arrived.
abbrev pub Mark : Type 0 → Type 0
Mark B = Bool × List B

module _ {B : Type 0} where
  abbrev pub part : Mark B → List (Option B)
  part (true, r) = map some r
  part (false, r) = replicate (length r) none

  abbrev pub layout : List (Mark B) → List (Option B)
  layout [] = []
  layout (m ∷ ms) = part m ++ layout ms

  abbrev pub results : List (Mark B) → List (List B)
  results [] = []
  results ((d, r) ∷ ms) = r ∷ results ms

  -- Batch i has arrived.
  abbrev pub mark : ℕ → List (Mark B) → List (Mark B)
  mark i [] = []
  mark zero ((d, r) ∷ ms) = (true, r) ∷ ms
  mark (suc i) (m ∷ ms) = m ∷ mark i ms

  abbrev pub missing : List (Mark B) → ℕ
  missing [] = 0
  missing ((true, r) ∷ ms) = missing ms
  missing ((false, r) ∷ ms) = suc (missing ms)

  length-part : (m : Mark B) → length (part m) ≡ length m.1
  length-part (true, r) = length-map r some
  length-part (false, r) = length-replicate (length r) none

  -- A batch's results go into the slice that the code computes for its index.
  pub slice_assign-layout :
      (c i : ℕ) (ms : List (Mark B)) (d : Bool) (r : List B)
      → IsCut (suc c) (results ms)
      → get_elem? ms i ≡ some (d, r)
      → slice_assign (i * suc c) ((i + 1) * suc c) (map some r) (layout ms) ≡ layout (mark i ms)
  unfolding slice_assign
  slice_assign-layout c i [] d r cut e = cc
  slice_assign-layout c zero ((d', r') ∷ []) d r cut e =
      let q : r ≡ r' = cc in
      rw q (
        slice_last (suc c) (map some r') (part (d', r'))
          (omega (arith, length-part (d', r'), cut.1)))
  slice_assign-layout c zero ((d', r') ∷ n ∷ ms) d r cut e =
      let q : r ≡ r' = cc in
      rw q (
        slice_here (suc c) (map some r') (part (d', r')) (layout (n ∷ ms))
          (length-part (d', r') ∙ cut.0))
  slice_assign-layout c (suc i) (m ∷ []) d r cut e = cc
  slice_assign-layout c (suc i) ((d', r') ∷ n ∷ ms) d r cut e =
      slice_past (suc c) (map some r) (part (d', r')) (layout (n ∷ ms)) i
        (length-part (d', r') ∙ cut.0)
      ∙ ap (◌++◌ (part (d', r'))) (slice_assign-layout c i (n ∷ ms) d r cut.1 e)
