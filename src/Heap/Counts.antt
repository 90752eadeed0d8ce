-- ===== src/Heap/Counts.antt =====
-- How often something stands in a list, and the lists of lengths in order.
use billiard.Prelude.{
  ℕ, zero, suc, ◌+◌, ◌≤◌, ◌<◌, ◌≡◌, refl, ap, subst, ◌∙◌, Bool, true, false, Option, none, some,
  List, [], ◌∷◌, ◌++◌, get_elem?, ltb, ltb→lt, ◌==◌, if◌then◌else◌, if_intro, Bool-cases, inl, inr,
  arith,
}
use billiard.Heap.{
  Block, same, remove_block, remove_length, keep_head, keep_first, pop, delete_at, insort,
}
use billiard.Heap.Sets.{same_eq}
use billiard.Heap.Bools.{eq_of}

abbrev value_or : ℕ → Option ℕ → ℕ
value_or n none = n
value_or n (some m) = m

abbrev pub one_if : Bool → ℕ
one_if true = 1
one_if false = 0

abbrev pub count : Block → List Block → ℕ
count b [] = 0
count b (c ∷ cs) = one_if (same c b) + count b cs

abbrev pub count_length : ℕ → List ℕ → ℕ
count_length x [] = 0
count_length x (y ∷ ys) = one_if (y == x) + count_length x ys

pub count-append :
    (b c : Block) (cs : List Block) → count c (cs ++ b ∷ []) ≡ count c cs + one_if (same b c)
count-append b c [] = omega arith
count-append b c (d ∷ cs) = let h = count-append b c cs in omega (arith, h)

one_if-false : (b : Bool) → b ≡ false → one_if b ≡ 0
one_if-false b e = ap one_if e

pub remove_block-count :
    (b : Block) (cs : List Block)
    → 0 < count b cs
    → (rest : List Block) × (remove_block b cs ≡ some rest)
      × ((c : Block) → count c rest + one_if (same b c) ≡ count c cs)
unfolding remove_block
remove_block-count b [] h = absurd (omega (arith, h))
remove_block-count b (d ∷ cs) h = elim (Bool-cases (same d b)) [
  | inl s ↦ (
    cs,
    ap (λ x. if x then some cs else keep_head d (remove_block b cs)) s,
    λ c. swap c (same_eq d b s),
  )
  | inr s ↦
      let (rest, e, f) = remove_block-count b cs (later s) in
      (
        d ∷ rest,
        ap (λ x. if x then some cs else keep_head d (remove_block b cs)) s ∙ ap (keep_head d) e,
        λ c. let g = f c in omega (arith, g),
      )
]
  where
    swap : (c : Block) → d ≡ b → count c cs + one_if (same b c) ≡ one_if (same d c) + count c cs
    swap c e = let q = ap (λ x. one_if (same x c)) e in omega (arith, q)

    later : same d b ≡ false → 0 < count b cs
    later s = let q = one_if-false (same d b) s in omega (arith, h, q)

pub remove_length-count :
    (l : ℕ) (xs : List ℕ)
    → 0 < count_length l xs
    → (rest : List ℕ) × (remove_length l xs ≡ some rest)
      × ((x : ℕ) → count_length x rest + one_if (l == x) ≡ count_length x xs)
unfolding remove_length
remove_length-count l [] h = absurd (omega (arith, h))
remove_length-count l (y ∷ xs) h = elim (Bool-cases (y == l)) [
  | inl s ↦ (
    xs,
    ap (λ b. if b then some xs else keep_head y (remove_length l xs)) s,
    λ x. swap x (eq_of y l s),
  )
  | inr s ↦
      let (rest, e, f) = remove_length-count l xs (later s) in
      (
        y ∷ rest,
        ap (λ b. if b then some xs else keep_head y (remove_length l xs)) s ∙ ap (keep_head y) e,
        λ x. let g = f x in omega (arith, g),
      )
]
  where
    swap :
        (x : ℕ) → y ≡ l → count_length x xs + one_if (l == x) ≡ one_if (y == x) + count_length x xs
    swap x e = let q = ap (λ z. one_if (z == x)) e in omega (arith, q)

    later : (y == l) ≡ false → 0 < count_length l xs
    later s = let q = one_if-false (y == l) s in omega (arith, h, q)

pub pop-count :
    (c : Block) (cs : List Block)
    → (rest : List Block) × (b : Block) × (pop (c ∷ cs) ≡ some (rest, b))
      × ((d : Block) → count d rest + one_if (same b d) ≡ count d (c ∷ cs))
unfolding pop
pop-count c [] = ([], c, refl, λ d. omega arith)
pop-count c (d ∷ cs) =
    let (rest, b, e, f) = pop-count d cs in
    (c ∷ rest, b, ap (keep_first c) e, λ x. let g = f x in omega (arith, g))

pub delete_at-count :
    (i l : ℕ) (xs : List ℕ)
    → get_elem? xs i ≡ some l
    → (x : ℕ) → count_length x (delete_at i xs) + one_if (l == x) ≡ count_length x xs
unfolding delete_at
delete_at-count i l [] h x = absurd (cc)
delete_at-count zero l (y ∷ xs) h x =
    let q = ap (λ o. one_if (value_or l o == x)) h in omega (arith, q)
delete_at-count (suc i) l (y ∷ xs) h x = let g = delete_at-count i l xs h x in omega (arith, g)

pub insort-count :
    (y : ℕ) (xs : List ℕ) (x : ℕ)
    → count_length x (insort y xs) ≡ count_length x xs + one_if (y == x)
unfolding insort
insort-count y [] x = omega arith
insort-count y (z ∷ xs) x =
    if_intro (λ l. count_length x l ≡ one_if (z == x) + count_length x xs + one_if (y == x))
      (ltb y z) (λ t. omega arith) (λ t. let g = insort-count y xs x in omega (arith, g))

abbrev pub AtLeast : ℕ → List ℕ → Type 0
AtLeast x [] = Unit {0}
AtLeast x (y ∷ ys) = (x ≤ y) × AtLeast x ys

-- The lengths are in order.
abbrev pub IsSorted : List ℕ → Type 0
IsSorted [] = Unit {0}
IsSorted (x ∷ xs) = AtLeast x xs × IsSorted xs

AtLeast-trans : (x y : ℕ) (xs : List ℕ) → x ≤ y → AtLeast y xs → AtLeast x xs
AtLeast-trans x y [] h a = tt
AtLeast-trans x y (z ∷ xs) h (k, a) = (omega (arith, h, k), AtLeast-trans x y xs h a)

AtLeast-insort : (x y : ℕ) (xs : List ℕ) → x ≤ y → AtLeast x xs → AtLeast x (insort y xs)
unfolding insort
AtLeast-insort x y [] h a = (h, tt)
AtLeast-insort x y (z ∷ xs) h (k, a) =
    if_intro (AtLeast x) (ltb y z) (λ t. (h, (k, a))) (λ t. (k, AtLeast-insort x y xs h a))

pub insort-IsSorted : (y : ℕ) (xs : List ℕ) → IsSorted xs → IsSorted (insort y xs)
unfolding insort
insort-IsSorted y [] s = (tt, tt)
insort-IsSorted y (z ∷ xs) (a, s) =
    if_intro IsSorted (ltb y z)
      (λ t.
        let lt = ltb→lt y z t in
        ((omega (arith, lt), AtLeast-trans y z xs (omega (arith, lt)) a), (a, s)))
      (λ t. (AtLeast-insort z y xs (ground (arith, t)) a, insort-IsSorted y xs s))

AtLeast-delete_at : (x i : ℕ) (xs : List ℕ) → AtLeast x xs → AtLeast x (delete_at i xs)
unfolding delete_at
AtLeast-delete_at x i [] a = tt
AtLeast-delete_at x zero (y ∷ xs) (h, a) = a
AtLeast-delete_at x (suc i) (y ∷ xs) (h, a) = (h, AtLeast-delete_at x i xs a)

pub delete_at-IsSorted : (i : ℕ) (xs : List ℕ) → IsSorted xs → IsSorted (delete_at i xs)
unfolding delete_at
delete_at-IsSorted i [] s = tt
delete_at-IsSorted zero (y ∷ xs) (a, s) = s
delete_at-IsSorted (suc i) (y ∷ xs) (a, s) = (AtLeast-delete_at y i xs a, delete_at-IsSorted i xs s)

-- What `remove` leaves.
abbrev Left : (List ℕ → Type 0) → Option (List ℕ) → Type 0
Left P none = Unit {0}
Left P (some xs) = P xs

Left-keep :
    (P Q : List ℕ → Type 0) (y : ℕ) (o : Option (List ℕ))
    → ((xs : List ℕ) → Q xs → P (y ∷ xs))
    → Left Q o
    → Left P (keep_head y o)
Left-keep P Q y none f l = tt
Left-keep P Q y (some xs) f l = f xs l

AtLeast-remove : (x l : ℕ) (xs : List ℕ) → AtLeast x xs → Left (AtLeast x) (remove_length l xs)
unfolding remove_length
AtLeast-remove x l [] a = tt
AtLeast-remove x l (y ∷ xs) (h, a) =
    if_intro (Left (AtLeast x)) (y == l) (λ t. a)
      (λ t.
        Left-keep (AtLeast x) (AtLeast x) y (remove_length l xs) (λ zs k. (h, k))
          (AtLeast-remove x l xs a))

both :
    (P Q : List ℕ → Type 0) (o : Option (List ℕ)) → Left P o → Left Q o → Left (λ xs. P xs × Q xs) o
both P Q none p q = tt
both P Q (some xs) p q = (p, q)

remove_length-Left : (l : ℕ) (xs : List ℕ) → IsSorted xs → Left IsSorted (remove_length l xs)
unfolding remove_length
remove_length-Left l [] s = tt
remove_length-Left l (y ∷ xs) (a, s) =
    if_intro (Left IsSorted) (y == l) (λ t. s)
      (λ t.
        Left-keep IsSorted (λ zs. AtLeast y zs × IsSorted zs) y (remove_length l xs) (λ zs k. k)
          (both (AtLeast y) IsSorted (remove_length l xs) (AtLeast-remove y l xs a)
            (remove_length-Left l xs s)))

pub remove_length-IsSorted :
    (l : ℕ) (xs rest : List ℕ) → IsSorted xs → remove_length l xs ≡ some rest → IsSorted rest
remove_length-IsSorted l xs rest s e = subst (Left IsSorted) e (remove_length-Left l xs s)
