-- ===== src/Heap/Tiles.antt =====
-- Blocks that tile the arenas: each byte of an arena lies in one of them, and in no other.
use billiard.Prelude.{
  ℕ, ◌≤◌, ◌<◌, ◌≡◌, refl, sym, ap, subst, ◌∙◌, Bool, true, false, ◌&&◌, ◌||◌, Option, none, some,
  ltb, leb, ◌==◌, if◌then◌else◌, if_intro, ◌⊎◌, inl, inr, arith, leb→le, ltb→lt, lt→ltb,
}
use billiard.Heap.{Block, is_some}
use billiard.Heap.Bools.{eq_of, eq_to, and_left, and_right, and_intro}

abbrev pub covers : Block → ℕ → ℕ → Bool
covers b a x = (b.arena == a) && (leb b.start x && ltb x b.stop)

le→leb : (a b : ℕ) → a ≤ b → leb a b ≡ true
le→leb a b h = ground arith

-- The test reads as its three facts, and back.
pub record In (b : Block) (a x : ℕ) : Type 0 where
  pub arena : b.arena ≡ a
  pub low : b.start ≤ x
  pub high : x < b.stop

pub covers-In : (b : Block) (a x : ℕ) → covers b a x ≡ true → In b a x
covers-In b a x h = record {
  arena = eq_of b.arena a (and_left (b.arena == a) _ h);
  low = leb→le b.start x (and_left (leb b.start x) _ (and_right (b.arena == a) _ h));
  high = ltb→lt x b.stop (and_right (leb b.start x) _ (and_right (b.arena == a) _ h));
}

pub In-covers : (b : Block) (a x : ℕ) → In b a x → covers b a x ≡ true
In-covers b a x i =
    and_intro (b.arena == a) _ (eq_to b.arena a i.arena)
      (and_intro (leb b.start x) _ (le→leb b.start x i.low) (lt→ltb x b.stop i.high))

-- `owner` is the block in which a byte lies.
pub record Tiles (inside : ℕ → ℕ → Bool) (live : Block → Bool) : Type 0 where
  pub owner : ℕ → ℕ → Option Block
  pub owned : (a x : ℕ) (b : Block) → owner a x ≡ some b → (live b ≡ true) × In b a x
  pub owns : (a x : ℕ) (b : Block) → live b ≡ true → In b a x → owner a x ≡ some b
  pub whole : (a x : ℕ) → is_some (owner a x) ≡ inside a x
  pub not_empty : (b : Block) → live b ≡ true → b.start < b.stop

abbrev or_that : Block → Option Block → Block
or_that b none = b
or_that b (some c) = c

some_eq : {b c : Block} → some b ≡ some c → b ≡ c
some_eq {b = b} e = ap (or_that b) e

-- Two live blocks with a byte in common are one.
pub Tiles-disjoint :
    {inside : ℕ → ℕ → Bool} {live : Block → Bool} (a x : ℕ) (b c : Block)
    → Tiles inside live
    → live b ≡ true
    → live c ≡ true
    → In b a x
    → In c a x
    → b ≡ c
Tiles-disjoint a x b c t hb hc ib ic = some_eq (sym (t.owns a x b hb ib) ∙ t.owns a x c hc ic)

-- Only which blocks are live matters.
pub Tiles-same :
    {inside : ℕ → ℕ → Bool} {live live' : Block → Bool}
    → Tiles inside live
    → ((b : Block) → live b ≡ live' b)
    → Tiles inside live'
Tiles-same t e = record {
  owner = t.owner;
  owned = λ a x b o. let (l, i) = t.owned a x b o in (sym (e b) ∙ l, i);
  owns = λ a x b l i. t.owns a x b (e b ∙ l) i;
  whole = t.whole;
  not_empty = λ b l. t.not_empty b (e b ∙ l);
}

-- Two blocks n and m, which may be one, take their bytes from blocks that lie in them.
pub record Swap (live live' : Block → Bool) (n m : Block) : Type 0 where
  pub new_n : live' n ≡ true
  pub new_m : live' m ≡ true
  pub apart : (a x : ℕ) → In n a x → In m a x → n ≡ m
  pub kept :
      (b : Block)
      → live' b ≡ true
      → (n ≡ b)
        ⊎ (m ≡ b)
        ⊎ ((live b ≡ true) × ((a x : ℕ) → In b a x → (In n a x → ⊥) × (In m a x → ⊥)))
  pub stays :
      (a x : ℕ) (b : Block)
      → live b ≡ true
      → In b a x
      → covers n a x ≡ false
      → covers m a x ≡ false
      → live' b ≡ true
  pub full_n : n.start < n.stop
  pub full_m : m.start < m.stop

module _ {inside : ℕ → ℕ → Bool} {live live' : Block → Bool} (n m : Block) (t : Tiles inside live)
    (s : Swap live live' n m) where
  owner' : ℕ → ℕ → Option Block
  owner' a x = if covers n a x then some n else if covers m a x then some m else t.owner a x

  owned' : (a x : ℕ) (b : Block) → owner' a x ≡ some b → (live' b ≡ true) × In b a x
  unfolding owner'
  owned' a x b =
      if_intro P (covers n a x) (λ c e. fresh n s.new_n (covers-In n a x c) e)
        (λ c.
          if_intro P (covers m a x) (λ d e. fresh m s.new_m (covers-In m a x d) e)
            (λ d e. let (l, i) = t.owned a x b e in (s.stays a x b l i c d, i)))
    where
      P : Option Block → Type 0
      P o = o ≡ some b → (live' b ≡ true) × In b a x

      fresh :
          (k : Block) → live' k ≡ true → In k a x → some k ≡ some b → (live' b ≡ true) × In b a x
      fresh k l i e = subst (λ c. (live' c ≡ true) × In c a x) (some_eq e) (l, i)

  owns_n : (a x : ℕ) → In n a x → owner' a x ≡ some n
  unfolding owner'
  owns_n a x i =
      ap (λ c. if c then some n else if covers m a x then some m else t.owner a x)
        (In-covers n a x i)

  owns_m : (a x : ℕ) → In m a x → owner' a x ≡ some m
  unfolding owner'
  owns_m a x i =
      if_intro (λ o. o ≡ some m) (covers n a x) (λ c. ap some (s.apart a x (covers-In n a x c) i))
        (λ c. ap (λ d. if d then some m else t.owner a x) (In-covers m a x i))

  owns' : (a x : ℕ) (b : Block) → live' b ≡ true → In b a x → owner' a x ≡ some b
  unfolding owner'
  owns' a x b l i = elim (s.kept b l) [
    | inl e ↦ subst (λ k. In k a x → owner' a x ≡ some k) e (owns_n a x) i
    | inr (inl e) ↦ subst (λ k. In k a x → owner' a x ≡ some k) e (owns_m a x) i
    | inr (inr (o, out)) ↦
        if_intro (λ r. r ≡ some b) (covers n a x) (λ c. absurd ((out a x i).0 (covers-In n a x c)))
          (λ c.
            if_intro (λ r. r ≡ some b) (covers m a x)
              (λ d. absurd ((out a x i).1 (covers-In m a x d))) (λ d. t.owns a x b o i))
  ]

  pub Tiles-swap :
      {inside' : ℕ → ℕ → Bool}
      → ((a x : ℕ) → inside' a x ≡ (covers n a x || (covers m a x || inside a x)))
      → Tiles inside' live'
  unfolding owner'
  Tiles-swap w = record {
    owner = owner';
    owned = owned';
    owns = owns';
    whole = λ a x. some_at (covers n a x) (covers m a x) (t.owner a x) (t.whole a x) ∙ sym (w a x);
    not_empty = λ b l. elim (s.kept b l) [
      | inl e ↦ subst (λ (k : Block). k.start < k.stop) e s.full_n
      | inr (inl e) ↦ subst (λ (k : Block). k.start < k.stop) e s.full_m
      | inr (inr (o, out)) ↦ t.not_empty b o
    ];
  }
    where
      some_at :
          (c d : Bool) (o : Option Block) {v : Bool}
          → is_some o ≡ v
          → is_some (if c then some n else if d then some m else o) ≡ (c || (d || v))
      some_at true d o e = refl
      some_at false true o e = refl
      some_at false false o e = e
