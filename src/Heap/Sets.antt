-- ===== src/Heap/Sets.antt =====
-- Blocks that are the same, and sets of blocks with one more or one less.
use billiard.Prelude.{
  ℕ, ◌≡◌, refl, ap, subst, ◌∙◌, Bool, true, not, ◌&&◌, ◌==◌, if◌then◌else◌, if_intro, ◌⊎◌, inl, inr,
}
use billiard.Heap.{Block, same}
use billiard.Heap.Bools.{
  and_intro, and_left, and_right, clash, eq_of, eq_to, not-false, not-true, refute,
}

abbrev pub block : ℕ → ℕ → ℕ → Block
block a s t = record { arena = a; start = s; stop = t }

pub same_eq : (b c : Block) → same b c ≡ true → b ≡ c
same_eq b c h =
    ap (λ a. block a b.start b.stop) (eq_of b.arena c.arena (and_left (b.arena == c.arena) _ h))
    ∙ ap (λ s. block c.arena s b.stop)
        (eq_of b.start c.start
          (and_left (b.start == c.start) _ (and_right (b.arena == c.arena) _ h)))
    ∙ ap (λ t. block c.arena c.start t)
        (eq_of b.stop c.stop
          (and_right (b.start == c.start) _ (and_right (b.arena == c.arena) _ h)))

pub same_self : (b : Block) → same b b ≡ true
same_self b =
    and_intro (b.arena == b.arena) _ (eq_to b.arena b.arena refl)
      (and_intro (b.start == b.start) _ (eq_to b.start b.start refl) (eq_to b.stop b.stop refl))

abbrev pub other : Block → (Block → Bool) → Block → Bool
other b f c = f c && not (same b c)

abbrev pub also : Block → (Block → Bool) → Block → Bool
also b f c = if same b c then true else f c

pub same_of : (b c : Block) → b ≡ c → same b c ≡ true
same_of b c e = subst (λ d. same b d ≡ true) e (same_self b)

pub also_new : (n : Block) (f : Block → Bool) → also n f n ≡ true
also_new n f = ap (λ b. if b then true else f n) (same_self n)

pub also_old : (n : Block) (f : Block → Bool) (b : Block) → f b ≡ true → also n f b ≡ true
also_old n f b h = if_intro (λ v. v ≡ true) (same n b) (λ s. refl) (λ s. h)

pub also_either :
    (n : Block) (f : Block → Bool) (b : Block) → also n f b ≡ true → (n ≡ b) ⊎ (f b ≡ true)
also_either n f b =
    if_intro (λ v. v ≡ true → (n ≡ b) ⊎ (f b ≡ true)) (same n b) (λ s e. inl (same_eq n b s))
      (λ s e. inr e)

pub other_old :
    (p : Block) (f : Block → Bool) (b : Block) → f b ≡ true → (p ≡ b → ⊥) → other p f b ≡ true
other_old p f b h n =
    and_intro (f b) _ h (not-false (same p b) (refute (same p b) (λ s. n (same_eq p b s))))

pub other_is :
    (p : Block) (f : Block → Bool) (b : Block) → other p f b ≡ true → (f b ≡ true) × (p ≡ b → ⊥)
other_is p f b h =
    (and_left (f b) _ h, λ e. clash (same_of p b e) (not-true (same p b) (and_right (f b) _ h)))
