-- ===== src/Heap/Arenas.antt =====
-- `_malloc` as a whole: a block that fits, or all of a new arena.
use billiard.Prelude.{
  ℕ, zero, suc, ◌≤◌, ◌<◌, ◌≡◌, refl, sym, ap, subst, ◌∙◌, max, Bool, true, false, false≢true, ◌&&◌,
  ◌||◌, Option, none, some, List, [], ◌∷◌, ◌++◌, length, get_elem?, ltb, leb, ◌==◌, if◌then◌else◌,
  if_intro, arith,
}
use billiard.Heap.{Block, same, Heap, bisect_left, roundup}
use billiard.Heap.Alloc.{arena_block, grow, malloc_block}
use billiard.Heap.Maps.{is_free}
use billiard.Heap.Sets.{same_eq}
use billiard.Heap.Bools.{eq_of, refute, clash}
use billiard.Heap.Tiles.{covers, Tiles-same}
use billiard.Heap.Joins.{Tiles-more, inside_live}
use billiard.Heap.Sound.{Sound, live, inside, in_length, or_right}
use billiard.Heap.Merges.{live_free}
use billiard.Heap.Fits.{Found, bisect_left-found, fit-Found}

pub roundup_le : (n alignment : ℕ) → 0 < alignment → n ≤ roundup n alignment
unfolding roundup
roundup_le n alignment p = grind arith

get_elem?-append :
    (xs : List ℕ) (y a : ℕ)
    → get_elem? (xs ++ y ∷ []) a ≡ (if length xs == a then some y else get_elem? xs a)
get_elem?-append [] y zero = refl
get_elem?-append [] y (suc a) = ground arith
get_elem?-append (x ∷ xs) y zero = ground arith
get_elem?-append (x ∷ xs) y (suc a) = let h = get_elem?-append xs y a in ground (arith, h)

get_elem?-length : (xs : List ℕ) → get_elem? xs (length xs) ≡ none
get_elem?-length [] = refl
get_elem?-length (x ∷ xs) = get_elem?-length xs

grown : (b c : Bool) → b ≡ true → ((b && c) || false) ≡ c
grown true true h = refl
grown true false h = refl
grown false c h = absurd (false≢true h)

-- The bytes of one more arena.
inside-append :
    (arenas : List ℕ) (y a x : ℕ)
    → inside (arenas ++ y ∷ []) a x
      ≡ (covers (record { arena = length arenas; start = 0; stop = y }) a x || inside arenas a x)
inside-append arenas y a x =
    ap (in_length x) (get_elem?-append arenas y a)
    ∙ at_test (length arenas == a) (get_elem? arenas a)
        (λ e. sym (ap (get_elem? arenas) (eq_of (length arenas) a e)) ∙ get_elem?-length arenas)
  where
    at_test :
        (e : Bool) (o : Option ℕ)
        → (e ≡ true → o ≡ none)
        → in_length x (if e then some y else o) ≡ ((e && (leb 0 x && ltb x y)) || in_length x o)
    at_test false o h = refl
    at_test true o h = sym (
        ap (λ v. (leb 0 x && ltb x y) || in_length x v) (h refl)
        ∙ grown (leb 0 x) (ltb x y) (ground arith))

live_more : (s fr hd : Bool) → (if s then true else fr || hd) ≡ (fr || (if s then true else hd))
live_more true fr hd = sym (or_right fr true refl)
live_more false fr hd = refl

arena-Found :
    (held : Block → Bool) (page n : ℕ) (h : Heap)
    → Sound held h
    → 0 < page
    → 0 < n
    → Found held n h (some (arena_block page n h, grow page n h))
arena-Found held page n h s p q = record {
  block = arena_block page n h;
  heap = grow page n h;
  is_result = refl;
  sound = record {
    maps = s.maps;
    sorted = s.sorted;
    tiles =
        Tiles-same
          (Tiles-more s.tiles b full (λ a x i. outside a x i.arena)
            (inside-append h.arenas (roundup (max h.size n) page)))
          (λ c. live_more (same b c) (is_free h.start_to_block c) (held c));
    not_free = λ c.
        if_intro (λ x. x ≡ true → is_free h.start_to_block c ≡ false) (same b c)
          (λ e k. subst (λ d. is_free h.start_to_block d ≡ false) (same_eq b c e) new_block)
          (λ e k. s.not_free c k);
  };
  large = omega (arith, wide);
  not_held = refute (held b) (λ k. no_byte (or_right (is_free h.start_to_block b) (held b) k));
  allocated = refl;
  pending = refl;
}
  where
    b : Block
    b = arena_block page n h

    wide : n ≤ roundup (max h.size n) page
    wide = let r = roundup_le (max h.size n) page p in omega (arith, r)

    full : 0 < roundup (max h.size n) page
    full = let r = roundup_le (max h.size n) page p in omega (arith, r, q)

    outside : (a x : ℕ) → length h.arenas ≡ a → inside h.arenas a x ≡ false
    outside a x e = ap (in_length x) (ap (get_elem? h.arenas) (sym e) ∙ get_elem?-length h.arenas)

    no_byte : live h.start_to_block held (arena_block page n h) ≡ true → ⊥
    no_byte l =
        clash
          (inside_live (length h.arenas) 0 (arena_block page n h) s.tiles l
            (record { arena = refl; low = omega arith; high = full }))
          (outside (length h.arenas) 0 refl)

    new_block : is_free h.start_to_block (arena_block page n h) ≡ false
    new_block =
        refute (is_free h.start_to_block (arena_block page n h))
          (λ f. no_byte (live_free held h (arena_block page n h) f))

pub malloc_block-Found :
    (held : Block → Bool) (page n : ℕ) (h : Heap)
    → Sound held h
    → 0 < page
    → 0 < n
    → Found held n h (malloc_block page n h)
unfolding malloc_block
malloc_block-Found held page n h s p q =
    if_intro (Found held n h) (bisect_left h.lengths n == length h.lengths)
      (λ e. arena-Found held page n h s p q)
      (λ e.
        let (l, el, le) = bisect_left-found h.lengths n e in
        fit-Found held n (bisect_left h.lengths n) l h s el le)
