-- ===== src/Heap/Fits.antt =====
-- `_malloc`: a free block that is large enough, or a new arena.
use billiard.Prelude.{
  ℕ, suc, ◌+◌, ◌≤◌, ◌<◌, ◌≡◌, refl, sym, ap, subst, ◌∙◌, Bool, true, false, not, ◌&&◌, Option, none,
  some, List, [], ◌∷◌, length, get_elem?, ltb, ◌==◌, if_intro, arith,
}
use billiard.Heap.{Block, same, Heap, len, is_some, delete_at, shorten, bisect_left, place}
use billiard.Heap.Alloc.{with_block, forget_in, fit_popped, fit_seq, fit_length, fit}
use billiard.Heap.Maps.{is_free, start_of}
use billiard.Heap.Sets.{same_self, also}
use billiard.Heap.Bools.{eq_of, eq_to, refute, clash}
use billiard.Heap.Counts.{
  one_if, count, count_length, pop-count, delete_at-count, delete_at-IsSorted,
}
use billiard.Heap.Seqs.{seq_of, is_nil}
use billiard.Heap.Sound.{Sound, take-Sound}
use billiard.Heap.Takes.{Shortened, shorten-Shortened, forgotten, forget-some}

pub bisect_left-found :
    (xs : List ℕ) (n : ℕ)
    → (bisect_left xs n == length xs) ≡ false
    → (l : ℕ) × (get_elem? xs (bisect_left xs n) ≡ some l) × (n ≤ l)
unfolding bisect_left
bisect_left-found [] n = λ e. absurd (ground (arith, e))
bisect_left-found (y ∷ ys) n =
    if_intro
      (λ i. (i == suc (length ys)) ≡ false → (l : ℕ) × (get_elem? (y ∷ ys) i ≡ some l) × (n ≤ l))
      (ltb y n) (λ t e. bisect_left-found ys n (ground (arith, e)))
      (λ t e. (y, refl, ground (arith, t)))

get_elem?-count : (i l : ℕ) (xs : List ℕ) → get_elem? xs i ≡ some l → 0 < count_length l xs
get_elem?-count i l xs e =
    let c = delete_at-count i l xs e l in let q = ap one_if (eq_to l l refl) in omega (arith, c, q)

some_of :
    (o : Option (List Block))
    → 0 < one_if (is_some o)
    → is_some o ≡ not (is_nil (seq_of o))
    → (c : Block) × (cs : List Block) × (o ≡ some (c ∷ cs))
some_of none p e = absurd (omega (arith, p))
some_of (some []) p e = absurd (cc)
some_of (some (c ∷ cs)) p e = (c, cs, refl)

both_true : (x y : Bool) → 0 < one_if (x && y) → (x ≡ true) × (y ≡ true)
both_true true true p = (refl, refl)
both_true true false p = absurd (omega (arith, p))
both_true false y p = absurd (omega (arith, p))

-- A block that was free and is now held.
pub record Found (held : Block → Bool) (n : ℕ) (h : Heap) (o : Option (Block × Heap)) : Type 0 where
  pub block : Block
  pub heap : Heap
  pub is_result : o ≡ some (block, heap)
  pub sound : Sound (also block held) heap
  pub large : n ≤ len block
  pub not_held : held block ≡ false
  pub allocated : heap.allocated_blocks ≡ h.allocated_blocks
  pub pending : heap.pending_free_blocks ≡ h.pending_free_blocks

fit_popped-Found :
    (held : Block → Bool) (n i l : ℕ) (b : Block) (rest seq : List Block) (h : Heap)
    → Sound held h
    → len b ≡ l
    → n ≤ l
    → is_free h.start_to_block b ≡ true
    → get_elem? h.lengths i ≡ some l
    → h.len_to_seq l ≡ some seq
    → ((d : Block) → count d rest + one_if (same b d) ≡ count d seq)
    → Found held n h (fit_popped i l (some (rest, b)) h)
fit_popped-Found held n i l b rest seq h s e le f ei eq cs =
    subst
      (λ m.
        n ≤ m
        → get_elem? h.lengths i ≡ some m
        → h.len_to_seq m ≡ some seq
        → Found held n h (fit_popped i m (some (rest, b)) h))
      e found le ei eq
  where
    found :
        n ≤ len b
        → get_elem? h.lengths i ≡ some (len b)
        → h.len_to_seq (len b) ≡ some seq
        → Found held n h (fit_popped i (len b) (some (rest, b)) h)
    found le' ei' eq' =
        let t : Shortened (is_free h.start_to_block) b h
            (shorten (len b) rest (some (delete_at i h.lengths)) h) =
          shorten-Shortened (is_free h.start_to_block) b rest (delete_at i h.lengths) h s.sorted
            (ap is_some eq') (λ c. cs c ∙ sym (ap (λ o. count c (seq_of o)) eq'))
            (delete_at-count i (len b) h.lengths ei')
            (delete_at-IsSorted i h.lengths s.sorted.in_order) in
        record {
          block = b;
          heap = forgotten b t.result;
          is_result =
              ap (λ o. with_block b (forget_in b o)) t.is_result
              ∙ ap (with_block b) (
                  forget-some held b t.result
                    (ap (λ g. g b.arena b.start) t.starts ∙ start_of h.start_to_block b f)
                    (ap (λ g. g b.arena b.stop) t.stops ∙ s.maps.has_stop b f));
          sound =
              take-Sound held b h (forgotten b t.result) s f
                (ap (place b.arena b.start none) t.starts) (ap (place b.arena b.stop none) t.stops)
                t.sorted t.rest.arenas;
          large = le';
          not_held = refute (held b) (λ k. clash f (s.not_free b k));
          allocated = t.rest.allocated;
          pending = t.rest.pending;
        }

pub fit-Found :
    (held : Block → Bool) (n i l : ℕ) (h : Heap)
    → Sound held h
    → get_elem? h.lengths i ≡ some l
    → n ≤ l
    → Found held n h (fit i h)
unfolding fit
fit-Found held n i l h s e le =
    let listed = s.sorted.listed l in
    let p = get_elem?-count i l h.lengths e in
    let (c, cs, q) = some_of (h.len_to_seq l) (omega (arith, listed, p)) (s.sorted.filled l) in
    let (rest, b, eb, f) = pop-count c cs in
    let (fr, lb) =
      both_true (is_free h.start_to_block b) (len b == l) (counted l c cs rest b q f) in
    let t : Found held n h (fit_popped i l (some (rest, b)) h) =
      fit_popped-Found held n i l b rest (c ∷ cs) h s (eq_of (len b) l lb) le fr e q f in
    record {
      block = t.block;
      heap = t.heap;
      is_result =
          ap (λ o. fit_length i o h) e
          ∙ ap (λ o. fit_seq i l o h) q
          ∙ ap (λ o. fit_popped i l o h) eb
          ∙ t.is_result;
      sound = t.sound;
      large = t.large;
      not_held = t.not_held;
      allocated = t.allocated;
      pending = t.pending;
    }
  where
    counted :
        (l : ℕ) (c : Block) (cs rest : List Block) (b : Block)
        → h.len_to_seq l ≡ some (c ∷ cs)
        → ((d : Block) → count d rest + one_if (same b d) ≡ count d (c ∷ cs))
        → 0 < one_if (is_free h.start_to_block b && (len b == l))
    counted l c cs rest b q f =
        let g = f b in
        let k = s.sorted.counted l b in
        let j = ap (λ o. count b (seq_of o)) q in
        let o = ap one_if (same_self b) in omega (arith, g, k, j, o)
