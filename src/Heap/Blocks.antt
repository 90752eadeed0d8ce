-- ===== src/Heap/Blocks.antt =====
-- What a heap promises of its blocks.
use billiard.Prelude.{
  ℕ, ◌≤◌, ◌<◌, ◌≡◌, refl, ap, ◌∙◌, ◌⊎◌, inl, inr, max, Bool, true, false, false≢true, not, ◌||◌,
  Option, none, some, List, [], lt→ltb, ◌==◌, if◌then◌else◌, arith,
}
use billiard.Prelude.Int.{pos}
use billiard.Heap.{Block, Heap, len, is_some, init, roundup}
use billiard.Heap.Alloc.{ok, assertion}
use billiard.Heap.Alloc.{then_do, free_pending, cut, malloc_block, allocate, malloc}
use billiard.Heap.Maps.{is_free}
use billiard.Heap.Sets.{also}
use billiard.Heap.Bools.{eq_to}
use billiard.Heap.Tiles.{In, Tiles-disjoint}
use billiard.Heap.Joins.{inside_live}
use billiard.Heap.Sound.{inside}
use billiard.Heap.Merges.{live_held, held_apart}
use billiard.Heap.Arenas.{roundup_le}
use billiard.Heap.Cuts.{Good, Handed}
use billiard.Heap.Calls.{Call, run, init-Good, run-Good, cut_found-Handed}

either : (b c : Bool) → (b || c) ≡ true → (c ≡ true) ⊎ (b ≡ true)
either true c h = inr refl
either false c h = inl h

some_owner : (o : Option Block) → is_some o ≡ true → (b : Block) × (o ≡ some b)
some_owner none h = absurd (false≢true h)
some_owner (some b) h = (b, refl)

-- However malloc and free are called, by whatever processes, with any sizes, with the lock held or not, and
-- also for blocks that are not allocated: no table of the heap ever lacks an entry that is looked up; two
-- allocated blocks with a byte in common are one; an allocated and a free block have none in common; each
-- byte of an allocated block is in an arena; and each byte of an arena is in an allocated or a free block,
-- so that nothing is lost.
pub run-tiled :
    (page maxsize pid size : ℕ) (calls : List Call)
    → 0 < page
    → let s = run page maxsize calls (record { heap = init pid size; failed = false }) in
      let h = s.heap in
      (s.failed ≡ false)
      × ((a x : ℕ) (b c : Block)
          → h.allocated_blocks b ≡ true
          → h.allocated_blocks c ≡ true
          → In b a x
          → In c a x
          → b ≡ c)
      × ((a x : ℕ) (b c : Block)
          → h.allocated_blocks b ≡ true
          → is_free h.start_to_block c ≡ true
          → In b a x
          → In c a x
          → ⊥)
      × ((a x : ℕ) (b : Block)
          → h.allocated_blocks b ≡ true
          → In b a x
          → inside h.arenas a x ≡ true)
      × ((a x : ℕ)
          → inside h.arenas a x ≡ true
          → (b : Block) × ((h.allocated_blocks b ≡ true) ⊎ (is_free h.start_to_block b ≡ true))
            × In b a x)
run-tiled page maxsize pid size calls p =
    let (g, e) =
      run-Good page maxsize calls (record { heap = init pid size; failed = false }) p
        (init-Good pid size) refl in
    let (u, v, w, z) =
      promised (run page maxsize calls (record { heap = init pid size; failed = false })).heap g in
    (e, u, v, w, z)
  where
    promised :
        (h : Heap)
        → Good h
        → ((a x : ℕ) (b c : Block)
            → h.allocated_blocks b ≡ true
            → h.allocated_blocks c ≡ true
            → In b a x
            → In c a x
            → b ≡ c)
          × ((a x : ℕ) (b c : Block)
              → h.allocated_blocks b ≡ true
              → is_free h.start_to_block c ≡ true
              → In b a x
              → In c a x
              → ⊥)
          × ((a x : ℕ) (b : Block)
              → h.allocated_blocks b ≡ true
              → In b a x
              → inside h.arenas a x ≡ true)
          × ((a x : ℕ)
              → inside h.arenas a x ≡ true
              → (b : Block) × ((h.allocated_blocks b ≡ true) ⊎ (is_free h.start_to_block b ≡ true))
                × In b a x)
    promised h g = (
      (λ a x b c kb kc i j.
          Tiles-disjoint a x b c g.tiles (live_held h.allocated_blocks h b kb)
            (live_held h.allocated_blocks h c kc) i j),
      (λ a x b c kb f i j. held_apart a x b c g kb f i j),
      (λ a x b kb i. inside_live a x b g.tiles (live_held h.allocated_blocks h b kb) i),
      (λ a x k.
          let (b, o) = some_owner (g.tiles.owner a x) (g.tiles.whole a x ∙ k) in
          let (l, i) = g.tiles.owned a x b o in
          (b, either (is_free h.start_to_block b) (h.allocated_blocks b) l, i)),
    )

malloc-now :
    (page maxsize n : ℕ) (h : Heap)
    → n < maxsize
    → h.pending_free_blocks ≡ []
    → malloc page maxsize h.last_pid (pos n) h
      ≡ cut (roundup (max n 1) 8) (malloc_block page (roundup (max n 1) 8) h)
unfolding malloc allocate free_pending
malloc-now page maxsize n h lt e =
    ap
      (λ b.
        if not b
        then assertion
        else allocate page n (if h.last_pid == h.last_pid then h else init h.last_pid page))
      (lt→ltb n maxsize lt)
    ∙ ap (λ b. allocate page n (if b then h else init h.last_pid page))
        (eq_to h.last_pid h.last_pid refl)
    ∙ ap
        (λ bs.
          then_do (free_pending bs h)
            (λ u g. cut (roundup (max n 1) 8) (malloc_block page (roundup (max n 1) 8) g)))
        e

-- In any heap that such calls lead to, with no block pending, malloc of a size that passes its test gives
-- the calling process a block that is not allocated yet, whose length is the size rounded up to a
-- multiple of 8, at least 8, and not below the size; it allocates this block and no other.
pub malloc-fresh :
    (page maxsize pid size n : ℕ) (calls : List Call)
    → 0 < page
    → n < maxsize
    → (run page maxsize calls
        (record { heap = init pid size; failed = false })).heap.pending_free_blocks
      ≡ []
    → let h = (run page maxsize calls (record { heap = init pid size; failed = false })).heap in
      (b : Block) × (g : Heap) × (malloc page maxsize h.last_pid (pos n) h ≡ ok b g)
      × (len b ≡ roundup (max n 1) 8)
      × (n ≤ len b)
      × (h.allocated_blocks b ≡ false)
      × ((c : Block) → g.allocated_blocks c ≡ also b h.allocated_blocks c)
malloc-fresh page maxsize pid size n calls p lt e =
    handed _
      (run-Good page maxsize calls (record { heap = init pid size; failed = false }) p
        (init-Good pid size) refl).0
      e
  where
    handed :
        (h : Heap)
        → Good h
        → h.pending_free_blocks ≡ []
        → (b : Block) × (g : Heap) × (malloc page maxsize h.last_pid (pos n) h ≡ ok b g)
          × (len b ≡ roundup (max n 1) 8)
          × (n ≤ len b)
          × (h.allocated_blocks b ≡ false)
          × ((c : Block) → g.allocated_blocks c ≡ also b h.allocated_blocks c)
    handed h g e =
        let d : Handed (roundup (max n 1) 8) h
            (cut (roundup (max n 1) 8) (malloc_block page (roundup (max n 1) 8) h)) =
          cut_found-Handed page n h g p in
        let r = roundup_le (max n 1) 8 (omega arith) in
        let x = d.exact in
        (
          d.block,
          d.heap,
          malloc-now page maxsize n h lt e ∙ d.is_result,
          d.exact,
          omega (arith, r, x),
          d.fresh,
          d.added,
        )
