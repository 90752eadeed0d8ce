-- ===== src/Heap/Cuts.antt =====
-- The end of `malloc`: the start of the block is handed out, and the rest is freed.
use billiard.Prelude.{
  ℕ, ◌+◌, ◌≤◌, ◌<◌, ◌≡◌, refl, sym, ap, subst, ◌∙◌, Bool, true, false, not, ◌&&◌, ◌||◌, some, ltb,
  ltb→lt, if◌then◌else◌, if_intro, inl, inr, arith,
}
use billiard.Heap.{Block, same, Heap, len, free_block}
use billiard.Heap.Alloc.{ok}
use billiard.Heap.Alloc.{Outcome, block_of, rest_of, hand_out, set_block, cut}
use billiard.Heap.Maps.{is_free}
use billiard.Heap.Sets.{same_eq, other, also}
use billiard.Heap.Bools.{refute, clash}
use billiard.Heap.Tiles.{In, Tiles-same, Tiles-disjoint}
use billiard.Heap.Joins.{Tiles-split}
use billiard.Heap.Sets.{also_new, also_old, also_either, other_is}
use billiard.Heap.Sound.{Sound, or_right}
use billiard.Heap.Merges.{Sound-same, live_held, held_apart}
use billiard.Heap.Frees.{Freed, free_block-Freed}

abbrev pub Good : Heap → Type 0
Good h = Sound h.allocated_blocks h

split_live :
    (sn sm sb fr hd : Bool)
    → (sb ≡ true → fr ≡ false)
    → (if sn then true else if sm then true else (fr || hd) && not sb)
      ≡ (fr || (if sn then true else if sm then true else hd && not sb))
split_live true sm sb fr hd f = sym (or_right fr true refl)
split_live false true sb fr hd f = sym (or_right fr true refl)
split_live false false true fr hd f = ground (arith, f refl)
split_live false false false true hd f = refl
split_live false false false false hd f = refl

Sound-split :
    (held : Block → Bool) (b : Block) (k : ℕ) (h : Heap)
    → Sound held h
    → held b ≡ true
    → b.start < k
    → k < b.stop
    → let n = record b { stop = k } in
      let m = record b { start = k } in Sound (also n (also m (other b held))) h
Sound-split held b k h s kb lo hi = record {
  maps = s.maps;
  sorted = s.sorted;
  tiles = Tiles-same (Tiles-split s.tiles b k (live_held held h b kb) lo hi) (λ c.
      split_live (same (record b { stop = k }) c) (same (record b { start = k }) c) (same b c)
        (is_free h.start_to_block c) (held c)
        (λ e. subst (λ d. is_free h.start_to_block d ≡ false) (same_eq b c e) (s.not_free b kb)));
  not_free = λ c l.
      elim (also_either (record b { stop = k }) (also (record b { start = k }) (other b held)) c
        l) [
          | inl e ↦
              subst (λ d. is_free h.start_to_block d ≡ false) e
                (refute (is_free h.start_to_block (record b { stop = k })) (λ f.
                  held_apart b.arena b.start b (record b { stop = k }) s kb f
                    (record { arena = refl; low = omega arith; high = omega (arith, lo, hi) })
                    (record { arena = refl; low = omega arith; high = lo })))
          | inr l' ↦ elim (also_either (record b { start = k }) (other b held) c l') [
            | inl e ↦
                subst (λ d. is_free h.start_to_block d ≡ false) e
                  (refute (is_free h.start_to_block (record b { start = k })) (λ f.
                    held_apart b.arena k b (record b { start = k }) s kb f
                      (record { arena = refl; low = omega (arith, lo); high = hi })
                      (record { arena = refl; low = omega arith; high = hi })))
            | inr o ↦ s.not_free c (other_is b held c o).0
          ]
        ];
}

regroup :
    (sn sm sb k : Bool)
    → (sb ≡ true → k ≡ false)
    → (if sn then true else if sm then true else (if sb then true else k) && not sb)
      ≡ (if sm then true else if sn then true else k)
regroup true true sb k f = refl
regroup true false sb k f = refl
regroup false true sb k f = refl
regroup false false true k f = sym (f refl)
regroup false false false true f = refl
regroup false false false false f = refl

-- The tables do not depend on which blocks are allocated.
pub Sound-allocated :
    {held : Block → Bool} (allocated : Block → Bool) (h : Heap)
    → Sound held h
    → Sound held (record h { allocated_blocks = allocated })
Sound-allocated allocated h s = record {
  maps = s.maps;
  sorted = s.sorted;
  tiles = s.tiles;
  not_free = s.not_free;
}

-- A block that was handed out.
pub record Handed (n : ℕ) (h : Heap) (o : Outcome Block) : Type 0 where
  pub block : Block
  pub heap : Heap
  pub is_result : o ≡ ok block heap
  pub good : Good heap
  pub exact : len block ≡ n
  pub fresh : h.allocated_blocks block ≡ false
  pub added : (c : Block) → heap.allocated_blocks c ≡ also block h.allocated_blocks c
  pub pending : heap.pending_free_blocks ≡ h.pending_free_blocks

-- No other held block has the bytes of a held one.
held_alone :
    (held : Block → Bool) (a x : ℕ) (b c : Block) (g : Heap)
    → Sound (also b held) g
    → held b ≡ false
    → In b a x
    → In c a x
    → held c ≡ false
held_alone held a x b c g s k i j = refute (held c) (λ m. clash m (
    subst (λ d. held d ≡ false)
      (Tiles-disjoint a x b c s.tiles (live_held (also b held) g b (also_new b held))
        (live_held (also b held) g c (also_old b held c m)) i j)
      k))

module _ (n : ℕ) (h : Heap) (b : Block) (g : Heap) (s : Sound (also b h.allocated_blocks) g)
    (k : h.allocated_blocks b ≡ false) (q : 0 < n) (le : n ≤ len b)
    (ea : g.allocated_blocks ≡ h.allocated_blocks)
    (ep : g.pending_free_blocks ≡ h.pending_free_blocks) where
  full : b.start < b.stop
  full =
      s.tiles.not_empty b
        (live_held (also b h.allocated_blocks) g b (also_new b h.allocated_blocks))

  fresh_start : h.allocated_blocks (block_of n b) ≡ false
  fresh_start =
      held_alone h.allocated_blocks b.arena b.start b (block_of n b) g s k
        (record { arena = refl; low = omega arith; high = full })
        (record { arena = refl; low = omega arith; high = omega (arith, q) })

  hand_out-Handed :
      (r : Heap)
      → Sound (also (block_of n b) h.allocated_blocks) r
      → r.allocated_blocks ≡ h.allocated_blocks
      → r.pending_free_blocks ≡ h.pending_free_blocks
      → Handed n h (hand_out (block_of n b) (some r))
  hand_out-Handed r t e p = record {
    block = block_of n b;
    heap = record r { allocated_blocks = set_block (block_of n b) true r.allocated_blocks };
    is_result = refl;
    good =
        Sound-allocated (set_block (block_of n b) true r.allocated_blocks) r
          (Sound-same t (λ c. ap (λ f. also (block_of n b) f c) (sym e)));
    exact = omega arith;
    fresh = fresh_start;
    added = λ c. ap (λ f. also (block_of n b) f c) e;
    pending = p;
  }

  cut_rest :
      b.start + n < b.stop → Handed n h (hand_out (block_of n b) (free_block (rest_of n b) g))
  cut_rest lt =
      let f : Freed (also (block_of n b) h.allocated_blocks) g (free_block (rest_of n b) g) =
        free_block-Freed (also (block_of n b) h.allocated_blocks) (rest_of n b) g
          (Sound-same
            (Sound-split (also b h.allocated_blocks) b (b.start + n) g s
              (also_new b h.allocated_blocks) (omega (arith, q)) lt)
            (λ c.
              regroup (same (block_of n b) c) (same (rest_of n b) c) (same b c)
                (h.allocated_blocks c)
                (λ e. subst (λ d. h.allocated_blocks d ≡ false) (same_eq b c e) k)))
          not_start in
      subst (λ o. Handed n h (hand_out (block_of n b) o)) (sym f.is_result)
        (hand_out-Handed f.result f.sound (f.rest.allocated ∙ ea) (f.rest.pending ∙ ep))
    where
      not_start : also (block_of n b) h.allocated_blocks (rest_of n b) ≡ false
      not_start = refute (also (block_of n b) h.allocated_blocks (rest_of n b)) (λ l.
          elim (also_either (block_of n b) h.allocated_blocks (rest_of n b) l) [
            | inl e ↦ let z = ap (λ (d : Block). d.start) e in absurd (omega (arith, z, q))
            | inr m ↦ clash m (
                held_alone h.allocated_blocks b.arena (b.start + n) b (rest_of n b) g s k
                  (record { arena = refl; low = omega arith; high = lt })
                  (record { arena = refl; low = omega arith; high = lt }))
          ])

  cut_whole : ltb (b.start + n) b.stop ≡ false → Handed n h (hand_out (block_of n b) (some g))
  cut_whole e = hand_out-Handed g (subst (λ d. Sound (also d h.allocated_blocks) g) whole s) ea ep
    where
      whole : b ≡ block_of n b
      whole = let f = full in ap (λ (t : ℕ). record b { stop = t }) (ground (arith, e, le, f))

  pub cut-Handed : Handed n h (cut n (some (b, g)))
  unfolding cut
  cut-Handed =
      if_intro (λ o. Handed n h (hand_out (block_of n b) o)) (ltb (b.start + n) b.stop)
        (λ e. cut_rest (ltb→lt (b.start + n) b.stop e)) (λ e. cut_whole e)
