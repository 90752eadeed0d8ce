-- ===== src/Heap/Frees.antt =====
-- `_free` succeeds for a held block, and the other held blocks stay as they are.
use billiard.Prelude.{
  ◌-◌, ◌<◌, ◌≡◌, refl, sym, ap, subst, ◌∙◌, Bool, true, false, ◌||◌, Option, none, some,
  Option-cases, List, if◌then◌else◌, if_intro, inl, inr, arith,
}
use billiard.Heap.{
  Block, same, Heap, len, place, append_to, register, register_merged, after_prev, merge_prev,
  merge_next, free_block,
}
use billiard.Heap.Maps.{Maps, Maps-put, is_free, is_free-put, found_free}
use billiard.Heap.Sets.{same_eq, also}
use billiard.Heap.Bools.{clash}
use billiard.Heap.Tiles.{Tiles, Tiles-same}
use billiard.Heap.Sets.{also_new, also_old}
use billiard.Heap.Seqs.{Sorted, Sorted-put}
use billiard.Heap.Sound.{Sound, SameRest, live, inside, Sorted-same, or_right}
use billiard.Heap.Takes.{SameRest-trans}
use billiard.Heap.Merges.{
  held_apart, live_held, live_free, Merging, merge_prev-Merging, merge_next-Merging,
}

live_put : (s fr k : Bool) → (fr || (if s then true else k)) ≡ ((if s then true else fr) || k)
live_put true fr k = or_right fr true refl
live_put false fr k = refl

module _ (others : Block → Bool) (b : Block) (h : Heap) (s : Sound (also b others) h) where
  full : b.start < b.stop
  full = s.tiles.not_empty b (live_held (also b others) h b (also_new b others))

  start_unused : h.start_to_block b.arena b.start ≡ none
  start_unused = elim (Option-cases (h.start_to_block b.arena b.start)) [
    | inl e ↦ e
    | inr (c, e) ↦
        let (ea, es) = s.maps.key_start b.arena b.start c e in
        let f = found_free b.arena b.start c s.maps e in
        let fc = s.tiles.not_empty c (live_free (also b others) h c f) in
        absurd (
          held_apart b.arena b.start b c s (also_new b others) f
            (record { arena = refl; low = omega arith; high = full })
            (record { arena = ea; low = omega (arith, es); high = omega (arith, es, fc) }))
  ]

  stop_unused : h.stop_to_block b.arena b.stop ≡ none
  stop_unused = elim (Option-cases (h.stop_to_block b.arena b.stop)) [
    | inl e ↦ e
    | inr (c, e) ↦
        let (ea, es, f) = s.maps.key_stop b.arena b.stop c e in
        let fc = s.tiles.not_empty c (live_free (also b others) h c f) in
        let fb = full in
        absurd (
          held_apart b.arena (b.stop - 1) b c s (also_new b others) f
            (record { arena = refl; low = omega (arith, fb); high = omega (arith, fb) })
            (record { arena = ea; low = omega (arith, es, fc, fb); high = omega (arith, es, fb) }))
  ]

  put-Sound :
      (g : Heap)
      → others b ≡ false
      → g.start_to_block ≡ place b.arena b.start (some b) h.start_to_block
      → g.stop_to_block ≡ place b.arena b.stop (some b) h.stop_to_block
      → Sorted (also b (is_free h.start_to_block)) g.len_to_seq g.lengths
      → g.arenas ≡ h.arenas
      → Sound others g
  put-Sound g k es et w ea = record {
    maps =
        subst (λ x. Maps x g.stop_to_block) (sym es)
          (subst (Maps (place b.arena b.start (some b) h.start_to_block)) (sym et)
            (Maps-put b s.maps start_unused stop_unused));
    sorted = Sorted-same g w (λ c. sym (free_at c));
    tiles =
        subst (λ x. Tiles (inside x) (live g.start_to_block others)) (sym ea)
          (Tiles-same s.tiles (λ c.
            live_put (same b c) (is_free h.start_to_block c) (others c)
            ∙ ap (λ x. x || others c) (sym (free_at c))));
    not_free = λ c o.
        free_at c
        ∙ if_intro (λ x. x ≡ false) (same b c)
            (λ e. absurd (clash o (subst (λ d. others d ≡ false) (same_eq b c e) k)))
            (λ e. s.not_free c (also_old b others c o));
  }
    where
      free_at : (c : Block) → is_free g.start_to_block c ≡ also b (is_free h.start_to_block) c
      free_at c = ap (λ x. is_free x c) es ∙ is_free-put h.start_to_block b c start_unused

  -- What the end of `_free` makes of the list of the length.
  registered : Option (List Block) → Heap
  registered o =
      let g = append_to (len b) b o h in
      record g {
        start_to_block = place b.arena b.start (some b) g.start_to_block;
        stop_to_block = place b.arena b.stop (some b) g.stop_to_block;
      }

  registered-Sound :
      (o : Option (List Block))
      → others b ≡ false
      → h.len_to_seq (len b) ≡ o
      → Sound others (registered o) × SameRest h (registered o)
  unfolding registered
  registered-Sound none k e = (
    put-Sound (registered none) k refl refl
        (Sorted-put (is_free h.start_to_block) b h none s.sorted (s.not_free b (also_new b others))
          e)
        refl,
    record { arenas = refl; allocated = refl; pending = refl; pid = refl },
  )
  registered-Sound (some seq) k e = (
    put-Sound (registered (some seq)) k refl refl
        (Sorted-put (is_free h.start_to_block) b h (some seq) s.sorted
          (s.not_free b (also_new b others)) e)
        refl,
    record { arenas = refl; allocated = refl; pending = refl; pid = refl },
  )

  register-Sound : others b ≡ false → Sound others (register b h) × SameRest h (register b h)
  unfolding register registered
  register-Sound k = registered-Sound (h.len_to_seq (len b)) k refl

-- A heap that comes out, with the given blocks held.
pub record Freed (held : Block → Bool) (h : Heap) (o : Option Heap) : Type 0 where
  pub result : Heap
  pub is_result : o ≡ some result
  pub sound : Sound held result
  pub rest : SameRest h result

pub free_block-Freed :
    (others : Block → Bool) (b : Block) (h : Heap)
    → Sound (also b others) h
    → others b ≡ false
    → Freed others h (free_block b h)
unfolding free_block
free_block-Freed others b h s k =
    let p : Merging others h (merge_prev (h.stop_to_block b.arena b.start) b h) =
      merge_prev-Merging others b h s (h.stop_to_block b.arena b.start) k refl in
    let n : Merging others p.heap
        (merge_next (p.heap.start_to_block p.block.arena p.block.stop) p.block p.heap) =
      merge_next-Merging others p.block p.heap p.sound
        (p.heap.start_to_block p.block.arena p.block.stop) p.not_other refl in
    let (r, t) = register-Sound others n.block n.heap n.sound n.not_other in
    record {
      result = register n.block n.heap;
      is_result =
          ap (λ o. register_merged (after_prev o)) p.is_result ∙ ap register_merged n.is_result;
      sound = r;
      rest = SameRest-trans p.rest (SameRest-trans n.rest t);
    }
