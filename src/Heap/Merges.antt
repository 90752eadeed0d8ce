-- ===== src/Heap/Merges.antt =====
-- Joining two held blocks, and the merging of a held block with its free neighbours.
use billiard.Prelude.{
  ℕ, ◌<◌, ◌≡◌, refl, sym, ap, subst, ◌∙◌, Bool, true, false, not, ◌&&◌, ◌||◌, Option, none, some,
  if◌then◌else◌, if_intro, arith,
}
use billiard.Heap.{Block, same, Heap, join, merged, absorb, merge_prev, merge_next}
use billiard.Heap.Maps.{is_free, found_free}
use billiard.Heap.Sets.{same_eq, other, also}
use billiard.Heap.Bools.{and_left, refute, clash}
use billiard.Heap.Tiles.{In, Tiles-same, Tiles-disjoint}
use billiard.Heap.Joins.{Tiles-join}
use billiard.Heap.Sets.{also_new, also_old}
use billiard.Heap.Sound.{Sound, SameRest, live, or_left, or_right}
use billiard.Heap.Takes.{Taken, absorb-Taken, SameRest-refl}

pub Sound-same :
    {held held' : Block → Bool} {h : Heap}
    → Sound held h
    → ((b : Block) → held b ≡ held' b)
    → Sound held' h
Sound-same {h = h} s e = record {
  maps = s.maps;
  sorted = s.sorted;
  tiles = Tiles-same s.tiles (λ b. ap (λ x. is_free h.start_to_block b || x) (e b));
  not_free = λ b k. s.not_free b (e b ∙ k);
}

pub live_held :
    (held : Block → Bool) (h : Heap) (b : Block)
    → held b ≡ true
    → live h.start_to_block held b ≡ true
live_held held h b k = or_right (is_free h.start_to_block b) (held b) k

pub live_free :
    (held : Block → Bool) (h : Heap) (b : Block)
    → is_free h.start_to_block b ≡ true
    → live h.start_to_block held b ≡ true
live_free held h b k = or_left (is_free h.start_to_block b) (held b) k

-- A held block and a free one have no byte in common.
pub held_apart :
    {held : Block → Bool} {h : Heap} (a x : ℕ) (b c : Block)
    → Sound held h
    → held b ≡ true
    → is_free h.start_to_block c ≡ true
    → In b a x
    → In c a x
    → ⊥
held_apart {held = held} {h = h} a x b c s k f i j = clash f (
    subst (λ d. is_free h.start_to_block d ≡ false)
      (Tiles-disjoint a x b c s.tiles (live_held held h b k) (live_free held h c f) i j)
      (s.not_free b k))

joined :
    (sj sp sq fr hd : Bool)
    → (sp ≡ true → fr ≡ false)
    → (sq ≡ true → fr ≡ false)
    → (if sj then true else ((fr || hd) && not sq) && not sp)
      ≡ (fr || (if sj then true else (hd && not sq) && not sp))
joined true sp sq fr hd f g = sym (or_right fr true refl)
joined false true sq fr hd f g = ground (arith, f refl)
joined false false true fr hd f g = ground (arith, g refl)
joined false false false true hd f g = refl
joined false false false false hd f g = refl

-- Two held blocks side by side become one.
pub Sound-join :
    (held : Block → Bool) (p q : Block) (h : Heap)
    → Sound held h
    → held p ≡ true
    → held q ≡ true
    → p.arena ≡ q.arena
    → p.stop ≡ q.start
    → Sound (also (join p q) (other p (other q held))) h
Sound-join held p q h s kp kq ea es = record {
  maps = s.maps;
  sorted = s.sorted;
  tiles =
      Tiles-same (Tiles-join s.tiles p q (live_held held h p kp) (live_held held h q kq) ea es)
        (λ c.
          joined (same (join p q) c) (same p c) (same q c) (is_free h.start_to_block c) (held c)
            (λ e. no_free p c kp (same_eq p c e)) (λ e. no_free q c kq (same_eq q c e)));
  not_free = λ c.
      if_intro (λ x. x ≡ true → is_free h.start_to_block c ≡ false) (same (join p q) c)
        (λ e k.
          subst (λ d. is_free h.start_to_block d ≡ false) (same_eq (join p q) c e) joined_not_free)
        (λ e k.
          s.not_free c
            (and_left (held c) (not (same q c)) (and_left (held c && not (same q c)) _ k)));
}
  where
    no_free : (b c : Block) → held b ≡ true → b ≡ c → is_free h.start_to_block c ≡ false
    no_free b c k e = subst (λ d. is_free h.start_to_block d ≡ false) e (s.not_free b k)

    joined_not_free : is_free h.start_to_block (join p q) ≡ false
    joined_not_free =
        let fp = s.tiles.not_empty p (live_held held h p kp) in
        let fq = s.tiles.not_empty q (live_held held h q kq) in
        refute (is_free h.start_to_block (join p q)) (λ f.
          held_apart p.arena p.start p (join p q) s kp f
            (record { arena = refl; low = omega arith; high = fp })
            (record { arena = refl; low = omega arith; high = omega (arith, fp, fq, es) }))

dropped_prev :
    (sJ sn sj k : Bool)
    → (sn ≡ true → k ≡ false)
    → (sj ≡ true → k ≡ false)
    → (if sJ then true else ((if sn then true else if sj then true else k) && not sj) && not sn)
      ≡ (if sJ then true else k)
dropped_prev true sn sj k f g = refl
dropped_prev false true sj k f g = ground (arith, f refl)
dropped_prev false false true k f g = sym (g refl)
dropped_prev false false false true f g = refl
dropped_prev false false false false f g = refl

dropped_next :
    (sJ sn sj k : Bool)
    → (sn ≡ true → k ≡ false)
    → (sj ≡ true → k ≡ false)
    → (if sJ then true else ((if sn then true else if sj then true else k) && not sn) && not sj)
      ≡ (if sJ then true else k)
dropped_next true sn sj k f g = refl
dropped_next false true sj k f g = ground (arith, f refl)
dropped_next false false true k f g = sym (g refl)
dropped_next false false false true f g = refl
dropped_next false false false false f g = refl

-- The block that is to be free, with what it has absorbed so far; `others` are the other held blocks.
pub record Merging (others : Block → Bool) (h : Heap) (o : Option (Block × Heap)) : Type 0 where
  pub block : Block
  pub heap : Heap
  pub is_result : o ≡ some (block, heap)
  pub sound : Sound (also block others) heap
  pub not_other : others block ≡ false
  pub rest : SameRest h heap

-- A free block is not among the held ones, nor does any of these have its bytes.
module _ (others : Block → Bool) (b : Block) (h : Heap) (s : Sound (also b others) h) where
  apart_free :
      (n : Block) → is_free h.start_to_block n ≡ true → (c : Block) → n ≡ c → others c ≡ false
  apart_free n f c e = refute (others c) (λ k. clash f (
      subst (λ d. is_free h.start_to_block d ≡ false) (sym e)
        (s.not_free c (also_old b others c k))))

  overlap_free :
      (n j : Block) (a x : ℕ)
      → is_free h.start_to_block n ≡ true
      → In n a x
      → In j a x
      → others j ≡ false
  overlap_free n j a x f i k =
      refute (others j) (λ m. held_apart a x j n s (also_old b others j m) f k i)

  full_free : (n : Block) → is_free h.start_to_block n ≡ true → n.start < n.stop
  full_free n f = s.tiles.not_empty n (live_free (also b others) h n f)

  full_held : b.start < b.stop
  full_held = s.tiles.not_empty b (live_held (also b others) h b (also_new b others))

  pub merge_prev-Merging :
      (o : Option Block)
      → others b ≡ false
      → h.stop_to_block b.arena b.start ≡ o
      → Merging others h (merge_prev o b h)
  unfolding merge_prev
  merge_prev-Merging none k e = record {
    block = b;
    heap = h;
    is_result = refl;
    sound = s;
    not_other = k;
    rest = SameRest-refl h;
  }
  merge_prev-Merging (some p) k e =
      let (ea, es, f) = s.maps.key_stop b.arena b.start p e in
      let t : Taken (also b others) p h (absorb p h) = absorb-Taken (also b others) p h s f in
      record {
        block = join p b;
        heap = t.result;
        is_result = ap (merged (join p b)) t.is_result;
        sound =
            Sound-same
              (Sound-join (also p (also b others)) p b t.result t.sound (also_new p (also b others))
                (also_old p (also b others) b (also_new b others)) ea es)
              (λ c.
                dropped_prev (same (join p b) c) (same p c) (same b c) (others c)
                  (λ q. apart_free p f c (same_eq p c q))
                  (λ q. subst (λ d. others d ≡ false) (same_eq b c q) k));
        not_other =
            let fp = full_free p f in
            let fb = full_held in
            overlap_free p (join p b) p.arena p.start f
              (record { arena = refl; low = omega arith; high = fp })
              (record { arena = refl; low = omega arith; high = omega (arith, fp, fb, es) });
        rest = t.rest;
      }

  pub merge_next-Merging :
      (o : Option Block)
      → others b ≡ false
      → h.start_to_block b.arena b.stop ≡ o
      → Merging others h (merge_next o b h)
  unfolding merge_next
  merge_next-Merging none k e = record {
    block = b;
    heap = h;
    is_result = refl;
    sound = s;
    not_other = k;
    rest = SameRest-refl h;
  }
  merge_next-Merging (some n) k e =
      let (ea, es) = s.maps.key_start b.arena b.stop n e in
      let f = found_free b.arena b.stop n s.maps e in
      let t : Taken (also b others) n h (absorb n h) = absorb-Taken (also b others) n h s f in
      record {
        block = join b n;
        heap = t.result;
        is_result = ap (merged (join b n)) t.is_result;
        sound =
            Sound-same
              (Sound-join (also n (also b others)) b n t.result t.sound
                (also_old n (also b others) b (also_new b others)) (also_new n (also b others))
                (sym ea) (sym es))
              (λ c.
                dropped_next (same (join b n) c) (same n c) (same b c) (others c)
                  (λ q. apart_free n f c (same_eq n c q))
                  (λ q. subst (λ d. others d ≡ false) (same_eq b c q) k));
        not_other =
            let fn = full_free n f in
            let fb = full_held in
            overlap_free n (join b n) n.arena n.start f
              (record { arena = refl; low = omega arith; high = fn })
              (record { arena = sym ea; low = omega (arith, fb, es); high = fn });
        rest = t.rest;
      }
