-- ===== src/Heap/Sound.antt =====
-- A heap whose free blocks are registered in every table, and tile the arenas with the blocks that are held.
use billiard.Prelude.{
  ℕ, ◌≡◌, refl, sym, ap, subst, ◌∙◌, Bool, true, false, false≢true, not, ◌&&◌, ◌||◌, Option, none,
  some, List, get_elem?, ltb, ◌==◌, if◌then◌else◌,
}
use billiard.Heap.{Block, same, Places, Heap, place, len}
use billiard.Heap.Maps.{Maps, Maps-take, is_free, is_free-take}
use billiard.Heap.Sets.{same_eq, other, also}
use billiard.Heap.Tiles.{Tiles, Tiles-same}
use billiard.Heap.Counts.{one_if}
use billiard.Heap.Seqs.{Sorted}

-- A byte of an arena.
abbrev pub in_length : ℕ → Option ℕ → Bool
in_length x none = false
in_length x (some length) = ltb x length

abbrev pub inside : List ℕ → ℕ → ℕ → Bool
inside arenas a x = in_length x (get_elem? arenas a)

abbrev pub live : Places → (Block → Bool) → Block → Bool
live starts held b = is_free starts b || held b

pub record Sound (held : Block → Bool) (h : Heap) : Type 0 where
  pub maps : Maps h.start_to_block h.stop_to_block
  pub sorted : Sorted (is_free h.start_to_block) h.len_to_seq h.lengths
  pub tiles : Tiles (inside h.arenas) (live h.start_to_block held)
  pub not_free : (b : Block) → held b ≡ true → is_free h.start_to_block b ≡ false

-- What the tables of the free blocks have nothing to do with.
pub record SameRest (h g : Heap) : Type 0 where
  pub arenas : g.arenas ≡ h.arenas
  pub allocated : g.allocated_blocks ≡ h.allocated_blocks
  pub pending : g.pending_free_blocks ≡ h.pending_free_blocks
  pub pid : g.last_pid ≡ h.last_pid

pub Sorted-same :
    {f g : Block → Bool} (h : Heap)
    → Sorted f h.len_to_seq h.lengths
    → ((b : Block) → f b ≡ g b)
    → Sorted g h.len_to_seq h.lengths
Sorted-same h w e = record {
  counted = λ l b. w.counted l b ∙ ap (λ x. one_if (x && (len b == l))) (e b);
  filled = w.filled;
  listed = w.listed;
  in_order = w.in_order;
}

pub or_left : (b c : Bool) → b ≡ true → (b || c) ≡ true
or_left true c h = refl
or_left false c h = absurd (false≢true h)

pub or_right : (b c : Bool) → c ≡ true → (b || c) ≡ true
or_right true c h = refl
or_right false c h = h

live_take :
    (s fr hd : Bool)
    → (s ≡ true → fr ≡ true)
    → (fr || hd) ≡ ((fr && not s) || (if s then true else hd))
live_take true fr hd h = ap (λ x. x || hd) (h refl) ∙ sym (or_right (fr && false) true refl)
live_take false true hd h = refl
live_take false false hd h = refl

taken_not_free :
    (s fr hd : Bool)
    → (hd ≡ true → fr ≡ false)
    → (if s then true else hd) ≡ true
    → (fr && not s) ≡ false
taken_not_free true true hd h k = refl
taken_not_free true false hd h k = refl
taken_not_free false fr hd h k = ap (λ x. x && true) (h k)

-- A free block that leaves the tables is held.
pub take-Sound :
    (held : Block → Bool) (b : Block) (h g : Heap)
    → Sound held h
    → is_free h.start_to_block b ≡ true
    → g.start_to_block ≡ place b.arena b.start none h.start_to_block
    → g.stop_to_block ≡ place b.arena b.stop none h.stop_to_block
    → Sorted (other b (is_free h.start_to_block)) g.len_to_seq g.lengths
    → g.arenas ≡ h.arenas
    → Sound (also b held) g
take-Sound held b h g s f es et w ea = record {
  maps =
      subst (λ x. Maps x g.stop_to_block) (sym es)
        (subst (Maps (place b.arena b.start none h.start_to_block)) (sym et)
          (Maps-take b s.maps f));
  sorted = Sorted-same g w (λ c. sym (free_at c));
  tiles =
      subst (λ x. Tiles (inside x) (live g.start_to_block (also b held))) (sym ea)
        (Tiles-same s.tiles (λ c.
          live_take (same b c) (is_free h.start_to_block c) (held c)
            (λ e. sym (ap (is_free h.start_to_block) (same_eq b c e)) ∙ f)
          ∙ ap (λ x. x || also b held c) (sym (free_at c))));
  not_free = λ c k.
      free_at c ∙ taken_not_free (same b c) (is_free h.start_to_block c) (held c) (s.not_free c) k;
}
  where
    free_at : (c : Block) → is_free g.start_to_block c ≡ other b (is_free h.start_to_block) c
    free_at c = ap (λ x. is_free x c) es ∙ is_free-take b c s.maps f
