-- ===== src/Heap/Alloc.antt =====
-- billiard/heap.py, the calls of `class Heap`: `_malloc`, `free` and `malloc`. The lock
-- of the heap is held by another or not, which is an argument of `free`.
use billiard.Prelude.{
  ℕ, ◌+◌, ◌*◌, max, Bool, true, false, not, Option, none, some, List, [], ◌∷◌, ◌++◌, length,
  get_elem?, ltb, ◌==◌, if◌then◌else◌,
}
use billiard.Prelude.Int.{ℤ, pos, negsuc}
use billiard.Heap.{
  Block, Heap, bisect_left, delete_at, forget, free_block, init, pop, roundup, same, shorten,
}

-- `_malloc`; none is an error inside, as in `absorb`.
abbrev pub with_block : Block → Option Heap → Option (Block × Heap)
with_block b none = none
with_block b (some h) = some (b, h)

abbrev pub forget_in : Block → Option Heap → Option Heap
forget_in b none = none
forget_in b (some h) = forget b h

abbrev pub fit_popped : ℕ → ℕ → Option (List Block × Block) → Heap → Option (Block × Heap)
fit_popped i l none h = none
fit_popped i l (some (rest, b)) h =
    with_block b (forget_in b (shorten l rest (some (delete_at i h.lengths)) h))

abbrev pub fit_seq : ℕ → ℕ → Option (List Block) → Heap → Option (Block × Heap)
fit_seq i l none h = none
fit_seq i l (some seq) h = fit_popped i l (pop seq) h

abbrev pub fit_length : ℕ → Option ℕ → Heap → Option (Block × Heap)
fit_length i none h = none
fit_length i (some l) h = fit_seq i l (h.len_to_seq l) h

unfoldable pub fit : ℕ → Heap → Option (Block × Heap)
unfolding delete_at pop
fit i h = fit_length i (get_elem? h.lengths i) h

abbrev pub arena_block : ℕ → ℕ → Heap → Block
arena_block page n h = record {
  arena = length h.arenas;
  start = 0;
  stop = roundup (max h.size n) page;
}

abbrev pub grow : ℕ → ℕ → Heap → Heap
grow page n h = record h {
  size = h.size * 2;
  arenas = h.arenas ++ roundup (max h.size n) page ∷ [];
}

unfoldable pub malloc_block : ℕ → ℕ → Heap → Option (Block × Heap)
unfolding fit bisect_left roundup
malloc_block page n h =
    if bisect_left h.lengths n == length h.lengths
    then some (arena_block page n h, grow page n h)
    else fit (bisect_left h.lengths n) h

-- A value, the KeyError of `_allocated_blocks.remove`, an assertion, or an error inside.
pub data Outcome (A : Type 0) : Type 0 where
  ok : A → Heap → Outcome A
  not_allocated : Heap → Outcome A
  assertion : Outcome A
  broken : Outcome A

abbrev pub set_block : Block → Bool → (Block → Bool) → Block → Bool
set_block b v f c = if same b c then v else f c

abbrev pub after_free : Option Heap → Outcome (Unit {0})
after_free none = broken
after_free (some h) = ok tt h

-- `self._allocated_blocks.remove(block)` and `self._free(block)`
unfoldable pub release : Block → Heap → Outcome (Unit {0})
unfolding free_block
release b h =
    if h.allocated_blocks b
    then after_free
        (free_block b (record h { allocated_blocks = set_block b false h.allocated_blocks }))
    else not_allocated h

abbrev pub then_do : {A B : Type 0} → Outcome A → (A → Heap → Outcome B) → Outcome B
then_do (ok a h) k = k a h
then_do (not_allocated h) k = not_allocated h
then_do assertion k = assertion
then_do broken k = broken

-- `_free_pending_blocks`; the list is held with its end first.
unfoldable pub free_pending : List Block → Heap → Outcome (Unit {0})
unfolding release
free_pending [] h = ok tt h
free_pending (b ∷ bs) h =
    then_do (release b (record h { pending_free_blocks = bs })) λ u g. free_pending bs g

-- `free`, where the lock may be held.
unfoldable pub free : ℕ → Bool → Block → Heap → Outcome (Unit {0})
unfolding free_pending release
free pid held b h =
    if not (pid == h.last_pid)
    then assertion
    else if held
    then ok tt (record h { pending_free_blocks = b ∷ h.pending_free_blocks })
    else then_do (free_pending h.pending_free_blocks h) λ u g. release b g

-- The end of `malloc`: the rest of a larger block is freed.
abbrev pub block_of : ℕ → Block → Block
block_of n b = record { arena = b.arena; start = b.start; stop = b.start + n }

abbrev pub rest_of : ℕ → Block → Block
rest_of n b = record { arena = b.arena; start = b.start + n; stop = b.stop }

abbrev pub hand_out : Block → Option Heap → Outcome Block
hand_out b none = broken
hand_out b (some h) = ok b (record h { allocated_blocks = set_block b true h.allocated_blocks })

unfoldable pub cut : ℕ → Option (Block × Heap) → Outcome Block
unfolding free_block
cut n none = broken
cut n (some (b, h)) =
    hand_out (block_of n b)
      (if ltb (b.start + n) b.stop then free_block (rest_of n b) h else some h)

-- From the test of the process on.
unfoldable pub allocate : ℕ → ℕ → Heap → Outcome Block
unfolding free_pending malloc_block roundup cut
allocate page size h =
    then_do (free_pending h.pending_free_blocks h)
      λ u g. cut (roundup (max size 1) 8) (malloc_block page (roundup (max size 1) 8) g)

-- `malloc`; in another process the heap begins anew, with arenas of a page.
unfoldable pub malloc : ℕ → ℕ → ℕ → ℤ → Heap → Outcome Block
unfolding allocate init
malloc page maxsize pid (negsuc n) h = assertion
malloc page maxsize pid (pos size) h =
    if not (ltb size maxsize)
    then assertion
    else allocate page size (if pid == h.last_pid then h else init pid page)
