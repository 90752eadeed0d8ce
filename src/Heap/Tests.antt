-- ===== src/Heap/Tests.antt =====
-- Runs of the heap with arenas of 16 bytes and more.
use billiard.Prelude.{ℕ, ◌≤◌, ◌≡◌, refl, ◌⊎◌, max, true, false, List, [], ◌∷◌, arith}
use billiard.Prelude.Int.{pos}
use billiard.Heap.{
  Block, Heap, len, init, roundup, bisect_left, insort, delete_at, remove_length, remove_block, pop,
  absorb, register, merge_prev, merge_next, free_block,
}
use billiard.Heap.Alloc.{ok}
use billiard.Heap.Alloc.{fit, malloc_block, release, free_pending, free, cut, allocate, malloc}
use billiard.Heap.Maps.{is_free}
use billiard.Heap.Sets.{also}
use billiard.Heap.Tiles.{In}
use billiard.Heap.Sound.{inside}
use billiard.Heap.Calls.{Call, mallocs, frees, History, step, run}
use billiard.Heap.Blocks.{run-tiled, malloc-fresh}

abbrev block : ℕ → ℕ → ℕ → Block
block a s t = record { arena = a; start = s; stop = t }

-- A second free of a block is a KeyError, and one with the lock held is put off.
abbrev calls : List Call
calls =
    mallocs 1 (pos 5)
    ∷ mallocs 1 (pos 8)
    ∷ mallocs 1 (pos 20)
    ∷ frees 1 false (block 0 0 8)
    ∷ frees 1 false (block 0 0 8)
    ∷ frees 1 true (block 1 0 24)
    ∷ mallocs 1 (pos 3)
    ∷ frees 1 false (block 0 8 16)
    ∷ []

abbrev start : History
start = record { heap = init 1 16; failed = false }

run_lengths : (run 16 100 calls start).heap.lengths ≡ 8 ∷ 32 ∷ []
unfolding run step init malloc allocate free free_pending release malloc_block fit cut free_block
    merge_prev merge_next absorb register pop remove_block remove_length delete_at insort
    bisect_left roundup
run_lengths = refl

run_pending : (run 16 100 calls start).heap.pending_free_blocks ≡ []
unfolding run step init malloc allocate free free_pending release malloc_block fit cut free_block
    merge_prev merge_next absorb register pop remove_block remove_length delete_at insort
    bisect_left roundup
run_pending = refl

run-tiled_example :
    let s = run 16 100 calls start in
    let h = s.heap in
    (s.failed ≡ false)
    × ((a x : ℕ) (b c : Block)
        → h.allocated_blocks b ≡ true
        → h.allocated_blocks c ≡ true
        → In b a x
        → In c a x
        → b ≡ c)
    × ((a x : ℕ) (b c : Block)
        → h.allocated_blocks b ≡ true
        → is_free h.start_to_block c ≡ true
        → In b a x
        → In c a x
        → ⊥)
    × ((a x : ℕ) (b : Block) → h.allocated_blocks b ≡ true → In b a x → inside h.arenas a x ≡ true)
    × ((a x : ℕ)
        → inside h.arenas a x ≡ true
        → (b : Block) × ((h.allocated_blocks b ≡ true) ⊎ (is_free h.start_to_block b ≡ true))
          × In b a x)
run-tiled_example = run-tiled 16 100 1 16 calls (omega arith)

malloc-fresh_example :
    let h = (run 16 100 calls start).heap in
    (b : Block) × (g : Heap) × (malloc 16 100 h.last_pid (pos 9) h ≡ ok b g)
    × (len b ≡ roundup (max 9 1) 8)
    × (9 ≤ len b)
    × (h.allocated_blocks b ≡ false)
    × ((c : Block) → g.allocated_blocks c ≡ also b h.allocated_blocks c)
malloc-fresh_example = malloc-fresh 16 100 1 16 9 calls (omega arith) (omega arith) run_pending
