-- ===== src/Heap.antt =====
-- billiard/heap.py, `class Heap`: blocks of memory in arenas. A dict is a function to Option, a set a function
-- to Bool, and an arena is its number in `_arenas`. What an arena is made of is outside of the model.
pub mod Alloc
pub mod Bools
pub mod Sets
pub mod Tiles
pub mod Maps
pub mod Joins
pub mod Counts
pub mod Seqs
pub mod Sound
pub mod Takes
pub mod Merges
pub mod Frees
pub mod Fits
pub mod Arenas
pub mod Cuts
pub mod Calls
pub mod Blocks
mod Tests
use billiard.Prelude.{
  ℕ, zero, suc, ◌+◌, ◌-◌, ◌*◌, ◌%◌, max, Bool, true, false, not, ◌&&◌, ◌||◌, Option, none, some,
  List, [], ◌∷◌, ◌++◌, length, get_elem?, ltb, leb, ◌==◌, if◌then◌else◌,
}
use billiard.Prelude.Int.{ℤ, pos, negsuc}

pub record Block : Type 0 where
  pub arena : ℕ
  pub start : ℕ
  pub stop : ℕ

abbrev pub same : Block → Block → Bool
same b c = (b.arena == c.arena) && ((b.start == c.start) && (b.stop == c.stop))

-- A dict with keys (arena, offset).
abbrev pub Places : Type 0
Places = ℕ → ℕ → Option Block

-- `_len_to_seq`
abbrev pub Seqs : Type 0
Seqs = ℕ → Option (List Block)

-- `arenas` has their lengths.
pub record Heap : Type 0 where
  pub last_pid : ℕ
  pub size : ℕ
  pub lengths : List ℕ
  pub len_to_seq : Seqs
  pub start_to_block : Places
  pub stop_to_block : Places
  pub allocated_blocks : Block → Bool
  pub arenas : List ℕ
  pub pending_free_blocks : List Block

-- `__init__`
unfoldable pub init : ℕ → ℕ → Heap
init pid size = record {
  last_pid = pid;
  size = size;
  lengths = [];
  len_to_seq = λ l. none;
  start_to_block = λ a s. none;
  stop_to_block = λ a t. none;
  allocated_blocks = λ b. false;
  arenas = [];
  pending_free_blocks = [];
}

-- `_roundup`: for a power of two, `& ~mask` takes the remainder away.
unfoldable pub roundup : ℕ → ℕ → ℕ
roundup n alignment = (n + (alignment - 1)) - (n + (alignment - 1)) % alignment

-- `bisect_left` and `insort`, for a list in order.
unfoldable pub bisect_left : List ℕ → ℕ → ℕ
bisect_left [] x = 0
bisect_left (y ∷ ys) x = let rest = bisect_left ys x in if ltb y x then suc rest else 0

unfoldable pub insort : ℕ → List ℕ → List ℕ
insort x [] = x ∷ []
insort x (y ∷ ys) = let rest = insort x ys in if ltb x y then x ∷ y ∷ ys else y ∷ rest

-- `del xs[i]`
unfoldable pub delete_at : ℕ → List ℕ → List ℕ
delete_at i [] = []
delete_at zero (x ∷ xs) = xs
delete_at (suc i) (x ∷ xs) = x ∷ delete_at i xs

-- `xs.remove(x)`; none is the ValueError.
abbrev pub keep_head : {A : Type 0} → A → Option (List A) → Option (List A)
keep_head x none = none
keep_head x (some xs) = some (x ∷ xs)

unfoldable pub remove_length : ℕ → List ℕ → Option (List ℕ)
remove_length x [] = none
remove_length x (y ∷ ys) =
    let rest = remove_length x ys in if y == x then some ys else keep_head y rest

unfoldable pub remove_block : Block → List Block → Option (List Block)
remove_block b [] = none
remove_block b (c ∷ cs) =
    let rest = remove_block b cs in if same c b then some cs else keep_head c rest

-- `seq.pop()`; none is the IndexError.
abbrev pub keep_first : Block → Option (List Block × Block) → Option (List Block × Block)
keep_first c none = none
keep_first c (some (cs, b)) = some (c ∷ cs, b)

unfoldable pub pop : List Block → Option (List Block × Block)
pop [] = none
pop (c ∷ []) = some ([], c)
pop (c ∷ d ∷ cs) = keep_first c (pop (d ∷ cs))

abbrev pub place : ℕ → ℕ → Option Block → Places → Places
place a s v f b t = if (a == b) && (s == t) then v else f b t

abbrev pub set_seq : ℕ → Option (List Block) → Seqs → Seqs
set_seq l v f m = if l == m then v else f m

abbrev pub len : Block → ℕ
len b = b.stop - b.start

abbrev pub is_some {ℓ} : {A : Type ℓ} → Option A → Bool
is_some none = false
is_some (some x) = true

-- `del self._start_to_block[...]` and the line after it; none is the KeyError.
abbrev pub forget : Block → Heap → Option Heap
forget b h =
    if is_some (h.start_to_block b.arena b.start) && is_some (h.stop_to_block b.arena b.stop)
    then some (record h {
      start_to_block = place b.arena b.start none h.start_to_block;
      stop_to_block = place b.arena b.stop none h.stop_to_block;
    })
    else none

-- A sequence that is empty leaves the dict, and its length the list as given.
abbrev pub with_lengths : ℕ → Option (List ℕ) → Heap → Option Heap
with_lengths l none h = none
with_lengths l (some lengths) h =
    some (record h { len_to_seq = set_seq l none h.len_to_seq; lengths = lengths })

abbrev pub shorten : ℕ → List Block → Option (List ℕ) → Heap → Option Heap
shorten l [] lengths h = with_lengths l lengths h
shorten l (c ∷ cs) lengths h =
    some (record h { len_to_seq = set_seq l (some (c ∷ cs)) h.len_to_seq })

-- `_absorb`; none is a KeyError or a ValueError.
abbrev pub absorb_rest : Block → Option (List Block) → Heap → Option Heap
absorb_rest b none h = none
absorb_rest b (some rest) h = shorten (len b) rest (remove_length (len b) h.lengths) h

abbrev pub absorb_seq : Block → Option (List Block) → Heap → Option Heap
absorb_seq b none h = none
absorb_seq b (some seq) h = absorb_rest b (remove_block b seq) h

abbrev pub absorb_from : Block → Option Heap → Option Heap
absorb_from b none = none
absorb_from b (some h) = absorb_seq b (h.len_to_seq (len b)) h

unfoldable pub absorb : Block → Heap → Option Heap
unfolding remove_block remove_length
absorb b h = absorb_from b (forget b h)

-- The end of `_free`.
abbrev pub append_to : ℕ → Block → Option (List Block) → Heap → Heap
append_to l b none h = record h {
  len_to_seq = set_seq l (some (b ∷ [])) h.len_to_seq;
  lengths = insort l h.lengths;
}
append_to l b (some seq) h = record h { len_to_seq = set_seq l (some (seq ++ b ∷ [])) h.len_to_seq }

unfoldable pub register : Block → Heap → Heap
register b h =
    let g = append_to (len b) b (h.len_to_seq (len b)) h in
    record g {
      start_to_block = place b.arena b.start (some b) g.start_to_block;
      stop_to_block = place b.arena b.stop (some b) g.stop_to_block;
    }

abbrev pub join : Block → Block → Block
join b c = record { arena = b.arena; start = b.start; stop = c.stop }

-- The two neighbours, merged with the block that is to be free.
abbrev pub merged : Block → Option Heap → Option (Block × Heap)
merged b none = none
merged b (some h) = some (b, h)

unfoldable pub merge_prev : Option Block → Block → Heap → Option (Block × Heap)
unfolding absorb
merge_prev none b h = some (b, h)
merge_prev (some p) b h = merged (join p b) (absorb p h)

unfoldable pub merge_next : Option Block → Block → Heap → Option (Block × Heap)
unfolding absorb
merge_next none b h = some (b, h)
merge_next (some n) b h = merged (join b n) (absorb n h)

-- `_free`
abbrev pub register_merged : Option (Block × Heap) → Option Heap
register_merged none = none
register_merged (some (b, h)) = some (register b h)

abbrev pub after_prev : Option (Block × Heap) → Option (Block × Heap)
after_prev none = none
after_prev (some (b, h)) = merge_next (h.start_to_block b.arena b.stop) b h

unfoldable pub free_block : Block → Heap → Option Heap
unfolding merge_prev merge_next register
free_block b h = register_merged (after_prev (merge_prev (h.stop_to_block b.arena b.start) b h))
