-- ===== src/Heap/Calls.antt =====
-- Any sequence of calls of `malloc` and `free`, in any processes.
use billiard.Prelude.{
  ℕ, ◌<◌, ◌≡◌, refl, sym, ap, subst, max, Bool, true, false, false≢true, not, none, List, [], ◌∷◌,
  ltb, ◌==◌, if◌then◌else◌, if_intro, arith,
}
use billiard.Prelude.Int.{ℤ, pos, negsuc}
use billiard.Heap.{Block, same, Heap, init, free_block, roundup}
use billiard.Heap.Alloc.{ok, not_allocated, assertion, broken}
use billiard.Heap.Alloc.{
  Outcome, after_free, set_block, release, then_do, free_pending, free, cut, malloc_block, allocate,
  malloc,
}
use billiard.Heap.Sets.{same_eq, same_self, also}
use billiard.Heap.Sound.{Sound}
use billiard.Heap.Merges.{Sound-same}
use billiard.Heap.Frees.{Freed, free_block-Freed}
use billiard.Heap.Fits.{Found}
use billiard.Heap.Arenas.{malloc_block-Found, roundup_le}
use billiard.Heap.Cuts.{Good, Sound-allocated, Handed, cut-Handed}

-- A call by the process with the given number; `frees` says if the lock is held.
pub data Call : Type 0 where
  mallocs : ℕ → ℤ → Call
  frees : ℕ → Bool → Block → Call

-- The heap, and whether a call met an error inside.
pub record History : Type 0 where
  pub heap : Heap
  pub failed : Bool

abbrev pub after : {A : Type 0} → Outcome A → History → History
after (ok a h) s = record s { heap = h }
after (not_allocated h) s = record s { heap = h }
after assertion s = s
after broken s = record s { failed = true }

unfoldable pub step : ℕ → ℕ → Call → History → History
unfolding malloc free
step page maxsize (mallocs pid size) s = after (malloc page maxsize pid size s.heap) s
step page maxsize (frees pid held b) s = after (free pid held b s.heap) s

unfoldable pub run : ℕ → ℕ → List Call → History → History
unfolding step
run page maxsize [] s = s
run page maxsize (c ∷ cs) s = run page maxsize cs (step page maxsize c s)

-- No error inside, and a heap that is as it should be.
abbrev pub Fine : {A : Type 0} → Outcome A → Type 0
Fine (ok a h) = Good h
Fine (not_allocated h) = Good h
Fine assertion = Unit {0}
Fine broken = ⊥

Good-pending : (bs : List Block) (h : Heap) → Good h → Good (record h { pending_free_blocks = bs })
Good-pending bs h s = record {
  maps = s.maps;
  sorted = s.sorted;
  tiles = s.tiles;
  not_free = s.not_free;
}

pub init-Good : (pid size : ℕ) → Good (init pid size)
unfolding init
init-Good pid size = record {
  maps = record {
    key_start = λ a s b e. absurd (cc);
    key_stop = λ a t b e. absurd (cc);
    has_stop = λ b f. absurd (false≢true f);
  };
  sorted = record { counted = λ l b. refl; filled = λ l. refl; listed = λ l. refl; in_order = tt };
  tiles = record {
    owner = λ a x. none;
    owned = λ a x b e. absurd (cc);
    owns = λ a x b l i. absurd (false≢true l);
    whole = λ a x. refl;
    not_empty = λ b l. absurd (false≢true l);
  };
  not_free = λ b k. refl;
}

-- The block that is given back is held until it is free.
held_again : (s a : Bool) → (s ≡ true → a ≡ true) → a ≡ (if s then true else if s then false else a)
held_again true a f = f refl
held_again false a f = refl

release-Fine : (b : Block) (h : Heap) → Good h → Fine (release b h)
unfolding release
release-Fine b h s = if_intro Fine (h.allocated_blocks b) (λ t. freed t) (λ f. s)
  where
    rest : Block → Bool
    rest = set_block b false h.allocated_blocks

    start : h.allocated_blocks b ≡ true → Sound (also b rest) (record h { allocated_blocks = rest })
    start t = Sound-allocated rest h (
        Sound-same s (λ c.
          held_again (same b c) (h.allocated_blocks c)
            (λ e. subst (λ d. h.allocated_blocks d ≡ true) (same_eq b c e) t)))

    gone : rest b ≡ false
    gone = ap (λ x. if x then false else h.allocated_blocks b) (same_self b)

    freed :
        h.allocated_blocks b ≡ true
        → Fine (after_free (free_block b (record h { allocated_blocks = rest })))
    freed t =
        let f : Freed rest (record h { allocated_blocks = rest })
            (free_block b (record h { allocated_blocks = rest })) =
          free_block-Freed rest b (record h { allocated_blocks = rest }) (start t) gone in
        subst (λ o. Fine (after_free o)) (sym f.is_result)
          (subst (λ a. Sound a f.result) (sym f.rest.allocated) f.sound)

then_do-Fine :
    {A B : Type 0} (r : Outcome A) (k : A → Heap → Outcome B)
    → Fine r
    → ((a : A) (g : Heap) → Good g → Fine (k a g))
    → Fine (then_do r k)
then_do-Fine (ok a h) k f g = g a h f
then_do-Fine (not_allocated h) k f g = f
then_do-Fine assertion k f g = tt
then_do-Fine broken k f g = f

free_pending-Fine : (bs : List Block) (h : Heap) → Good h → Fine (free_pending bs h)
unfolding free_pending
free_pending-Fine [] h s = s
free_pending-Fine (b ∷ bs) h s =
    then_do-Fine (release b (record h { pending_free_blocks = bs })) _
      (release-Fine b (record h { pending_free_blocks = bs }) (Good-pending bs h s))
      (λ u g t. free_pending-Fine bs g t)

free-Fine : (pid : ℕ) (held : Bool) (b : Block) (h : Heap) → Good h → Fine (free pid held b h)
unfolding free
free-Fine pid held b h s =
    if_intro Fine (not (pid == h.last_pid)) (λ e. tt)
      (λ e.
        if_intro Fine held (λ k. Good-pending (b ∷ h.pending_free_blocks) h s)
          (λ k.
            then_do-Fine (free_pending h.pending_free_blocks h) _
              (free_pending-Fine h.pending_free_blocks h s) (λ u g t. release-Fine b g t)))

-- `malloc` once the pending blocks are freed.
pub cut_found-Handed :
    (page size : ℕ) (h : Heap)
    → Good h
    → 0 < page
    → Handed
        (roundup (max size 1) 8)
        h
        (cut (roundup (max size 1) 8) (malloc_block page (roundup (max size 1) 8) h))
cut_found-Handed page size h s p =
    let q = roundup_le (max size 1) 8 (omega arith) in
    let f : Found h.allocated_blocks (roundup (max size 1) 8) h
        (malloc_block page (roundup (max size 1) 8) h) =
      malloc_block-Found h.allocated_blocks page (roundup (max size 1) 8) h s p
        (omega (arith, q)) in
    subst (λ o. Handed (roundup (max size 1) 8) h (cut (roundup (max size 1) 8) o))
      (sym f.is_result)
      (cut-Handed (roundup (max size 1) 8) h f.block f.heap f.sound f.not_held (omega (arith, q))
        f.large f.allocated f.pending)

allocate-Fine : (page size : ℕ) (h : Heap) → 0 < page → Good h → Fine (allocate page size h)
unfolding allocate
allocate-Fine page size h p s =
    then_do-Fine (free_pending h.pending_free_blocks h) _
      (free_pending-Fine h.pending_free_blocks h s)
      (λ u g t.
        let d : Handed (roundup (max size 1) 8) g
            (cut (roundup (max size 1) 8) (malloc_block page (roundup (max size 1) 8) g)) =
          cut_found-Handed page size g t p in
        subst Fine (sym d.is_result) d.good)

malloc-Fine :
    (page maxsize pid : ℕ) (size : ℤ) (h : Heap)
    → 0 < page
    → Good h
    → Fine (malloc page maxsize pid size h)
unfolding malloc
malloc-Fine page maxsize pid (negsuc n) h p s = tt
malloc-Fine page maxsize pid (pos n) h p s =
    if_intro Fine (not (ltb n maxsize)) (λ e. tt)
      (λ e.
        allocate-Fine page n (if pid == h.last_pid then h else init pid page) p
          (if_intro Good (pid == h.last_pid) (λ k. s) (λ k. init-Good pid page)))

after-Good :
    {A : Type 0} (r : Outcome A) (s : History)
    → Fine r
    → Good s.heap
    → s.failed ≡ false
    → Good (after r s).heap × ((after r s).failed ≡ false)
after-Good (ok a h) s f g e = (f, e)
after-Good (not_allocated h) s f g e = (f, e)
after-Good assertion s f g e = (g, e)
after-Good broken s f g e = absurd f

pub run-Good :
    (page maxsize : ℕ) (calls : List Call) (s : History)
    → 0 < page
    → Good s.heap
    → s.failed ≡ false
    → Good (run page maxsize calls s).heap × ((run page maxsize calls s).failed ≡ false)
unfolding run step
run-Good page maxsize [] s p g e = (g, e)
run-Good page maxsize (mallocs pid size ∷ calls) s p g e =
    let (g', e') =
      after-Good (malloc page maxsize pid size s.heap) s
        (malloc-Fine page maxsize pid size s.heap p g) g e in
    run-Good page maxsize calls _ p g' e'
run-Good page maxsize (frees pid held b ∷ calls) s p g e =
    let (g', e') = after-Good (free pid held b s.heap) s (free-Fine pid held b s.heap g) g e in
    run-Good page maxsize calls _ p g' e'
