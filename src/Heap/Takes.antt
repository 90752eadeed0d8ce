-- ===== src/Heap/Takes.antt =====
-- `_absorb`, and what `_malloc` does to the tables, succeed for a free block and leave it held.
use billiard.Prelude.{
  ℕ, ◌+◌, ◌≡◌, refl, sym, ap, ◌∙◌, Bool, true, Option, none, some, List, [], ◌∷◌, ◌==◌,
  if◌then◌else◌, arith,
}
use billiard.Heap.{
  Block, same, Heap, place, set_seq, len, is_some, forget, shorten, absorb_rest, absorb_seq,
  absorb_from, absorb,
}
use billiard.Heap.Maps.{is_free, start_of}
use billiard.Heap.Sets.{other, also}
use billiard.Heap.Bools.{and_intro, eq_to}
use billiard.Heap.Counts.{
  one_if, count, count_length, remove_block-count, remove_length-count, remove_length-IsSorted,
  IsSorted,
}
use billiard.Heap.Seqs.{seq_of, Sorted, Sorted-take, Sorted-clear}
use billiard.Heap.Sound.{Sound, SameRest, take-Sound}

pub SameRest-refl : (h : Heap) → SameRest h h
SameRest-refl h = record { arenas = refl; allocated = refl; pending = refl; pid = refl }

pub SameRest-trans : {f g h : Heap} → SameRest f g → SameRest g h → SameRest f h
SameRest-trans s t = record {
  arenas = t.arenas ∙ s.arenas;
  allocated = t.allocated ∙ s.allocated;
  pending = t.pending ∙ s.pending;
  pid = t.pid ∙ s.pid;
}

-- What `shorten` gives: the tables by length without b, and all else as it was.
pub record Shortened (free : Block → Bool) (b : Block) (h : Heap) (o : Option Heap) : Type 0 where
  pub result : Heap
  pub is_result : o ≡ some result
  pub sorted : Sorted (other b free) result.len_to_seq result.lengths
  pub starts : result.start_to_block ≡ h.start_to_block
  pub stops : result.stop_to_block ≡ h.stop_to_block
  pub rest : SameRest h result

pub shorten-Shortened :
    (free : Block → Bool) (b : Block) (rest : List Block) (lengths : List ℕ) (h : Heap)
    → Sorted free h.len_to_seq h.lengths
    → is_some (h.len_to_seq (len b)) ≡ true
    → ((c : Block) → count c rest + one_if (same b c) ≡ count c (seq_of (h.len_to_seq (len b))))
    → ((x : ℕ) → count_length x lengths + one_if (len b == x) ≡ count_length x h.lengths)
    → IsSorted lengths
    → Shortened free b h (shorten (len b) rest (some lengths) h)
shorten-Shortened free b [] lengths h w e f g o = record {
  result = record h { len_to_seq = set_seq (len b) none h.len_to_seq; lengths = lengths };
  is_result = refl;
  sorted = Sorted-clear w b lengths f e g o;
  starts = refl;
  stops = refl;
  rest = record { arenas = refl; allocated = refl; pending = refl; pid = refl };
}
shorten-Shortened free b (d ∷ ds) lengths h w e f g o = record {
  result = record h { len_to_seq = set_seq (len b) (some (d ∷ ds)) h.len_to_seq };
  is_result = refl;
  sorted = Sorted-take w b d ds f e;
  starts = refl;
  stops = refl;
  rest = record { arenas = refl; allocated = refl; pending = refl; pid = refl };
}

-- A heap that comes out, with b held.
pub record Taken (held : Block → Bool) (b : Block) (h : Heap) (o : Option Heap) : Type 0 where
  pub result : Heap
  pub is_result : o ≡ some result
  pub sound : Sound (also b held) result
  pub rest : SameRest h result

abbrev pub forgotten : Block → Heap → Heap
forgotten b h = record h {
  start_to_block = place b.arena b.start none h.start_to_block;
  stop_to_block = place b.arena b.stop none h.stop_to_block;
}

pub forget-some :
    (held : Block → Bool) (b : Block) (h : Heap)
    → h.start_to_block b.arena b.start ≡ some b
    → h.stop_to_block b.arena b.stop ≡ some b
    → forget b h ≡ some (forgotten b h)
forget-some held b h e f =
    ap (λ c. if c then some (forgotten b h) else none)
      (and_intro (is_some (h.start_to_block b.arena b.start)) _ (ap is_some e) (ap is_some f))

-- A free block is in the list of its length.
pub seq_of_free :
    (held : Block → Bool) (b : Block) (h : Heap)
    → Sound held h
    → is_free h.start_to_block b ≡ true
    → count b (seq_of (h.len_to_seq (len b))) ≡ 1
seq_of_free held b h s f =
    s.sorted.counted (len b) b
    ∙ ap one_if (and_intro (is_free h.start_to_block b) _ f (eq_to (len b) (len b) refl))

some_seq :
    (b : Block) (o : Option (List Block))
    → count b (seq_of o) ≡ 1
    → (seq : List Block) × (o ≡ some seq)
some_seq b none e = absurd (omega (arith, e))
some_seq b (some seq) e = (seq, refl)

absorb-at :
    (held : Block → Bool) (b : Block) (h : Heap) (seq : List Block)
    → Sound held h
    → is_free h.start_to_block b ≡ true
    → h.len_to_seq (len b) ≡ some seq
    → Taken held b h (absorb_seq b (some seq) (forgotten b h))
absorb-at held b h seq s f e =
    let one = sym (ap (λ o. count b (seq_of o)) e) ∙ seq_of_free held b h s f in
    let (rest, er, cr) = remove_block-count b seq (omega (arith, one)) in
    let listed = s.sorted.listed (len b) ∙ ap (λ o. one_if (is_some o)) e in
    let (lengths, el, cl) = remove_length-count (len b) h.lengths (omega (arith, listed)) in
    let t : Shortened (is_free h.start_to_block) b (forgotten b h)
        (shorten (len b) rest (some lengths) (forgotten b h)) =
      shorten-Shortened (is_free h.start_to_block) b rest lengths (forgotten b h) s.sorted
        (ap is_some e) (λ c. cr c ∙ sym (ap (λ o. count c (seq_of o)) e)) cl
        (remove_length-IsSorted (len b) h.lengths lengths s.sorted.in_order el) in
    record {
      result = t.result;
      is_result =
          ap (λ o. absorb_rest b o (forgotten b h)) er
          ∙ ap (λ o. shorten (len b) rest o (forgotten b h)) el
          ∙ t.is_result;
      sound = take-Sound held b h t.result s f t.starts t.stops t.sorted t.rest.arenas;
      rest = record {
        arenas = t.rest.arenas;
        allocated = t.rest.allocated;
        pending = t.rest.pending;
        pid = t.rest.pid;
      };
    }

pub absorb-Taken :
    (held : Block → Bool) (b : Block) (h : Heap)
    → Sound held h
    → is_free h.start_to_block b ≡ true
    → Taken held b h (absorb b h)
unfolding absorb
absorb-Taken held b h s f =
    let (seq, e) = some_seq b (h.len_to_seq (len b)) (seq_of_free held b h s f) in
    let t : Taken held b h (absorb_seq b (some seq) (forgotten b h)) =
      absorb-at held b h seq s f e in
    record {
      result = t.result;
      is_result =
          ap (absorb_from b)
            (forget-some held b h (start_of h.start_to_block b f) (s.maps.has_stop b f))
          ∙ ap (λ o. absorb_seq b o (forgotten b h)) e
          ∙ t.is_result;
      sound = t.sound;
      rest = t.rest;
    }
