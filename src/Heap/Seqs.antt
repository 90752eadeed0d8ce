-- ===== src/Heap/Seqs.antt =====
-- The free blocks by their lengths: each stands once in the list of its length, and `_lengths` has each
-- length of a free block once, in order.
use billiard.Prelude.{
  ℕ, ◌+◌, ◌≡◌, refl, sym, ap, ◌∙◌, Bool, true, false, not, ◌&&◌, Option, none, some, List, [], ◌∷◌,
  ◌++◌, ◌==◌, if◌then◌else◌, if_intro, Bool-cases, inl, inr, arith,
}
use billiard.Heap.{Block, same, Seqs, set_seq, len, is_some, insort, append_to, Heap}
use billiard.Heap.Sets.{same_eq, other, also}
use billiard.Heap.Bools.{eq_of, eq_to}
use billiard.Heap.Counts.{
  one_if, count, count_length, count-append, insort-count, IsSorted, insort-IsSorted,
}

abbrev pub seq_of : Option (List Block) → List Block
seq_of none = []
seq_of (some seq) = seq

abbrev pub is_nil : List Block → Bool
is_nil [] = true
is_nil (b ∷ bs) = false

pub record Sorted (free : Block → Bool) (seqs : Seqs) (lengths : List ℕ) : Type 0 where
  pub counted : (l : ℕ) (b : Block) → count b (seq_of (seqs l)) ≡ one_if (free b && (len b == l))
  pub filled : (l : ℕ) → is_some (seqs l) ≡ not (is_nil (seq_of (seqs l)))
  pub listed : (l : ℕ) → count_length l lengths ≡ one_if (is_some (seqs l))
  pub in_order : IsSorted lengths

take_hit :
    (s fr e : Bool) (n m : ℕ)
    → n + one_if s ≡ m
    → m ≡ one_if (fr && e)
    → n ≡ one_if ((fr && not s) && e)
take_hit true true true n m h k = omega (arith, h, k)
take_hit true true false n m h k = omega (arith, h, k)
take_hit true false e n m h k = omega (arith, h, k)
take_hit false true true n m h k = omega (arith, h, k)
take_hit false true false n m h k = omega (arith, h, k)
take_hit false false e n m h k = omega (arith, h, k)

take_miss :
    (s fr e : Bool) (n : ℕ)
    → n ≡ one_if (fr && e)
    → (s ≡ true → e ≡ false)
    → n ≡ one_if ((fr && not s) && e)
take_miss true true e n h k = h ∙ ap one_if (k refl)
take_miss true false e n h k = h
take_miss false true e n h k = h
take_miss false false e n h k = h

put_hit :
    (s fr e : Bool) (n : ℕ)
    → n ≡ one_if (fr && e)
    → (s ≡ true → (fr ≡ false) × (e ≡ true))
    → n + one_if s ≡ one_if ((if s then true else fr) && e)
put_hit true fr e n h k =
    let (f, g) = k refl in
    let q = ap (λ x. one_if (x && e)) f in let r = ap one_if g in omega (arith, h, q, r)
put_hit false fr e n h k = omega (arith, h)

put_miss :
    (s fr e : Bool) (n : ℕ)
    → n ≡ one_if (fr && e)
    → (s ≡ true → e ≡ false)
    → n ≡ one_if ((if s then true else fr) && e)
put_miss true true e n h k = h
put_miss true false e n h k = h ∙ sym (ap one_if (k refl))
put_miss false fr e n h k = h

-- The length of a block, as a test.
len_miss :
    (b c : Block) (l : ℕ)
    → len b ≡ l
    → (m : ℕ) → (l == m) ≡ false
    → same b c ≡ true
    → (len c == m) ≡ false
len_miss b c l e m k s = sym (ap (λ x. x == m) (sym e ∙ ap len (same_eq b c s))) ∙ k

len_hit : (b c : Block) → same b c ≡ true → (m : ℕ) → len b ≡ m → (len c == m) ≡ true
len_hit b c s m e = eq_to (len c) m (sym (ap len (same_eq b c s)) ∙ e)

module _ {free : Block → Bool} {seqs : Seqs} {lengths : List ℕ} (w : Sorted free seqs lengths) where
  counted-take :
      (b : Block) (rest : List Block) (v : Option (List Block))
      → seq_of v ≡ rest
      → ((c : Block) → count c rest + one_if (same b c) ≡ count c (seq_of (seqs (len b))))
      → (l : ℕ) (c : Block)
      → count c (seq_of (set_seq (len b) v seqs l)) ≡ one_if (other b free c && (len c == l))
  counted-take b rest v e f l c = elim (Bool-cases (len b == l)) [
    | inl k ↦
        ap (λ x. count c (seq_of (if x then v else seqs l))) k
        ∙ ap (count c) e
        ∙ take_hit (same b c) (free c) (len c == l) (count c rest) (count c (seq_of (seqs (len b))))
            (f c) (ap (λ m. count c (seq_of (seqs m))) (eq_of (len b) l k) ∙ w.counted l c)
    | inr k ↦
        ap (λ x. count c (seq_of (if x then v else seqs l))) k
        ∙ take_miss (same b c) (free c) (len c == l) (count c (seq_of (seqs l))) (w.counted l c)
            (λ s. len_miss b c (len b) refl l k s)
  ]

  -- A block leaves a list that has others.
  pub Sorted-take :
      (b d : Block) (rest : List Block)
      → ((c : Block) → count c (d ∷ rest) + one_if (same b c) ≡ count c (seq_of (seqs (len b))))
      → is_some (seqs (len b)) ≡ true
      → Sorted (other b free) (set_seq (len b) (some (d ∷ rest)) seqs) lengths
  Sorted-take b d rest f e = record {
    counted = counted-take b (d ∷ rest) (some (d ∷ rest)) refl f;
    filled = λ l.
        if_intro (λ o. is_some o ≡ not (is_nil (seq_of o))) (len b == l) (λ k. refl)
          (λ k. w.filled l);
    listed = λ l.
        w.listed l
        ∙ if_intro (λ o. one_if (is_some (seqs l)) ≡ one_if (is_some o)) (len b == l)
            (λ k. ap (λ m. one_if (is_some (seqs m))) (sym (eq_of (len b) l k)) ∙ ap one_if e)
            (λ k. refl);
    in_order = w.in_order;
  }

  -- The last block of a list leaves, and with it the list and its length.
  pub Sorted-clear :
      (b : Block) (lengths' : List ℕ)
      → ((c : Block) → count c [] + one_if (same b c) ≡ count c (seq_of (seqs (len b))))
      → is_some (seqs (len b)) ≡ true
      → ((x : ℕ) → count_length x lengths' + one_if (len b == x) ≡ count_length x lengths)
      → IsSorted lengths'
      → Sorted (other b free) (set_seq (len b) none seqs) lengths'
  Sorted-clear b lengths' f e g o = record {
    counted = counted-take b [] none refl f;
    filled = λ l.
        if_intro (λ o. is_some o ≡ not (is_nil (seq_of o))) (len b == l) (λ k. refl)
          (λ k. w.filled l);
    listed = λ l.
        let q = g l in
        let r = w.listed l in
        if_intro (λ v. count_length l lengths' ≡ one_if (is_some v)) (len b == l)
          (λ k.
            let u = ap one_if k in
            let i = ap (λ m. one_if (is_some (seqs m))) (sym (eq_of (len b) l k)) in
            let j = ap one_if e in omega (arith, q, r, u, i, j))
          (λ k. let u = ap one_if k in omega (arith, q, r, u));
    in_order = o;
  }

  counted-put :
      (b : Block) (seq : List Block)
      → free b ≡ false
      → seq ≡ seq_of (seqs (len b))
      → (l : ℕ) (c : Block)
      → count c (seq_of (set_seq (len b) (some (seq ++ b ∷ [])) seqs l))
        ≡ one_if (also b free c && (len c == l))
  counted-put b seq n e l c = elim (Bool-cases (len b == l)) [
    | inl k ↦
        ap (λ x. count c (seq_of (if x then some (seq ++ b ∷ []) else seqs l))) k
        ∙ count-append b c seq
        ∙ put_hit (same b c) (free c) (len c == l) (count c seq)
            (ap (count c) e
              ∙ ap (λ m. count c (seq_of (seqs m))) (eq_of (len b) l k)
              ∙ w.counted l c)
            (λ s. (sym (ap free (same_eq b c s)) ∙ n, len_hit b c s l (eq_of (len b) l k)))
    | inr k ↦
        ap (λ x. count c (seq_of (if x then some (seq ++ b ∷ []) else seqs l))) k
        ∙ put_miss (same b c) (free c) (len c == l) (count c (seq_of (seqs l))) (w.counted l c)
            (λ s. len_miss b c (len b) refl l k s)
  ]

  not_nil : (seq : List Block) (b : Block) → not (is_nil (seq ++ b ∷ [])) ≡ true
  not_nil [] b = refl
  not_nil (c ∷ seq) b = refl

-- The end of `_free`.
pub Sorted-put :
    (free : Block → Bool) (b : Block) (h : Heap) (o : Option (List Block))
    → Sorted free h.len_to_seq h.lengths
    → free b ≡ false
    → h.len_to_seq (len b) ≡ o
    → Sorted (also b free) (append_to (len b) b o h).len_to_seq (append_to (len b) b o h).lengths
Sorted-put free b h none w n e = record {
  counted = counted-put w b [] n (sym (ap seq_of e));
  filled = λ l.
      if_intro (λ o. is_some o ≡ not (is_nil (seq_of o))) (len b == l) (λ k. refl)
        (λ k. w.filled l);
  listed = λ l.
      let q = insort-count (len b) h.lengths l in
      let r = w.listed l in
      if_intro (λ v. count_length l (insort (len b) h.lengths) ≡ one_if (is_some v)) (len b == l)
        (λ k.
          let u = ap one_if k in
          let i = ap (λ m. one_if (is_some (h.len_to_seq m))) (sym (eq_of (len b) l k)) in
          let j = ap (λ o. one_if (is_some o)) e in omega (arith, q, r, u, i, j))
        (λ k. let u = ap one_if k in omega (arith, q, r, u));
  in_order = insort-IsSorted (len b) h.lengths w.in_order;
}
Sorted-put free b h (some seq) w n e = record {
  counted = counted-put w b seq n (sym (ap seq_of e));
  filled = λ l.
      if_intro (λ o. is_some o ≡ not (is_nil (seq_of o))) (len b == l) (λ k. sym (not_nil w seq b))
        (λ k. w.filled l);
  listed = λ l.
      w.listed l
      ∙ if_intro (λ o. one_if (is_some (h.len_to_seq l)) ≡ one_if (is_some o)) (len b == l)
          (λ k.
            ap (λ m. one_if (is_some (h.len_to_seq m))) (sym (eq_of (len b) l k))
            ∙ ap (λ o. one_if (is_some o)) e)
          (λ k. refl);
  in_order = w.in_order;
}
