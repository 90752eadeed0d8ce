-- ===== src/Heap/Maps.antt =====
-- The two dicts of the free blocks, by their starts and by their ends, agree.
use billiard.Prelude.{
  ℕ, ◌≡◌, refl, sym, ap, ◌∙◌, Bool, true, false, false≢true, not, ◌&&◌, Option, none, some, ◌==◌,
  if◌then◌else◌, if_intro, Bool-cases, ◌⊎◌, inl, inr,
}
use billiard.Heap.{Block, same, Places, place}
use billiard.Heap.Bools.{
  and_intro, and_left, and_right, bool_ext, clash, eq_of, eq_to, not-false, not-true, refute,
}
use billiard.Heap.Sets.{also, other, same_eq, same_of, same_self}

abbrev pub same_as : Option Block → Block → Bool
same_as none b = false
same_as (some c) b = same c b

-- A block is free if the dict of the starts has it.
abbrev pub is_free : Places → Block → Bool
is_free starts b = same_as (starts b.arena b.start) b

pub record Maps (starts stops : Places) : Type 0 where
  pub key_start : (a s : ℕ) (b : Block) → starts a s ≡ some b → (b.arena ≡ a) × (b.start ≡ s)
  pub key_stop :
      (a t : ℕ) (b : Block)
      → stops a t ≡ some b
      → (b.arena ≡ a) × (b.stop ≡ t) × (is_free starts b ≡ true)
  pub has_stop : (b : Block) → is_free starts b ≡ true → stops b.arena b.stop ≡ some b

same_as-some : (o : Option Block) (b : Block) → same_as o b ≡ true → o ≡ some b
same_as-some none b h = absurd (false≢true h)
same_as-some (some c) b h = ap some (same_eq c b h)

pub start_of :
    (starts : Places) (b : Block) → is_free starts b ≡ true → starts b.arena b.start ≡ some b
start_of starts b h = same_as-some (starts b.arena b.start) b h

pub free_of :
    (starts : Places) (b : Block) → starts b.arena b.start ≡ some b → is_free starts b ≡ true
free_of starts b h = ap (λ o. same_as o b) h ∙ same_self b

-- Where the dict of the starts has a block, it is free.
pub found_free :
    {starts stops : Places} (a s : ℕ) (b : Block)
    → Maps starts stops
    → starts a s ≡ some b
    → is_free starts b ≡ true
found_free {starts = starts} a s b m h =
    let (e, f) = m.key_start a s b h in
    free_of starts b (ap (λ x. starts x b.start) e ∙ ap (starts a) f ∙ h)

abbrev pub at : ℕ → ℕ → ℕ → ℕ → Bool
at a s b t = (a == b) && (s == t)

place_miss :
    (a s c t : ℕ) (v : Option Block) (f : Places) → at a s c t ≡ false → place a s v f c t ≡ f c t
place_miss a s c t v f k = ap (λ b. if b then v else f c t) k

place_hit :
    (a s c t : ℕ) (v : Option Block) (f : Places) → at a s c t ≡ true → place a s v f c t ≡ v
place_hit a s c t v f k = ap (λ b. if b then v else f c t) k

-- An entry of a dict after a deletion was there before, under another key.
place-none :
    (a s c t : ℕ) (f : Places) (b : Block)
    → place a s none f c t ≡ some b
    → (f c t ≡ some b) × (at a s c t ≡ false)
place-none a s c t f b =
    if_intro (λ o. o ≡ some b → (f c t ≡ some b) × (at a s c t ≡ false)) (at a s c t)
      (λ k e. absurd (cc)) (λ k e. (e, k))

-- An entry after an assignment is the new one, or was there before.
abbrev or_this : Block → Option Block → Block
or_this n none = n
or_this n (some b) = b

place-some :
    (a s c t : ℕ) (f : Places) (n b : Block)
    → place a s (some n) f c t ≡ some b
    → ((n ≡ b) × (at a s c t ≡ true)) ⊎ ((f c t ≡ some b) × (at a s c t ≡ false))
place-some a s c t f n b =
    if_intro
      (λ o.
        o ≡ some b → ((n ≡ b) × (at a s c t ≡ true)) ⊎ ((f c t ≡ some b) × (at a s c t ≡ false)))
      (at a s c t) (λ k e. inl (ap (or_this n) e, k)) (λ k e. inr (e, k))

same-at : (b c : Block) → same b c ≡ true → at b.arena b.start c.arena c.start ≡ true
same-at b c h =
    and_intro (b.arena == c.arena) (b.start == c.start) (and_left (b.arena == c.arena) _ h)
      (and_left (b.start == c.start) _ (and_right (b.arena == c.arena) _ h))

pub at_eq : (a s b t : ℕ) → at a s b t ≡ true → (a ≡ b) × (s ≡ t)
at_eq a s b t h = (eq_of a b (and_left (a == b) _ h), eq_of s t (and_right (a == b) _ h))

same_start :
    (starts : Places) (b c : Block)
    → is_free starts b ≡ true
    → is_free starts c ≡ true
    → at b.arena b.start c.arena c.start ≡ true
    → same b c ≡ true
same_start starts b c h k e =
    let (a, s) = at_eq b.arena b.start c.arena c.start e in
    same_of b c (
      ap (or_this b) (
        sym (start_of starts b h)
        ∙ ap (λ x. starts x b.start) a
        ∙ ap (starts c.arena) s
        ∙ start_of starts c k))

-- A free block is alone at its start, so that deleting the key deletes it and no other.
pub is_free-take :
    {starts stops : Places} (b c : Block)
    → Maps starts stops
    → is_free starts b ≡ true
    → is_free (place b.arena b.start none starts) c ≡ other b (is_free starts) c
is_free-take {starts = starts} b c m h =
    bool_ext (is_free (place b.arena b.start none starts) c) (other b (is_free starts) c)
      (λ f.
        let (e, k) =
          place-none b.arena b.start c.arena c.start starts c
            (start_of (place b.arena b.start none starts) c f) in
        and_intro (is_free starts c) (not (same b c)) (free_of starts c e)
          (not-false (same b c) (refute (same b c) (λ q. clash (same-at b c q) k))))
      (λ f. free_of (place b.arena b.start none starts) c (
        place_miss b.arena b.start c.arena c.start none starts (
          refute (at b.arena b.start c.arena c.start) (λ k.
            clash (same_start starts b c h (and_left (is_free starts c) _ f) k)
              (not-true (same b c) (and_right (is_free starts c) _ f))))
        ∙ start_of starts c (and_left (is_free starts c) _ f)))

pub Maps-take :
    {starts stops : Places} (b : Block)
    → Maps starts stops
    → is_free starts b ≡ true
    → Maps (place b.arena b.start none starts) (place b.arena b.stop none stops)
Maps-take {starts = starts} {stops = stops} b m h = record {
  key_start = λ a s c e. m.key_start a s c (place-none b.arena b.start a s starts c e).0;
  key_stop = λ a t c e.
      let (e', k) = place-none b.arena b.stop a t stops c e in
      let (ea, et, f) = m.key_stop a t c e' in
      (
        ea,
        et,
        is_free-take b c m h
            ∙ and_intro (is_free starts c) (not (same b c)) f (
                not-false (same b c) (
                  refute (same b c) (λ q.
                    let d = same_eq b c q in
                    clash
                      (and_intro (b.arena == a) (b.stop == t)
                        (eq_to b.arena a (ap (λ (x : Block). x.arena) d ∙ ea))
                        (eq_to b.stop t (ap (λ (x : Block). x.stop) d ∙ et)))
                      k))),
      );
  has_stop = λ c f.
      let g = sym (is_free-take b c m h) ∙ f in
      let fc = and_left (is_free starts c) (not (same b c)) g in
      place_miss b.arena b.stop c.arena c.stop none stops (
        refute (at b.arena b.stop c.arena c.stop) (λ k.
          let (ea, et) = at_eq b.arena b.stop c.arena c.stop k in
          clash
            (same_of b c (
              ap (or_this b) (
                sym (m.has_stop b h)
                ∙ ap (λ x. stops x b.stop) ea
                ∙ ap (stops c.arena) et
                ∙ m.has_stop c fc)))
            (not-true (same b c) (and_right (is_free starts c) _ g))))
      ∙ m.has_stop c fc;
}

none-some : {b : Block} → none ≡ some b → ⊥
none-some e = cc

or_false : (x y : Bool) → y ≡ false → x ≡ (if x then true else y)
or_false true y h = refl
or_false false y h = sym h

pub is_free-put :
    (starts : Places) (b c : Block)
    → starts b.arena b.start ≡ none
    → is_free (place b.arena b.start (some b) starts) c ≡ also b (is_free starts) c
is_free-put starts b c n = elim (Bool-cases (at b.arena b.start c.arena c.start)) [
  | inl k ↦
      let (ea, es) = at_eq b.arena b.start c.arena c.start k in
      ap (λ o. same_as o c) (place_hit b.arena b.start c.arena c.start (some b) starts k)
      ∙ or_false (same b c) (is_free starts c)
          (ap (λ o. same_as o c) (sym (ap (λ x. starts x b.start) ea ∙ ap (starts c.arena) es) ∙ n))
  | inr k ↦
      ap (λ o. same_as o c) (place_miss b.arena b.start c.arena c.start (some b) starts k)
      ∙ ap (λ x. if x then true else is_free starts c)
          (sym (refute (same b c) (λ q. clash (same-at b c q) k)))
]

pub Maps-put :
    {starts stops : Places} (b : Block)
    → Maps starts stops
    → starts b.arena b.start ≡ none
    → stops b.arena b.stop ≡ none
    → Maps (place b.arena b.start (some b) starts) (place b.arena b.stop (some b) stops)
Maps-put {starts = starts} {stops = stops} b m n k = record {
  key_start = λ a s c e. elim (place-some b.arena b.start a s starts b c e) [
    | inl (d, q) ↦
        let (ea, es) = at_eq b.arena b.start a s q in
        (sym (ap (λ (x : Block). x.arena) d) ∙ ea, sym (ap (λ (x : Block). x.start) d) ∙ es)
    | inr (e', q) ↦ m.key_start a s c e'
  ];
  key_stop = λ a t c e. elim (place-some b.arena b.stop a t stops b c e) [
    | inl (d, q) ↦
        let (ea, et) = at_eq b.arena b.stop a t q in
        (
          sym (ap (λ (x : Block). x.arena) d) ∙ ea,
          sym (ap (λ (x : Block). x.stop) d) ∙ et,
          is_free-put starts b c n ∙ ap (λ x. if x then true else is_free starts c) (same_of b c d),
        )
    | inr (e', q) ↦
        let (ea, et, f) = m.key_stop a t c e' in
        (
          ea,
          et,
          is_free-put starts b c n ∙ if_intro (λ x. x ≡ true) (same b c) (λ s. refl) (λ s. f),
        )
  ];
  has_stop = λ c f. has_stop_at c (same b c) refl (sym (is_free-put starts b c n) ∙ f);
}
  where
    has_stop_at :
        (c : Block) (x : Bool)
        → same b c ≡ x
        → (if x then true else is_free starts c) ≡ true
        → place b.arena b.stop (some b) stops c.arena c.stop ≡ some c
    has_stop_at c true q f =
        let d = same_eq b c q in
        place_hit b.arena b.stop c.arena c.stop (some b) stops (
          and_intro (b.arena == c.arena) (b.stop == c.stop)
            (eq_to b.arena c.arena (ap (λ (x : Block). x.arena) d))
            (eq_to b.stop c.stop (ap (λ (x : Block). x.stop) d)))
        ∙ ap some d
    has_stop_at c false q f =
        place_miss b.arena b.stop c.arena c.stop (some b) stops (
          refute (at b.arena b.stop c.arena c.stop) (λ z.
            let (ea, et) = at_eq b.arena b.stop c.arena c.stop z in
            none-some
              (sym k ∙ ap (λ x. stops x b.stop) ea ∙ ap (stops c.arena) et ∙ m.has_stop c f)))
        ∙ m.has_stop c f
