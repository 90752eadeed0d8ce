-- ===== src/Heap/Joins.antt =====
-- Joining two blocks, splitting one, and a block for a new arena: each leaves the arenas tiled.
use billiard.Prelude.{
  ℕ, ◌<◌, ◌≡◌, refl, sym, ap, subst, ◌∙◌, Bool, true, false, ◌||◌, le_or_lt, ◌⊎◌, inl, inr, arith,
}
use billiard.Heap.{Block, is_some, join}
use billiard.Heap.Sets.{other, also}
use billiard.Heap.Bools.{clash}
use billiard.Heap.Tiles.{covers, In, covers-In, In-covers, Tiles, Tiles-disjoint, Tiles-swap}
use billiard.Heap.Sets.{also_either, also_new, also_old, other_is, other_old}

move : {a x : ℕ} {b c : Block} → b ≡ c → In b a x → In c a x
move {a = a} {x = x} e i = subst (λ (d : Block). In d a x) e i

covered : (c d v : Bool) → (c ≡ true → v ≡ true) → (d ≡ true → v ≡ true) → v ≡ (c || (d || v))
covered true d v h k = h refl
covered false true v h k = k refl
covered false false v h k = refl

-- A byte of a live block is inside.
pub inside_live :
    {inside : ℕ → ℕ → Bool} {live : Block → Bool} (a x : ℕ) (b : Block)
    → Tiles inside live
    → live b ≡ true
    → In b a x
    → inside a x ≡ true
inside_live a x b t l i = sym (t.whole a x) ∙ ap is_some (t.owns a x b l i)

module _ {inside : ℕ → ℕ → Bool} {live : Block → Bool} (t : Tiles inside live) where
  In-join :
      (p q : Block) (a x : ℕ)
      → p.arena ≡ q.arena
      → p.stop ≡ q.start
      → In (join p q) a x
      → In p a x ⊎ In q a x
  In-join p q a x e s i = elim (le_or_lt p.stop x) [
    | inl h ↦ inr (record { arena = sym e ∙ i.arena; low = omega (arith, s, h); high = i.high })
    | inr h ↦ inl (record { arena = i.arena; low = i.low; high = h })
  ]

  join-In :
      (p q : Block) (a x : ℕ)
      → live p ≡ true
      → live q ≡ true
      → p.arena ≡ q.arena
      → p.stop ≡ q.start
      → In p a x ⊎ In q a x
      → In (join p q) a x
  join-In p q a x lp lq e s (inl i) =
      let f = t.not_empty q lq in
      let h = i.high in record { arena = i.arena; low = i.low; high = omega (arith, s, f, h) }
  join-In p q a x lp lq e s (inr i) =
      let f = t.not_empty p lp in
      let h = i.low in record { arena = e ∙ i.arena; low = omega (arith, s, f, h); high = i.high }

  pub Tiles-join :
      (p q : Block)
      → live p ≡ true
      → live q ≡ true
      → p.arena ≡ q.arena
      → p.stop ≡ q.start
      → Tiles inside (also (join p q) (other p (other q live)))
  Tiles-join p q lp lq e s =
      Tiles-swap j j t
        (record {
          new_n = also_new j rest;
          new_m = also_new j rest;
          apart = λ a x i k. refl;
          kept = λ b l. elim (also_either j rest b l) [
            | inl d ↦ inl d
            | inr o ↦ inr (inr (kept_at b o))
          ];
          stays = λ a x b l i c d. also_old j rest b (
              other_old p (other q live) b
                (other_old q live b l (λ f. gone a x (inr (move (sym f) i)) c))
                (λ f. gone a x (inl (move (sym f) i)) c));
          full_n = full;
          full_m = full;
        })
        (λ a x. covered (covers j a x) (covers j a x) (inside a x) (byte a x) (byte a x))
    where
      j : Block
      j = join p q

      rest : Block → Bool
      rest = other p (other q live)

      full : p.start < q.stop
      full = let f = t.not_empty p lp in let g = t.not_empty q lq in omega (arith, f, g, s)

      gone : (a x : ℕ) → In p a x ⊎ In q a x → covers (join p q) a x ≡ false → ⊥
      gone a x i c = clash (In-covers (join p q) a x (join-In p q a x lp lq e s i)) c

      byte : (a x : ℕ) → covers (join p q) a x ≡ true → inside a x ≡ true
      byte a x c = elim (In-join p q a x e s (covers-In (join p q) a x c)) [
        | inl i ↦ inside_live a x p t lp i
        | inr i ↦ inside_live a x q t lq i
      ]

      out :
          (b : Block)
          → live b ≡ true
          → (p ≡ b → ⊥)
          → (q ≡ b → ⊥)
          → (a x : ℕ) → In b a x
          → In (join p q) a x
          → ⊥
      out b l np nq a x i k = elim (In-join p q a x e s k) [
        | inl h ↦ np (Tiles-disjoint a x p b t lp l h i)
        | inr h ↦ nq (Tiles-disjoint a x q b t lq l h i)
      ]

      kept_at :
          (b : Block)
          → other p (other q live) b ≡ true
          → (live b ≡ true)
            × ((a x : ℕ) → In b a x → (In (join p q) a x → ⊥) × (In (join p q) a x → ⊥))
      kept_at b o =
          let (o', np) = other_is p (other q live) b o in
          let (l, nq) = other_is q live b o' in
          (l, λ a x i. (out b l np nq a x i, out b l np nq a x i))

  pub Tiles-split :
      (b : Block) (k : ℕ)
      → live b ≡ true
      → b.start < k
      → k < b.stop
      → let n = record b { stop = k } in
        let m = record b { start = k } in Tiles inside (also n (also m (other b live)))
  Tiles-split b k lb lo hi =
      Tiles-swap (record b { stop = k }) (record b { start = k }) t
        (record {
          new_n = also_new (record b { stop = k }) rest;
          new_m =
              also_old (record b { stop = k }) rest (record b { start = k })
                (also_new (record b { start = k }) (other b live));
          apart = λ a x i h. let u = i.high in let v = h.low in absurd (omega (arith, u, v));
          kept = λ c l. elim (also_either (record b { stop = k }) rest c l) [
            | inl d ↦ inl d
            | inr o ↦ elim (also_either (record b { start = k }) (other b live) c o) [
              | inl d ↦ inr (inl d)
              | inr o' ↦ inr (inr (kept_at c o'))
            ]
          ];
          stays = λ a x c l i u v.
              also_old (record b { stop = k }) rest c
                (also_old (record b { start = k }) (other b live) c
                  (other_old b live c l (λ f. gone a x (move (sym f) i) u v)));
          full_n = lo;
          full_m = hi;
        })
        (λ a x.
          covered (covers (record b { stop = k }) a x) (covers (record b { start = k }) a x)
            (inside a x)
            (λ c. inside_live a x b t lb (left a x (covers-In (record b { stop = k }) a x c)))
            (λ c. inside_live a x b t lb (right a x (covers-In (record b { start = k }) a x c))))
    where
      rest : Block → Bool
      rest = also (record b { start = k }) (other b live)

      left : (a x : ℕ) → In (record b { stop = k }) a x → In b a x
      left a x i =
          let h = i.high in record { arena = i.arena; low = i.low; high = omega (arith, h, hi) }

      right : (a x : ℕ) → In (record b { start = k }) a x → In b a x
      right a x i =
          let h = i.low in record { arena = i.arena; low = omega (arith, h, lo); high = i.high }

      gone :
          (a x : ℕ)
          → In b a x
          → covers (record b { stop = k }) a x ≡ false
          → covers (record b { start = k }) a x ≡ false
          → ⊥
      gone a x i u v = elim (le_or_lt k x) [
        | inl h ↦
            clash
              (In-covers (record b { start = k }) a x
                (record { arena = i.arena; low = h; high = i.high }))
              v
        | inr h ↦
            clash
              (In-covers (record b { stop = k }) a x
                (record { arena = i.arena; low = i.low; high = h }))
              u
      ]

      kept_at :
          (c : Block)
          → other b live c ≡ true
          → (live c ≡ true)
            × ((a x : ℕ)
                → In c a x
                → (In (record b { stop = k }) a x → ⊥) × (In (record b { start = k }) a x → ⊥))
      kept_at c o =
          let (l, n) = other_is b live c o in
          (
            l,
            λ a x i. (
              (λ h. n (Tiles-disjoint a x b c t lb l (left a x h) i)),
              (λ h. n (Tiles-disjoint a x b c t lb l (right a x h) i)),
            ),
          )

  -- A block that covers what was outside.
  pub Tiles-more :
      {inside' : ℕ → ℕ → Bool} (n : Block)
      → n.start < n.stop
      → ((a x : ℕ) → In n a x → inside a x ≡ false)
      → ((a x : ℕ) → inside' a x ≡ (covers n a x || inside a x))
      → Tiles inside' (also n live)
  Tiles-more n full new w =
      Tiles-swap n n t
        (record {
          new_n = also_new n live;
          new_m = also_new n live;
          apart = λ a x i k. refl;
          kept = λ b l. elim (also_either n live b l) [
            | inl d ↦ inl d
            | inr o ↦ inr (inr (o, λ a x i. (out a x b o i, out a x b o i)))
          ];
          stays = λ a x b l i c d. also_old n live b l;
          full_n = full;
          full_m = full;
        })
        (λ a x. w a x ∙ twice (covers n a x) (inside a x))
    where
      twice : (c v : Bool) → (c || v) ≡ (c || (c || v))
      twice true v = refl
      twice false v = refl

      out : (a x : ℕ) (b : Block) → live b ≡ true → In b a x → In n a x → ⊥
      out a x b l i k = clash (inside_live a x b t l i) (new a x k)
