-- ===== src/Queues/Kept.antt =====
-- What each call of a queue, and each step of its feeder, keeps.
use billiard.Prelude.{
  ℕ, ◌-◌, Bool, true, false, false≢true, subst, Option, none, some, List, [], ◌∷◌, ◌++◌, ltb, ◌==◌,
  ◌≡◌, refl, sym, ap, ◌∙◌, if_intro,
}
use billiard.Queues.{
  Fault, index_error, other_error, Dumped, dumped, raised, fault, Queue, Mode, Put, Got, Feeder,
  unstarted, running, ended, crashed, put, done, is_forever, is_unstarted, receive, append,
  feed_dumped, feed_first, when_running,
}
use billiard.Queues.History.{
  Fate, sent, lost, History, objects, fate_of, fate_first, fates_by, after_put, after_get,
}
use billiard.Queues.Balance.{
  Balance, Balance-put, Balance-send, Balance-lose, Balance-get, Balance-room, objects-append,
}

abbrev pub is_crashed : Feeder → Bool
is_crashed unstarted = false
is_crashed running = false
is_crashed ended = false
is_crashed crashed = true

pub not_crashed : (f : Feeder) → is_unstarted f ≡ true → is_crashed f ≡ false
not_crashed unstarted u = refl
not_crashed running u = refl
not_crashed ended u = refl
not_crashed crashed u = absurd (false≢true u)

-- Nothing was lost but to an IndexError.
abbrev pub LostSo : Fate → Type 0
LostSo sent = Unit {0}
LostSo (lost index_error) = Unit {0}
LostSo (lost other_error) = ⊥

abbrev pub OnlyIndex : {A : Type 0} → List (A × Fate) → Type 0
OnlyIndex [] = Unit {0}
OnlyIndex ((x, f) ∷ fates) = LostSo f × OnlyIndex fates

OnlyIndex-append :
    {A : Type 0} (fates : List (A × Fate)) (x : A) (f : Fate)
    → OnlyIndex fates
    → LostSo f
    → OnlyIndex (fates ++ (x, f) ∷ [])
OnlyIndex-append [] x f h l = (l, tt)
OnlyIndex-append ((y, g) ∷ fates) x f h l = (h.0, OnlyIndex-append fates x f h.1 l)

append_nil : {A : Type 0} (xs : List A) → xs ++ [] ≡ xs
append_nil [] = refl
append_nil (x ∷ xs) = ap (λ l. x ∷ l) (append_nil xs)

module _ {A B : Type 0} (loads : B → A) where
  pub record Inv (size : ℕ) (h : History A B) : Type 0 where
    pub balance :
        Balance loads size h.queue.slots h.accepted h.given h.fates
          (objects h.queue.buffer)
          h.queue.pipe
    pub size_kept : h.queue.maxsize ≡ size
    pub none_over : h.over_released ≡ false
    pub unstarted_empty : is_unstarted h.queue.feeder ≡ true → objects h.queue.buffer ≡ []
    pub none_lost : is_crashed h.queue.feeder ≡ false → OnlyIndex h.fates

  pub put-Inv :
      (size : ℕ) (mode : Mode) (x : A) (h : History A B)
      → Inv size h
      → Inv size (after_put x (put mode x h.queue) h)
  unfolding put
  put-Inv size mode x h i =
      if_intro P h.queue.closed (λ c. i)
        (λ c.
          if_intro P (h.queue.slots == 0) (λ z. if_intro P (is_forever mode) (λ f. i) (λ f. i))
            (λ z.
              if_intro (λ q. P (done (append x q))) (is_unstarted h.queue.feeder)
                (λ u. record {
                  balance = Balance-put loads x z (
                      subst
                        (λ o.
                          Balance loads size h.queue.slots h.accepted h.given h.fates o
                            h.queue.pipe)
                        (i.unstarted_empty u) i.balance);
                  size_kept = i.size_kept;
                  none_over = i.none_over;
                  unstarted_empty = λ f. absurd (false≢true f);
                  none_lost = λ f. i.none_lost (not_crashed h.queue.feeder u);
                })
                (λ u. record {
                  balance =
                      subst
                        (λ o.
                          Balance loads size (h.queue.slots - 1) (h.accepted ++ x ∷ []) h.given
                            h.fates o h.queue.pipe)
                        (sym (objects-append h.queue.buffer x)) (Balance-put loads x z i.balance);
                  size_kept = i.size_kept;
                  none_over = i.none_over;
                  unstarted_empty = λ f. absurd (false≢true (sym u ∙ f));
                  none_lost = i.none_lost;
                })))
    where
      P : Put (Queue A B) → Type 0
      P r = Inv size (after_put x r h)

  Balance-at :
      {size : ℕ} (h : History A B) (os : List (Option A))
      → Inv size h
      → h.queue.buffer ≡ os
      → Balance loads size h.queue.slots h.accepted h.given h.fates (objects os) h.queue.pipe
  Balance-at {size = size} h os i e =
      subst
        (λ o. Balance loads size h.queue.slots h.accepted h.given h.fates (objects o) h.queue.pipe)
        e i.balance

  lose-Inv :
      (size : ℕ) (e : Fault) (x : A) (rest : List (Option A)) (h : History A B)
      → is_crashed h.queue.feeder ≡ false
      → is_unstarted h.queue.feeder ≡ false
      → h.queue.buffer ≡ some x ∷ rest
      → Inv size h
      → Inv size (record h { queue = fault e rest h.queue; fates = h.fates ++ (x, lost e) ∷ [] })
  lose-Inv size index_error x rest h r u e i = record {
    balance = Balance-lose loads x index_error (Balance-at h (some x ∷ rest) i e);
    size_kept = i.size_kept;
    none_over = i.none_over;
    unstarted_empty = λ f. absurd (false≢true (sym u ∙ f));
    none_lost = λ f. OnlyIndex-append h.fates x (lost index_error) (i.none_lost r) tt;
  }
  lose-Inv size other_error x rest h r u e i = record {
    balance = Balance-lose loads x other_error (Balance-at h (some x ∷ rest) i e);
    size_kept = i.size_kept;
    none_over = i.none_over;
    unstarted_empty = λ f. absurd (false≢true f);
    none_lost = λ f. absurd (false≢true (sym f));
  }

  feed_object-Inv :
      (size : ℕ) (sends : Option Fault) (x : A) (rest : List (Option A)) (h : History A B)
      (o : Dumped B)
      → ((b : B) → o ≡ dumped b → loads b ≡ x)
      → is_crashed h.queue.feeder ≡ false
      → is_unstarted h.queue.feeder ≡ false
      → h.queue.buffer ≡ some x ∷ rest
      → Inv size h
      → Inv size (record h {
        queue = feed_dumped sends o rest h.queue;
        fates = h.fates ++ (x, fate_of sends o) ∷ [];
      })
  feed_object-Inv size sends x rest h (raised g) back r u e i = lose-Inv size g x rest h r u e i
  feed_object-Inv size (some g) x rest h (dumped b) back r u e i = lose-Inv size g x rest h r u e i
  feed_object-Inv size none x rest h (dumped b) back r u e i = record {
    balance = Balance-send loads x b (back b refl) (Balance-at h (some x ∷ rest) i e);
    size_kept = i.size_kept;
    none_over = i.none_over;
    unstarted_empty = λ f. absurd (false≢true (sym u ∙ f));
    none_lost = λ f. OnlyIndex-append h.fates x sent (i.none_lost r) tt;
  }

  Balance-of :
      {size : ℕ} (b : B) (rest : List B) (h : History A B)
      → h.queue.pipe ≡ b ∷ rest
      → Inv size h
      → Balance loads size h.queue.slots h.accepted h.given h.fates
          (objects h.queue.buffer)
          (b ∷ rest)
  Balance-of {size = size} b rest h e i =
      subst
        (λ p.
          Balance loads size h.queue.slots h.accepted h.given h.fates (objects h.queue.buffer) p)
        e i.balance

  -- What is in the pipe has a slot.
  pub has_room :
      {size : ℕ} (b : B) (rest : List B) (h : History A B)
      → h.queue.pipe ≡ b ∷ rest
      → Inv size h
      → ltb h.queue.slots h.queue.maxsize ≡ true
  has_room b rest h e i =
      ap (λ m. ltb h.queue.slots m) i.size_kept ∙ Balance-room loads b (Balance-of b rest h e i)

  pub receive-Inv :
      (size : ℕ) (otherwise : Got A (Queue A B)) (bs : List B) (h : History A B)
      → h.queue.pipe ≡ bs
      → Inv size h
      → Inv size (after_get otherwise h)
      → Inv size (after_get (receive loads otherwise bs h.queue) h)
  receive-Inv size otherwise [] h e i k = k
  receive-Inv size otherwise (b ∷ rest) h e i k =
      if_intro (λ r. Inv size (after_get r h)) (ltb h.queue.slots h.queue.maxsize)
        (λ lt. record {
          balance = Balance-get loads b (Balance-of b rest h e i);
          size_kept = i.size_kept;
          none_over = i.none_over;
          unstarted_empty = i.unstarted_empty;
          none_lost = i.none_lost;
        })
        (λ ge. absurd (false≢true (sym ge ∙ has_room b rest h e i)))

module _ {A B : Type 0} (dumps : A → Dumped B) (loads : B → A) where
  same-Inv :
      (size : ℕ) (h : History A B)
      → Inv loads size h
      → Inv loads size (record h { fates = h.fates ++ [] })
  same-Inv size h i =
      subst (λ l. Inv loads size (record h { fates = l })) (sym (append_nil h.fates)) i

  feed_first-Inv :
      (size : ℕ) (sends : Option Fault) (os : List (Option A)) (h : History A B)
      → ((a : A) (b : B) → dumps a ≡ dumped b → loads b ≡ a)
      → is_crashed h.queue.feeder ≡ false
      → is_unstarted h.queue.feeder ≡ false
      → h.queue.buffer ≡ os
      → Inv loads size h
      → Inv loads size (record h {
        queue = feed_first dumps sends os h.queue;
        fates = h.fates ++ fate_first dumps sends os;
      })
  feed_first-Inv size sends [] h back r u e i = same-Inv size h i
  feed_first-Inv size sends (none ∷ rest) h back r u e i =
      same-Inv size (record h { queue = record h.queue { buffer = rest; feeder = ended } })
        (record {
          balance = Balance-at loads h (none ∷ rest) i e;
          size_kept = i.size_kept;
          none_over = i.none_over;
          unstarted_empty = λ f. absurd (false≢true f);
          none_lost = λ f. i.none_lost r;
        })
  feed_first-Inv size sends (some x ∷ rest) h back r u e i =
      feed_object-Inv loads size sends x rest h (dumps x) (back x) r u e i

  pub feed-Inv :
      (size : ℕ) (sends : Option Fault) (f : Feeder) (h : History A B)
      → ((a : A) (b : B) → dumps a ≡ dumped b → loads b ≡ a)
      → h.queue.feeder ≡ f
      → Inv loads size h
      → Inv loads size (record h {
        queue = when_running f (feed_first dumps sends h.queue.buffer h.queue) h.queue;
        fates = h.fates ++ fates_by dumps f sends h.queue.buffer;
      })
  feed-Inv size sends unstarted h back e i = same-Inv size h i
  feed-Inv size sends running h back e i =
      feed_first-Inv size sends h.queue.buffer h back (ap is_crashed e) (ap is_unstarted e) refl i
  feed-Inv size sends ended h back e i = same-Inv size h i
  feed-Inv size sends crashed h back e i = same-Inv size h i
