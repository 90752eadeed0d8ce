-- ===== src/Queues/Fifo.antt =====
-- `Queue` as a bounded first-in-first-out queue, under any sequence of calls and of steps of the feeder.
use billiard.Prelude.{
  ℕ, ◌+◌, ◌≤◌, Bool, false, subst, List, [], ◌∷◌, ◌++◌, map, length, ◌≡◌, refl, sym, ◌∙◌, if_intro,
  arith,
}
use billiard.Prelude.Int.{ℤ}
use billiard.Queues.{
  Dumped, dumped, Queue, Mode, Got, feed, get, close, waits, empty, is_forever, is_late, init,
  max_or_default, qsize,
}
use billiard.Queues.History.{
  Op, puts, feeds, gets, closes, History, start, objects, after_get, step, run,
}
use billiard.Queues.Balance.{firsts, sent_of, lost_of, Balance, objects-sentinel}
use billiard.Queues.Kept.{OnlyIndex, Inv, is_crashed, put-Inv, feed-Inv, receive-Inv}

module _ {A B : Type 0} (loads : B → A) where
  pub get-Inv :
      (size : ℕ) (closed : Bool) (mode : Mode) (held : Bool) (h : History A B)
      → Inv loads size h
      → Inv loads size (after_get (get loads closed mode held h.queue) h)
  unfolding get
  get-Inv size closed mode held h i =
      if_intro P closed (λ c. i)
        (λ c.
          if_intro P (is_forever mode)
            (λ f.
              if_intro P held (λ d. i) (λ d. receive-Inv loads size waits h.queue.pipe h refl i i))
            (λ f.
              if_intro P held (λ d. i)
                (λ d.
                  if_intro P (is_late mode) (λ l. i)
                    (λ l. receive-Inv loads size empty h.queue.pipe h refl i i))))
    where
      P : Got A (Queue A B) → Type 0
      P r = Inv loads size (after_get r h)

  pub close-Inv :
      (size : ℕ) (h : History A B)
      → Inv loads size h
      → Inv loads size (record h { queue = close h.queue })
  unfolding close
  close-Inv size h i =
      if_intro (λ q. Inv loads size (record h { queue = q })) h.queue.has_close
        (λ c. record {
          balance =
              subst
                (λ o. Balance loads size h.queue.slots h.accepted h.given h.fates o h.queue.pipe)
                (sym (objects-sentinel h.queue.buffer)) i.balance;
          size_kept = i.size_kept;
          none_over = i.none_over;
          unstarted_empty = λ u. objects-sentinel h.queue.buffer ∙ i.unstarted_empty u;
          none_lost = i.none_lost;
        })
        (λ c. record {
          balance = i.balance;
          size_kept = i.size_kept;
          none_over = i.none_over;
          unstarted_empty = i.unstarted_empty;
          none_lost = i.none_lost;
        })

  pub init-Inv :
      (sem_value_max : ℕ) (maxsize : ℤ)
      → Inv loads (max_or_default sem_value_max maxsize) (start (init sem_value_max maxsize))
  unfolding init
  init-Inv sem_value_max maxsize = record {
    balance = record { taken = refl; order = refl; room = omega arith };
    size_kept = refl;
    none_over = refl;
    unstarted_empty = λ u. refl;
    none_lost = λ r. tt;
  }

module _ {A B : Type 0} (dumps : A → Dumped B) (loads : B → A) where
  pub run-Inv :
      (size : ℕ) (ops : List (Op A)) (h : History A B)
      → ((a : A) (b : B) → dumps a ≡ dumped b → loads b ≡ a)
      → Inv loads size h
      → Inv loads size (run dumps loads ops h)
  unfolding run step feed
  run-Inv size [] h back i = i
  run-Inv size (puts mode x ∷ ops) h back i =
      run-Inv size ops _ back (put-Inv loads size mode x h i)
  run-Inv size (feeds sends ∷ ops) h back i =
      run-Inv size ops _ back (feed-Inv dumps loads size sends h.queue.feeder h back refl i)
  run-Inv size (gets closed mode held ∷ ops) h back i =
      run-Inv size ops _ back (get-Inv loads size closed mode held h i)
  run-Inv size (closes ∷ ops) h back i = run-Inv size ops _ back (close-Inv loads size h i)

  -- If loading gives back each object that dumping accepts, then after any sequence of puts, steps of the
  -- feeder, gets (of any process, with any mode) and closes of a new queue: the accepted objects are, in
  -- order, those that the feeder took and those in the buffer; those given out and then those in the pipe
  -- are, in order, the ones that it took and sent; `qsize` counts the pipe, the buffer and the objects that
  -- were lost, so that they never exceed the maximal size; no release of the slot raises; and as long as
  -- the feeder has not crashed each object that was lost was lost to an IndexError of dumping or sending.
  pub run-fifo :
      (sem_value_max : ℕ) (maxsize : ℤ) (ops : List (Op A))
      → ((a : A) (b : B) → dumps a ≡ dumped b → loads b ≡ a)
      → let h = run dumps loads ops (start (init sem_value_max maxsize)) in
        (h.accepted ≡ firsts h.fates ++ objects h.queue.buffer)
        × (h.given ++ map loads h.queue.pipe ≡ sent_of h.fates)
        × (qsize h.queue
            ≡ length h.queue.pipe + (length (lost_of h.fates) + length (objects h.queue.buffer)))
        × (qsize h.queue ≤ max_or_default sem_value_max maxsize)
        × (h.over_released ≡ false)
        × (is_crashed h.queue.feeder ≡ false → OnlyIndex h.fates)
  unfolding qsize
  run-fifo sem_value_max maxsize ops back =
      let i =
        run-Inv (max_or_default sem_value_max maxsize) ops (start (init sem_value_max maxsize)) back
          (init-Inv loads sem_value_max maxsize) in
      let room = i.balance.room in
      let size = i.size_kept in
      (
        i.balance.taken,
        i.balance.order,
        omega (arith, room, size),
        omega (arith, room, size),
        i.none_over,
        i.none_lost,
      )
