-- ===== src/Queues/Stuck.antt =====
-- A queue whose feeder has ended with an exception.
use billiard.Prelude.{
  ℕ, Bool, true, false, false≢true, Option, none, some, List, [], ◌∷◌, ◌++◌, map, ltb, ◌==◌, ◌≡◌,
  refl, sym, ap, ◌∙◌, if_intro,
}
use billiard.Prelude.Int.{ℤ}
use billiard.Queues.{
  Fault, index_error, other_error, Dumped, dumped, raised, feed_dumped, Queue, Mode, Put, Got,
  Feeder, unstarted, running, ended, crashed, put, feed, get, close, waits, empty, done, is_forever,
  is_late, is_unstarted, init, max_or_default, receive, append, feed_first, when_running,
}
use billiard.Queues.History.{
  Op, puts, feeds, gets, closes, History, start, fate_of, fates_by, Fate, lost, sent, after_put,
  after_get, step, run,
}
use billiard.Queues.Balance.{append_assoc}
use billiard.Queues.Kept.{Inv, is_crashed, put-Inv, feed-Inv, has_room, not_crashed}
use billiard.Queues.Fifo.{get-Inv, close-Inv, run-Inv, init-Inv}

module _ {A B : Type 0} (loads : B → A) where
  -- The feeder has crashed, and the given objects with those in the pipe are as told.
  abbrev Stuck : List A → History A B → Type 0
  Stuck reached h =
      (is_crashed h.queue.feeder ≡ true) × (h.given ++ map loads h.queue.pipe ≡ reached)

  put-Stuck :
      (reached : List A) (mode : Mode) (x : A) (h : History A B)
      → Stuck reached h
      → Stuck reached (after_put x (put mode x h.queue) h)
  unfolding put
  put-Stuck reached mode x h (c, e) =
      if_intro P h.queue.closed (λ d. (c, e))
        (λ d.
          if_intro P (h.queue.slots == 0)
            (λ z. if_intro P (is_forever mode) (λ f. (c, e)) (λ f. (c, e)))
            (λ z.
              if_intro (λ q. P (done (append x q))) (is_unstarted h.queue.feeder)
                (λ u. absurd (false≢true (sym (not_crashed h.queue.feeder u) ∙ c))) (λ u. (c, e))))
    where
      P : Put (Queue A B) → Type 0
      P r = Stuck reached (after_put x r h)

  receive-Stuck :
      (size : ℕ) (reached : List A) (otherwise : Got A (Queue A B)) (bs : List B) (h : History A B)
      → h.queue.pipe ≡ bs
      → Inv loads size h
      → Stuck reached h
      → Stuck reached (after_get otherwise h)
      → Stuck reached (after_get (receive loads otherwise bs h.queue) h)
  receive-Stuck size reached otherwise [] h p i s k = k
  receive-Stuck size reached otherwise (b ∷ rest) h p i (c, e) k =
      if_intro (λ r. Stuck reached (after_get r h)) (ltb h.queue.slots h.queue.maxsize)
        (λ lt. (
          c,
          append_assoc h.given (loads b ∷ []) (map loads rest)
              ∙ sym (ap (λ l. h.given ++ map loads l) p)
              ∙ e,
        ))
        (λ ge. absurd (false≢true (sym ge ∙ has_room loads b rest h p i)))

  get-Stuck :
      (size : ℕ) (reached : List A) (closed : Bool) (mode : Mode) (held : Bool) (h : History A B)
      → Inv loads size h
      → Stuck reached h
      → Stuck reached (after_get (get loads closed mode held h.queue) h)
  unfolding get
  get-Stuck size reached closed mode held h i s =
      if_intro P closed (λ c. s)
        (λ c.
          if_intro P (is_forever mode)
            (λ f.
              if_intro P held (λ d. s)
                (λ d. receive-Stuck size reached waits h.queue.pipe h refl i s s))
            (λ f.
              if_intro P held (λ d. s)
                (λ d.
                  if_intro P (is_late mode) (λ l. s)
                    (λ l. receive-Stuck size reached empty h.queue.pipe h refl i s s))))
    where
      P : Got A (Queue A B) → Type 0
      P r = Stuck reached (after_get r h)

  close-Stuck :
      (reached : List A) (h : History A B)
      → Stuck reached h
      → Stuck reached (record h { queue = close h.queue })
  unfolding close
  close-Stuck reached h s =
      if_intro (λ q. Stuck reached (record h { queue = q })) h.queue.has_close (λ c. s) (λ c. s)

module _ {A B : Type 0} (dumps : A → Dumped B) (loads : B → A) where
  feed-Stuck :
      (reached : List A) (sends : Option Fault) (f : Feeder) (h : History A B)
      → h.queue.feeder ≡ f
      → Stuck loads reached h
      → Stuck loads reached (record h {
        queue = when_running f (feed_first dumps sends h.queue.buffer h.queue) h.queue;
        fates = h.fates ++ fates_by dumps f sends h.queue.buffer;
      })
  feed-Stuck reached sends unstarted h e s = s
  feed-Stuck reached sends running h e (c, p) = absurd (false≢true (sym (ap is_crashed e) ∙ c))
  feed-Stuck reached sends ended h e s = s
  feed-Stuck reached sends crashed h e s = s

  run-Stuck :
      (size : ℕ) (reached : List A) (ops : List (Op A)) (h : History A B)
      → ((a : A) (b : B) → dumps a ≡ dumped b → loads b ≡ a)
      → Inv loads size h
      → Stuck loads reached h
      → Stuck loads reached (run dumps loads ops h)
  unfolding run step feed
  run-Stuck size reached [] h back i s = s
  run-Stuck size reached (puts mode x ∷ ops) h back i s =
      run-Stuck size reached ops _ back (put-Inv loads size mode x h i)
        (put-Stuck loads reached mode x h s)
  run-Stuck size reached (feeds sends ∷ ops) h back i s =
      run-Stuck size reached ops _ back
        (feed-Inv dumps loads size sends h.queue.feeder h back refl i)
        (feed-Stuck reached sends h.queue.feeder h refl s)
  run-Stuck size reached (gets closed mode held ∷ ops) h back i s =
      run-Stuck size reached ops _ back (get-Inv loads size closed mode held h i)
        (get-Stuck loads size reached closed mode held h i s)
  run-Stuck size reached (closes ∷ ops) h back i s =
      run-Stuck size reached ops _ back (close-Inv loads size h i) (close-Stuck loads reached h s)

  -- The object cannot be dumped or sent, for another reason than an IndexError.
  abbrev pub Unsendable : Option Fault → A → Type 0
  Unsendable sends x = fate_of sends (dumps x) ≡ lost other_error

  abbrev is_index : Fate → Bool
  is_index sent = true
  is_index (lost index_error) = true
  is_index (lost other_error) = false

  feed_dumped-crashes :
      (sends : Option Fault) (o : Dumped B) (rest : List (Option A)) (q : Queue A B)
      → fate_of sends o ≡ lost other_error
      → (is_crashed (feed_dumped sends o rest q).feeder ≡ true)
        × ((feed_dumped sends o rest q).pipe ≡ q.pipe)
  feed_dumped-crashes sends (raised index_error) rest q e =
      absurd (false≢true (sym (ap is_index e)))
  feed_dumped-crashes sends (raised other_error) rest q e = (refl, refl)
  feed_dumped-crashes none (dumped b) rest q e = absurd (false≢true (sym (ap is_index e)))
  feed_dumped-crashes (some index_error) (dumped b) rest q e =
      absurd (false≢true (sym (ap is_index e)))
  feed_dumped-crashes (some other_error) (dumped b) rest q e = (refl, refl)

  feeds-Stuck :
      (sends : Option Fault) (x : A) (rest : List (Option A)) (h : History A B)
      → h.queue.feeder ≡ running
      → h.queue.buffer ≡ some x ∷ rest
      → Unsendable sends x
      → Stuck loads (h.given ++ map loads h.queue.pipe) (step dumps loads (feeds sends) h)
  unfolding step feed
  feeds-Stuck sends x rest h r b u =
      let q : Queue A B =
        when_running h.queue.feeder (feed_first dumps sends h.queue.buffer h.queue) h.queue in
      let same : q ≡ feed_dumped sends (dumps x) rest h.queue =
        ap (λ f. when_running f (feed_first dumps sends h.queue.buffer h.queue) h.queue) r
        ∙ ap (λ os. feed_first dumps sends os h.queue) b in
      let (c, p) = feed_dumped-crashes sends (dumps x) rest h.queue u in
      (
        ap (λ (k : Queue A B). is_crashed k.feeder) same ∙ c,
        ap (λ (k : Queue A B). h.given ++ map loads k.pipe) same
            ∙ ap (λ bs. h.given ++ map loads bs) p,
      )

  feeds-Inv :
      (size : ℕ) (sends : Option Fault) (h : History A B)
      → ((a : A) (b : B) → dumps a ≡ dumped b → loads b ≡ a)
      → Inv loads size h
      → Inv loads size (step dumps loads (feeds sends) h)
  unfolding step feed
  feeds-Inv size sends h back i = feed-Inv dumps loads size sends h.queue.feeder h back refl i

  -- After any calls of a queue, when the running feeder comes to an object whose dumping or sending raises
  -- anything but an IndexError: this ends the feeder for good, and whatever is called later, what was given
  -- to readers with what is in the pipe stays as it was before. So neither this object nor one that was
  -- behind it in the buffer or is put later reaches a reader. Loading is to give back each object that
  -- dumping accepts.
  pub run-crashed :
      (sem_value_max : ℕ) (maxsize : ℤ) (ops later : List (Op A)) (sends : Option Fault) (x : A)
      (rest : List (Option A))
      → ((a : A) (b : B) → dumps a ≡ dumped b → loads b ≡ a)
      → (run dumps loads ops (start (init sem_value_max maxsize))).queue.feeder ≡ running
      → (run dumps loads ops (start (init sem_value_max maxsize))).queue.buffer ≡ some x ∷ rest
      → Unsendable sends x
      → let h = run dumps loads ops (start (init sem_value_max maxsize)) in
        let h' = run dumps loads later (step dumps loads (feeds sends) h) in
        (is_crashed h'.queue.feeder ≡ true)
        × (h'.given ++ map loads h'.queue.pipe ≡ h.given ++ map loads h.queue.pipe)
  run-crashed sem_value_max maxsize ops later sends x rest back r b u =
      let h = run dumps loads ops (start (init sem_value_max maxsize)) in
      let size = max_or_default sem_value_max maxsize in
      run-Stuck size (h.given ++ map loads h.queue.pipe) later (step dumps loads (feeds sends) h)
        back
        (feeds-Inv size sends h back
          (run-Inv dumps loads size ops _ back (init-Inv loads sem_value_max maxsize)))
        (feeds-Stuck sends x rest h r b u)
