-- ===== src/Pool/Front/Submits.antt =====
-- What each submission of a job keeps of the task queue.
use billiard.Prelude.{
  ℕ, suc, ◌+◌, ◌≤◌, true, ◌≡◌, refl, sym, ap, ◌∙◌, ◌⊎◌, inl, inr, Bool, true, Option, none, some,
  List, [], ◌∷◌, ◌++◌, length, ◌==◌, arith, if_intro,
}
use billiard.Pool.Front.{
  is_running, Entry, Kind, Front, Submitted, refused, value_error, zero_division, waits, accepted,
  enqueue, map_entry, take_slot, or_default, after_slot, put_task, put_map, map_chunksize,
  apply_async, resume, imap, map_async,
}
use billiard.Pool.Front.Calls.{AllTasks, jobs, late, IsNumbered}

module _ {A : Type 0} where
  pub record Inv (k : ℕ) (s : Front A) : Type 0 where
    pub numbered : IsNumbered 0 s.next_job s.taskqueue
    pub tasks : is_running s.state ≡ true → AllTasks s.taskqueue
    pub few : late s.taskqueue ≤ k

  AllTasks-append :
      (q : List (Option (Entry A))) (e : Entry A) → AllTasks q → AllTasks (q ++ some e ∷ [])
  AllTasks-append [] e h = tt
  AllTasks-append (some d ∷ q) e h = AllTasks-append q e h
  AllTasks-append (none ∷ q) e h = absurd h

  AllTasks-late : (q : List (Option (Entry A))) → AllTasks q → late q ≡ 0
  AllTasks-late [] h = refl
  AllTasks-late (some d ∷ q) h = AllTasks-late q h
  AllTasks-late (none ∷ q) h = absurd h

  jobs-sentinel : (q : List (Option (Entry A))) → jobs (q ++ none ∷ []) ≡ jobs q
  jobs-sentinel [] = refl
  jobs-sentinel (some d ∷ q) = ap suc (jobs-sentinel q)
  jobs-sentinel (none ∷ q) = jobs-sentinel q

  pub late-sentinel : (q : List (Option (Entry A))) → late (q ++ none ∷ []) ≡ late q
  late-sentinel [] = refl
  late-sentinel (some d ∷ q) = late-sentinel q
  late-sentinel (none ∷ q) = jobs-sentinel q

  jobs-append : (q : List (Option (Entry A))) (e : Entry A) → jobs (q ++ some e ∷ []) ≡ suc (jobs q)
  jobs-append [] e = refl
  jobs-append (some d ∷ q) e = ap suc (jobs-append q e)
  jobs-append (none ∷ q) e = jobs-append q e

  late-append : (q : List (Option (Entry A))) (e : Entry A) → late (q ++ some e ∷ []) ≤ suc (late q)
  late-append [] e = omega arith
  late-append (some d ∷ q) e = late-append q e
  late-append (none ∷ q) e = omega (arith, jobs-append q e)

  IsNumbered-append :
      (lo hi : ℕ) (q : List (Option (Entry A))) (e : Entry A)
      → e.job ≡ hi
      → IsNumbered lo hi q
      → IsNumbered lo (suc hi) (q ++ some e ∷ [])
  IsNumbered-append lo hi [] e same h = (omega (arith, same), omega (arith, same))
  IsNumbered-append lo hi (some d ∷ q) e same h =
      (h.0, IsNumbered-append (d.job + 1) hi q e same h.1)
  IsNumbered-append lo hi (none ∷ q) e same h = IsNumbered-append lo hi q e same h

  pub IsNumbered-sentinel :
      (lo hi : ℕ) (q : List (Option (Entry A)))
      → IsNumbered lo hi q
      → IsNumbered lo hi (q ++ none ∷ [])
  IsNumbered-sentinel lo hi [] h = h
  IsNumbered-sentinel lo hi (some d ∷ q) h = (h.0, IsNumbered-sentinel (d.job + 1) hi q h.1)
  IsNumbered-sentinel lo hi (none ∷ q) h = IsNumbered-sentinel lo hi q h

  IsNumbered-suc :
      (lo hi : ℕ) (q : List (Option (Entry A))) → IsNumbered lo hi q → IsNumbered lo (suc hi) q
  IsNumbered-suc lo hi [] h = omega arith
  IsNumbered-suc lo hi (some d ∷ q) h = (h.0, IsNumbered-suc (d.job + 1) hi q h.1)
  IsNumbered-suc lo hi (none ∷ q) h = IsNumbered-suc lo hi q h

  -- A job goes to the end of the queue of a running pool.
  enqueue-Inv :
      (k : ℕ) (s : Front A) (e : Entry A)
      → is_running s.state ≡ true
      → e.job ≡ s.next_job
      → Inv k s
      → (t : Front A) → t.state ≡ s.state
      → t.next_job ≡ suc s.next_job
      → t.taskqueue ≡ s.taskqueue ++ some e ∷ []
      → Inv k t
  enqueue-Inv k s e runs same h t st n q =
      let all = AllTasks-append s.taskqueue e (h.tasks runs) in
      record {
        numbered = rw (n, q) (IsNumbered-append 0 s.next_job s.taskqueue e same h.numbered);
        tasks = λ r. rw q all;
        few = rw q (omega (arith, AllTasks-late (s.taskqueue ++ some e ∷ []) all));
      }

  -- Only the number has gone up, or nothing that counts has changed.
  pub keep-Inv :
      (k : ℕ) (s t : Front A)
      → Inv k s
      → t.state ≡ s.state
      → (t.next_job ≡ s.next_job) ⊎ (t.next_job ≡ suc s.next_job)
      → t.taskqueue ≡ s.taskqueue
      → Inv k t
  keep-Inv k s t h st (inl n) q = record {
    numbered = rw (n, q) h.numbered;
    tasks = λ r. rw q (h.tasks (ap is_running (sym st) ∙ r));
    few = rw q h.few;
  }
  keep-Inv k s t h st (inr n) q = record {
    numbered = rw (n, q) (IsNumbered-suc 0 s.next_job s.taskqueue h.numbered);
    tasks = λ r. rw q (h.tasks (ap is_running (sym st) ∙ r));
    few = rw q h.few;
  }

  take_slot-keeps :
      (b : Bool) (s t : Front A)
      → take_slot b s ≡ some t
      → (t.state ≡ s.state) × (t.next_job ≡ s.next_job) × (t.taskqueue ≡ s.taskqueue)
  take_slot-keeps b s t e = (ground (arith, e), ground (arith, e), ground (arith, e))

  abbrev pub Good : ℕ → Submitted A → Type 0
  Good k refused = Unit {0}
  Good k value_error = Unit {0}
  Good k zero_division = Unit {0}
  Good k waits = Unit {0}
  Good k (accepted n front) = Inv k front

  put_task-Good :
      (k : ℕ) (x : A) (s : Front A) → is_running s.state ≡ true → Inv k s → Good k (put_task x s)
  put_task-Good k x s r h =
      if_intro (Inv k) s.threads (λ t. enqueue-Inv k s _ r refl h _ refl refl refl)
        (λ t. keep-Inv k s _ h refl (inr refl) refl)

  after_slot-Good :
      (k : ℕ) (x : A) (s : Front A) (o : Option (Front A))
      → is_running s.state ≡ true
      → Inv k s
      → ((t : Front A)
          → o ≡ some t
          → (t.state ≡ s.state) × (t.next_job ≡ s.next_job) × (t.taskqueue ≡ s.taskqueue))
      → Good k (after_slot x o)
  after_slot-Good k x s none r h same = tt
  after_slot-Good k x s (some t) r h same =
      let (st, n, q) = same t refl in
      put_task-Good k x t (ap is_running st ∙ r) (keep-Inv k s t h st (inl n) q)

  pub apply_async-Good :
      (k : ℕ) (w : Option Bool) (x : A) (s : Front A) → Inv k s → Good k (apply_async w x s)
  unfolding apply_async
  apply_async-Good k w x s h =
      if_intro (Good k) (is_running s.state)
        (λ r.
          after_slot-Good k x s (take_slot (or_default w s.putlocks) s) r h
            (take_slot-keeps (or_default w s.putlocks) s))
        (λ r. tt)

  -- A caller that goes on may be one late job more.
  late_put-Inv :
      (k : ℕ) (s : Front A) (e : Entry A)
      → e.job ≡ s.next_job
      → Inv k s
      → (t : Front A) → t.state ≡ s.state
      → t.next_job ≡ suc s.next_job
      → t.taskqueue ≡ s.taskqueue ++ some e ∷ []
      → Inv (suc k) t
  late_put-Inv k s e same h t st n q =
      let few = h.few in
      record {
        numbered = rw (n, q) (IsNumbered-append 0 s.next_job s.taskqueue e same h.numbered);
        tasks = λ r. rw q (AllTasks-append s.taskqueue e (h.tasks (ap is_running (sym st) ∙ r)));
        few = rw q (omega (arith, late-append s.taskqueue e, few));
      }

  more-Inv : (k : ℕ) (s : Front A) → Inv k s → Inv (suc k) s
  more-Inv k s h =
      let few = h.few in record { numbered = h.numbered; tasks = h.tasks; few = omega (arith, few) }

  pub resume-Good : (k : ℕ) (x : A) (s : Front A) → Inv k s → Good (suc k) (resume x s)
  unfolding resume
  resume-Good k x s h = slot (take_slot true s) (take_slot-keeps true s)
    where
      put : (t : Front A) → Inv k t → Good (suc k) (put_task x t)
      put t i =
          if_intro (Inv (suc k)) t.threads (λ b. late_put-Inv k t _ refl i _ refl refl refl)
            (λ b. more-Inv k _ (keep-Inv k t _ i refl (inr refl) refl))

      slot :
          (o : Option (Front A))
          → ((t : Front A)
              → o ≡ some t
              → (t.state ≡ s.state) × (t.next_job ≡ s.next_job) × (t.taskqueue ≡ s.taskqueue))
          → Good (suc k) (after_slot x o)
      slot none same = tt
      slot (some t) same = let (st, n, q) = same t refl in put t (keep-Inv k s t h st (inl n) q)

  pub imap-Good :
      (k : ℕ) (kind : Kind) (items : List A) (chunksize : ℕ) (s : Front A)
      → Inv k s
      → Good k (imap kind items chunksize s)
  unfolding imap
  imap-Good k kind items chunksize s h =
      if_intro (Good k) (is_running s.state)
        (λ r.
          if_intro (Good k) (chunksize == 0) (λ z. tt)
            (λ z. enqueue-Inv k s _ r refl h _ refl refl refl))
        (λ r. tt)

  put_map-Good :
      (k : ℕ) (items : List A) (c : ℕ) (s : Front A)
      → is_running s.state ≡ true
      → Inv k s
      → Good k (put_map items s c)
  put_map-Good k items c s r h =
      if_intro (λ t. Inv k (enqueue (map_entry items c s.next_job) t)) (c == 0)
        (λ z. enqueue-Inv k s (map_entry items c s.next_job) r refl h _ refl refl refl)
        (λ z. enqueue-Inv k s (map_entry items c s.next_job) r refl h _ refl refl refl)

  pub map_async-Good :
      (k : ℕ) (items : List A) (chunksize : Option ℕ) (s : Front A)
      → Inv k s
      → Good k (map_async items chunksize s)
  unfolding map_async
  map_async-Good k items chunksize s h =
      if_intro (Good k) (is_running s.state)
        (λ r. after_size items s (map_chunksize (length items) chunksize s.workers) r h) (λ r. tt)
    where
      after_size :
          (items : List A) (s : Front A) (o : Option ℕ)
          → is_running s.state ≡ true
          → Inv k s
          → Good k (elim o [ none ↦ zero_division | some c ↦ put_map items s c ])
      after_size items s none r h = tt
      after_size items s (some c) r h = put_map-Good k items c s r h
