-- ===== src/Queues/Joinable.antt =====
-- billiard/queues.py, `class JoinableQueue`: a queue that counts the objects which are not done yet. The
-- overflow of its counter, of which the source warns, is not modelled.
use billiard.Prelude.{
  ℕ, zero, suc, ◌+◌, ◌-◌, Option, none, some, List, [], ◌∷◌, ◌==◌, ==_iff, ◌≡◌, ◌↔◌, refl,
  if◌then◌else◌, if_intro, arith,
}
use billiard.Queues.{Queue, Mode, Put, value_error, full, waits, done, put}

-- `unfinished` is the value of `_unfinished_tasks`; `joiners` counts the callers of `join` that wait.
pub record Joinable (A B : Type 0) : Type 0 where
  pub queue : Queue A B
  pub unfinished : ℕ
  pub joiners : ℕ

-- A call, or whatever else happens to the queue meanwhile.
pub data Call (A B : Type 0) : Type 0 where
  puts : Mode → A → Call A B
  dones joins : Call A B
  meanwhile : (Queue A B → Queue A B) → Call A B

-- The queue, with the number of the accepted objects and that of the calls of `task_done` that succeeded.
pub record Counted (A B : Type 0) : Type 0 where
  pub joinable : Joinable A B
  pub accepted : ℕ
  pub finished : ℕ

module _ {A B : Type 0} where
  abbrev pub count_put : Put (Queue A B) → Joinable A B → Put (Joinable A B)
  count_put value_error j = value_error
  count_put full j = full
  count_put waits j = waits
  count_put (done q) j = done (record j { queue = q; unfinished = j.unfinished + 1 })

  -- `JoinableQueue.put`, which repeats the steps of `Queue.put` before it counts the object.
  unfoldable pub put_task : Mode → A → Joinable A B → Put (Joinable A B)
  unfolding put
  put_task mode x j = count_put (put mode x j.queue) j

  -- None is the ValueError of one call too many. The last task wakes all that wait in `join`.
  unfoldable pub task_done : Joinable A B → Option (Joinable A B)
  task_done j =
      if j.unfinished == 0
      then none
      else some (record j {
        unfinished = j.unfinished - 1;
        joiners = if j.unfinished - 1 == 0 then 0 else j.joiners;
      })

  -- The caller goes on, or waits.
  unfoldable pub join : Joinable A B → Joinable A B
  join j = if j.unfinished == 0 then j else record j { joiners = j.joiners + 1 }

  -- `__init__`
  unfoldable pub init : Queue A B → Joinable A B
  init q = record { queue = q; unfinished = 0; joiners = 0 }

  abbrev after_put : Put (Joinable A B) → Counted A B → Counted A B
  after_put value_error c = c
  after_put full c = c
  after_put waits c = c
  after_put (done j) c = record c { joinable = j; accepted = c.accepted + 1 }

  abbrev after_done : Option (Joinable A B) → Counted A B → Counted A B
  after_done none c = c
  after_done (some j) c = record c { joinable = j; finished = c.finished + 1 }

  unfoldable pub step : Call A B → Counted A B → Counted A B
  unfolding put_task task_done join
  step (puts mode x) c = after_put (put_task mode x c.joinable) c
  step dones c = after_done (task_done c.joinable) c
  step joins c = record c { joinable = join c.joinable }
  step (meanwhile f) c = record c { joinable = record c.joinable { queue = f c.joinable.queue } }

  unfoldable pub run : List (Call A B) → Counted A B → Counted A B
  unfolding step
  run [] c = c
  run (call ∷ calls) c = run calls (step call c)

  record Inv (c : Counted A B) : Type 0 where
    counts : c.joinable.unfinished + c.finished ≡ c.accepted
    no_joiners : c.joinable.unfinished ≡ 0 → c.joinable.joiners ≡ 0

  count_put-Inv :
      (r : Put (Queue A B)) (c : Counted A B) → Inv c → Inv (after_put (count_put r c.joinable) c)
  count_put-Inv value_error c i = i
  count_put-Inv full c i = i
  count_put-Inv waits c i = i
  count_put-Inv (done q) c i = record {
    counts = let n = i.counts in omega (arith, n);
    no_joiners = λ z. absurd (omega (arith, z));
  }

  done-Inv : (c : Counted A B) → Inv c → Inv (after_done (task_done c.joinable) c)
  unfolding task_done
  done-Inv c i =
      if_intro (λ r. Inv (after_done r c)) (c.joinable.unfinished == 0) (λ z. i)
        (λ p. record {
          counts = let n = i.counts in ground (arith, ==_iff c.joinable.unfinished 0, n, p);
          no_joiners = λ z. no_joiners_at (c.joinable.unfinished - 1) c.joinable.joiners z;
        })
    where
      no_joiners_at : (n m : ℕ) → n ≡ 0 → (if n == 0 then 0 else m) ≡ 0
      no_joiners_at zero m z = refl
      no_joiners_at (suc n) m z = absurd (omega (arith, z))

  join-Inv : (c : Counted A B) → Inv c → Inv (record c { joinable = join c.joinable })
  unfolding join
  join-Inv c i =
      if_intro (λ j. Inv (record c { joinable = j })) (c.joinable.unfinished == 0)
        (λ z. record { counts = i.counts; no_joiners = i.no_joiners })
        (λ p. record {
          counts = i.counts;
          no_joiners = λ z. absurd (ground (arith, ==_iff c.joinable.unfinished 0, z, p));
        })

  run-Inv : (calls : List (Call A B)) (c : Counted A B) → Inv c → Inv (run calls c)
  unfolding run step put_task
  run-Inv [] c i = i
  run-Inv (puts mode x ∷ calls) c i =
      run-Inv calls _ (count_put-Inv (put mode x c.joinable.queue) c i)
  run-Inv (dones ∷ calls) c i = run-Inv calls _ (done-Inv c i)
  run-Inv (joins ∷ calls) c i = run-Inv calls _ (join-Inv c i)
  run-Inv (meanwhile f ∷ calls) c i =
      run-Inv calls _ (record { counts = i.counts; no_joiners = i.no_joiners })

  task_done-none :
      (c : Counted A B)
      → c.joinable.unfinished + c.finished ≡ c.accepted
      → (task_done c.joinable ≡ none) ↔ (c.finished ≡ c.accepted)
  unfolding task_done
  task_done-none c n =
      if_intro (λ (r : Option (Joinable A B)). (r ≡ none) ↔ (c.finished ≡ c.accepted))
        (c.joinable.unfinished == 0)
        (λ z. (λ e. ground (arith, ==_iff c.joinable.unfinished 0, n, z), λ e. refl))
        (λ p.
          (λ e. absurd (cc), λ e. absurd (ground (arith, ==_iff c.joinable.unfinished 0, n, p, e))))

  -- Under any sequence of puts, calls of task_done and of join, and of other changes of the queue, the
  -- counter of a new JoinableQueue is the number of the accepted objects less the number of the calls of
  -- task_done that succeeded; a further call of task_done raises exactly if the two are equal, and then
  -- no caller of join is left waiting.
  pub task_done-count :
      (q : Queue A B) (calls : List (Call A B))
      → let c = run calls (record { joinable = init q; accepted = 0; finished = 0 }) in
        (c.joinable.unfinished + c.finished ≡ c.accepted)
        × ((task_done c.joinable ≡ none) ↔ (c.finished ≡ c.accepted))
        × (c.finished ≡ c.accepted → c.joinable.joiners ≡ 0)
  unfolding init
  task_done-count q calls =
      let i = run-Inv calls _ (record { counts = refl; no_joiners = λ z. refl }) in
      let n = i.counts in (n, task_done-none _ n, λ e. i.no_joiners (omega (arith, n, e)))
