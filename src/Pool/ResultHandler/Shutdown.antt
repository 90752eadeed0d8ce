-- ===== src/Pool/ResultHandler/Shutdown.antt =====
-- The end of the result thread.
use billiard.Prelude.{
  ℕ, ◌+◌, ◌≤◌, ◌<◌, ◌≡◌, subst, sym, inl, inr, Bool, true, false, none, some, List, [], ◌∷◌, length,
  ltb, ◌==◌, arith, Bool-cases,
}
use billiard.Pool.ResultHandler.{JobClass, Kill, Handler, Outcome, done, raised, on_state_change}
use billiard.Pool.ResultHandler.Loop.{
  ThreadState, running, closed, terminated, Poll, broken, nothing, sentinel, message, Left, drained,
  stopped, disconnected, timed_out, waits, crashed, workers_joined, Last, is_empty, exits, or_else,
  after_message, after_poll, after_reaping, finish,
}

-- The thread has left the loop.
abbrev pub HasLeft : {J : Type 0} → Left J → Type 0
HasLeft (drained h) = Unit {0}
HasLeft (stopped h) = Unit {0}
HasLeft (disconnected h) = Unit {0}
HasLeft (timed_out h) = Unit {0}
HasLeft (waits h) = ⊥
HasLeft (crashed e h) = Unit {0}

abbrev pub NoSentinel : {Obj : Type 0} → Poll Obj → Type 0
NoSentinel broken = Unit {0}
NoSentinel nothing = Unit {0}
NoSentinel sentinel = ⊥
NoSentinel (message m) = Unit {0}

-- In every round the reaping finds no worker, there is no further sentinel, and the clock goes on by a
-- tick at least, from t.
abbrev pub Gone : {J Obj : Type 0} → ℕ → List (Last J Obj) → Type 0
Gone {J} t [] = Unit {0}
Gone {J} t (r ∷ rs) =
    ((h : Handler J) → (h' : Handler J) × (r.join_exited_workers h ≡ workers_joined h'))
    × NoSentinel r.poll
    × (t ≤ r.now)
    × Gone (r.now + 1) rs

is_set : (t : ℕ) → 0 < t → (t == 0) ≡ false
is_set t h = ground arith

not_over : (a b : ℕ) → ltb a b ≡ false → b ≤ a
not_over a b h = ground arith

module _ {J Obj : Type 0} (class : JobClass J Obj) (kill : ℕ → Kill) where
  or_else-HasLeft :
      (state : ThreadState) (b : Bool) (h : Handler J) (rest : Left J)
      → HasLeft rest
      → HasLeft (or_else class kill (exits class kill state b h) rest)
  or_else-HasLeft state true h rest l = tt
  or_else-HasLeft running false h rest l = l
  or_else-HasLeft closed false h rest l = l
  or_else-HasLeft terminated false h rest l = tt

  after_message-HasLeft :
      (o : Outcome J) (reap : Handler J → Left J)
      → ((g : Handler J) → HasLeft (reap g))
      → HasLeft (after_message class kill o reap)
  after_message-HasLeft (done h) reap l = l h
  after_message-HasLeft (raised e h) reap l = tt

  after_poll-HasLeft :
      (p : Poll Obj) (h : Handler J) (reap rest : Handler J → Left J)
      → NoSentinel p
      → ((g : Handler J) → HasLeft (reap g))
      → HasLeft (after_poll class kill p h reap rest)
  after_poll-HasLeft broken h reap rest quiet l = tt
  after_poll-HasLeft nothing h reap rest quiet l = l h
  after_poll-HasLeft sentinel h reap rest quiet l = elim quiet [ ]
  after_poll-HasLeft (message m) h reap rest quiet l =
      after_message-HasLeft (on_state_change class kill m h) reap l

  -- The clock reads at least t, and the first WorkersJoined was at t0.
  finish-counting :
      (grace t0 t : ℕ) (rs : List (Last J Obj)) (h : Handler J)
      → 0 < t0
      → t ≤ t0 + grace + 1
      → t0 + grace + 2 ≤ t + length rs
      → Gone t rs
      → HasLeft (finish class kill grace rs (some t0) h)
  unfolding finish
  finish-counting grace t0 t [] h some_tick early enough gone = absurd (omega arith)
  finish-counting grace t0 t (r ∷ rs) h some_tick early enough gone =
      or_else-HasLeft r.state (is_empty h.cache) h _ (
        after_poll-HasLeft r.poll (r.check_timeouts h) _ (finish class kill grace rs (some t0))
          gone.1
          (λ g.
            let (g', e) = gone.0 g in
            subst
              (λ j.
                HasLeft
                  (after_reaping class kill grace (some t0) r.now j (finish class kill grace rs)))
              (sym e)
              (elim (Bool-cases (ltb (t0 + grace) r.now)) [
                | inl over ↦ ground (arith, over)
                | inr still ↦
                    rw (is_set t0 some_tick, still)
                      (finish-counting grace t0 (r.now + 1) rs g' some_tick
                        (omega (arith, not_over (t0 + grace) r.now still)) (omega (arith, gone.2))
                        gone.3)
              ])))

  -- Once every reaping finds that no worker is left, no further sentinel comes, and the clock goes on,
  -- the thread leaves its last loop within grace + 2 rounds, also where the cache still has jobs.
  pub finish-HasLeft :
      (grace t : ℕ) (rs : List (Last J Obj)) (h : Handler J)
      → 0 < t
      → grace + 2 ≤ length rs
      → Gone t rs
      → HasLeft (finish class kill grace rs none h)
  unfolding finish
  finish-HasLeft grace t [] h some_tick enough gone = absurd (omega arith)
  finish-HasLeft grace t (r ∷ rs) h some_tick enough gone =
      or_else-HasLeft r.state (is_empty h.cache) h _ (
        after_poll-HasLeft r.poll (r.check_timeouts h) _ (finish class kill grace rs none) gone.1
          (λ g.
            let (g', e) = gone.0 g in
            subst
              (λ j.
                HasLeft (after_reaping class kill grace none r.now j (finish class kill grace rs)))
              (sym e)
              (finish-counting grace r.now (r.now + 1) rs g' (omega (arith, gone.2)) (omega arith)
                (omega arith) gone.3)))
