-- ===== src/Pool/ResultHandler/Cache.antt =====
-- The handler against the cache: what each message does to the jobs, and what it cannot do.
use billiard.Prelude.{
  ℕ, ◌≡◌, ◌≢◌, refl, inl, inr, true, Option, none, some, if◌then◌else◌, arith, Option-cases, sym,
  ap, ◌∙◌,
}
use billiard.Prelude.Dict.{lookup, lookup-insert, lookup-erase}
use billiard.Pool.ResultHandler.Tracking.{note_ready}
use billiard.Pool.ResultHandler.{
  JobClass, Handled, Handler, Message, on_ack, on_ready, on_death, unknown, Outcome, done, raised,
  Exn, Kill, on_state_change, handle_ack, handle_ready, store, after_ack, after_set, give_back,
}

-- The state that an outcome leaves.
abbrev pub after : {J : Type 0} → Outcome J → Handler J
after (done h) = h
after (raised e h) = h

-- The job that a message is about.
abbrev pub about : {Obj : Type 0} → Message Obj → Option ℕ
about (on_ack job i time pid fd) = some job
about (on_ready job i obj) = some job
about (on_death pid exitcode) = none
about (unknown state) = none

module _ {J Obj : Type 0} (class : JobClass J Obj) (kill : ℕ → Kill) where
  store-others :
      (job other : ℕ) (m : Handled J) (h : Handler J)
      → other ≢ job
      → lookup other (store class job m h).cache ≡ lookup other h.cache
  store-others job other m h ne =
      ground (arith, lookup-insert job other m.job h.cache, lookup-erase job other h.cache)

  after_ack-same : (e : Option Exn) (h : Handler J) → after (after_ack class e h) ≡ h
  after_ack-same e h = ground arith

  after_set-same : (e : Option Exn) (h : Handler J) → after (after_set class e h) ≡ h
  after_set-same e h = ground arith

  -- The states after a message for a job that the cache has, or has not.
  ready_gone :
      (job : ℕ) (i : Option ℕ) (obj : Obj) (h : Handler J)
      → lookup job h.cache ≡ none
      → after (handle_ready class job i obj h)
        ≡ record h { tables = note_ready (record { job = job; i = i }) h.tables }
  unfolding handle_ready
  ready_gone job i obj h e = ground arith

  ready_found :
      (job : ℕ) (i : Option ℕ) (obj : Obj) (h : Handler J) (item : J)
      → lookup job h.cache ≡ some item
      → after (handle_ready class job i obj h)
        ≡ store class job (class.set_reply i obj item) (record h {
          tables = note_ready (record { job = job; i = i }) h.tables;
          putlock = if class.is_ready item then h.putlock else give_back class h.putlock;
        })
  unfolding handle_ready
  ready_found job i obj h item e = ground arith

  ack_gone :
      (job : ℕ) (i : Option ℕ) (time pid : ℕ) (fd : Option ℕ) (h : Handler J)
      → lookup job h.cache ≡ none
      → (after (handle_ack class job i time pid fd h)).cache ≡ h.cache
  unfolding handle_ack
  ack_gone job i time pid fd h e = ground arith

  ack_found :
      (job : ℕ) (i : Option ℕ) (time pid : ℕ) (fd : Option ℕ) (h : Handler J) (item : J)
      → lookup job h.cache ≡ some item
      → (after (handle_ack class job i time pid fd h)).cache
        ≡ (store class job (class.ack i time pid fd item) h).cache
  unfolding handle_ack
  ack_found job i time pid fd h item e = ground arith

  -- A message touches no other job than its own.
  pub on_state_change-others :
      (m : Message Obj) (h : Handler J) (other : ℕ)
      → about m ≢ some other
      → lookup other (after (on_state_change class kill m h)).cache ≡ lookup other h.cache
  unfolding on_state_change
  on_state_change-others (on_ack job i time pid fd) h other ne =
      elim (Option-cases (lookup job h.cache)) [
        | inl gone ↦ ap (lookup other) (ack_gone job i time pid fd h gone)
        | inr (item, e) ↦
            ap (lookup other) (ack_found job i time pid fd h item e)
            ∙ store-others job other (class.ack i time pid fd item) h (λ q. ne (ap some (sym q)))
      ]
  on_state_change-others (on_ready job i obj) h other ne =
      elim (Option-cases (lookup job h.cache)) [
        | inl gone ↦ ap (λ (x : Handler J). lookup other x.cache) (ready_gone job i obj h gone)
        | inr (item, e) ↦
            ap (λ (x : Handler J). lookup other x.cache) (ready_found job i obj h item e)
            ∙ store-others job other (class.set_reply i obj item) h (λ q. ne (ap some (sym q)))
      ]
  on_state_change-others (on_death pid exitcode) h other ne = ground arith
  on_state_change-others (unknown state) h other ne = refl

  -- Once a job is ready or gone, a result for it gives no slot back.
  settled_no_release :
      (job : ℕ) (i : Option ℕ) (obj : Obj) (h : Handler J)
      → ((item : J) → lookup job h.cache ≡ some item → class.is_ready item ≡ true)
      → (after (handle_ready class job i obj h)).putlock ≡ h.putlock
  settled_no_release job i obj h ready = elim (Option-cases (lookup job h.cache)) [
    | inl gone ↦ ap (λ (x : Handler J). x.putlock) (ready_gone job i obj h gone)
    | inr (item, e) ↦ ground (arith, ready_found job i obj h item e, ready item e)
  ]

  -- After a result the job is ready or gone.
  settled_after :
      (job : ℕ) (i : Option ℕ) (obj : Obj) (h : Handler J)
      → ((k : Option ℕ) (o : Obj) (item : J)
          → let m = class.set_reply k o item in m.listed ≡ true → class.is_ready m.job ≡ true)
      → (item : J) → lookup job (after (handle_ready class job i obj h)).cache ≡ some item
      → class.is_ready item ≡ true
  settled_after job i obj h law item found = elim (Option-cases (lookup job h.cache)) [
    | inl gone ↦ ground (arith, ready_gone job i obj h gone)
    | inr (old, e) ↦ ground (
      arith,
      ready_found job i obj h old e,
      law i obj old,
      lookup-insert job job (class.set_reply i obj old).job h.cache,
      lookup-erase job job h.cache,
    )
  ]

  -- For a class of jobs that are ready after any result, or have left the cache: of two results for
  -- one job, the second gives no slot of the pool back.
  pub handle_ready-once :
      (job : ℕ) (i j : Option ℕ) (obj obj' : Obj) (h : Handler J)
      → ((k : Option ℕ) (o : Obj) (item : J)
          → let m = class.set_reply k o item in m.listed ≡ true → class.is_ready m.job ≡ true)
      → let h' = after (handle_ready class job i obj h) in
        (after (handle_ready class job j obj' h')).putlock ≡ h'.putlock
  handle_ready-once job i j obj obj' h law =
      settled_no_release job j obj' (after (handle_ready class job i obj h))
        (settled_after job i obj h law)
