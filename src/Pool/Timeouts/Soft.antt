-- ===== src/Pool/Timeouts/Soft.antt =====
-- The soft limit is announced once.
use billiard.Prelude.{
  ℕ, ◌+◌, ◌≤◌, ◌≡◌, refl, inl, inr, Bool, true, false, none, List, [], ◌∷◌, ◌++◌, ◌==◌,
  if◌then◌else◌, arith, Bool-cases,
}
use billiard.Pool.Timeouts.{
  Job, applied, mapped, iterated, Limits, Action, settled, called_back, signalled_soft, terminated,
  killed, Env, Check, quiet, soft, hard, raises, check, trywaitkill, Done, on_soft_timeout,
  on_hard_timeout, elem, has_key, Pass, swept, crashed, before, proceed, act, follow, sweep,
  keep_cached, round,
}

-- The soft timeout of job i: the call of its callback, or the signal to its worker.
abbrev pub announces : Bool → ℕ → Action → Bool
announces true i (called_back true j) = j == i
announces true i (called_back false j) = false
announces true i (settled j) = false
announces true i (signalled_soft j pid) = false
announces true i (terminated g pid) = false
announces true i (killed g pid) = false
announces false i (signalled_soft j pid) = j == i
announces false i (called_back b j) = false
announces false i (settled j) = false
announces false i (terminated g pid) = false
announces false i (killed g pid) = false

-- How often there was one of them.
abbrev pub softs : Bool → ℕ → List Action → ℕ
softs calls i [] = 0
softs calls i (a ∷ rest) = (if announces calls i a then 1 else 0) + softs calls i rest

abbrev pub actions_of : Pass → List Action
actions_of (swept dirty l) = l
actions_of (crashed e l) = l

softs-append :
    (calls : Bool) (i : ℕ) (l m : List Action)
    → softs calls i (l ++ m) ≡ softs calls i l + softs calls i m
softs-append calls i [] m = omega arith
softs-append calls i (a ∷ l) m = omega (arith, softs-append calls i l m)

abbrev mark : ℕ → List ℕ → ℕ
mark i dirty = if elem i dirty then 1 else 0

-- The announcements of a pass, and those before it, are covered by the jobs noted at its end.
abbrev Covered : Bool → ℕ → List ℕ → Pass → Type 0
Covered calls i dirty (swept after l) = softs calls i l + mark i dirty ≤ mark i after
Covered calls i dirty (crashed e l) = softs calls i l + mark i dirty ≤ 1

hard_softs :
    (env : Env) (calls : Bool) (i j : ℕ) (job : Job)
    → softs calls i (act (on_hard_timeout env j) job).actions ≡ 0
unfolding on_hard_timeout trywaitkill
hard_softs env true i j (applied job) = ground arith
hard_softs env false i j (applied job) = ground arith
hard_softs env calls i j (mapped times) = refl
hard_softs env calls i j iterated = refl

soft_softs :
    (env : Env) (calls : Bool) (i j : ℕ) (job : Job)
    → softs calls i (act (on_soft_timeout env j) job).actions ≤ (if j == i then 1 else 0)
unfolding on_soft_timeout
soft_softs env true i j (applied job) = ground arith
soft_softs env false i j (applied job) = ground arith
soft_softs env calls i j (mapped times) = omega arith
soft_softs env calls i j iterated = omega arith

proceed-Covered :
    (calls : Bool) (i : ℕ) (dirty dirty' : List ℕ) (d : Done) (rest : Pass)
    → softs calls i d.actions + mark i dirty ≤ mark i dirty'
    → Covered calls i dirty' rest
    → Covered calls i dirty (proceed d rest)
proceed-Covered calls i dirty dirty' d (swept after l) h c =
    ground (arith, softs-append calls i d.actions l)
proceed-Covered calls i dirty dirty' d (crashed e l) h c =
    ground (arith, softs-append calls i d.actions l)

check-soft :
    (l : Limits) (now : ℕ) (dirty : Bool) (job : Job) → check l now dirty job ≡ soft → dirty ≡ false
unfolding check
check-soft l now dirty (applied job) e = ground arith
check-soft l now dirty (mapped []) e = cc
check-soft l now dirty (mapped (t ∷ times)) e = ground arith
check-soft l now dirty iterated e = cc

follow-Covered :
    (env : Env) (calls : Bool) (i j : ℕ) (job : Job) (c : Check) (dirty : List ℕ)
    (rest noted : Pass)
    → (c ≡ soft → elem j dirty ≡ false)
    → Covered calls i dirty rest
    → Covered calls i (j ∷ dirty) noted
    → Covered calls i dirty (follow env j job c rest noted)
follow-Covered env calls i j job quiet dirty rest noted new r n = r
follow-Covered env calls i j job hard dirty rest noted new r n =
    proceed-Covered calls i dirty dirty (act (on_hard_timeout env j) job) rest
      (omega (arith, hard_softs env calls i j job)) r
follow-Covered env calls i j job soft dirty rest noted new r n =
    proceed-Covered calls i dirty (j ∷ dirty) (act (on_soft_timeout env j) job) noted
      (ground (arith, soft_softs env calls i j job, new refl)) n
follow-Covered env calls i j job (raises e) dirty rest noted new r n = ground arith

sweep-Covered :
    (env : Env) (calls : Bool) (l : Limits) (now i : ℕ) (cache : List (ℕ × Job)) (dirty : List ℕ)
    → Covered calls i dirty (sweep env l now cache dirty)
unfolding sweep
sweep-Covered env calls l now i [] dirty = omega arith
sweep-Covered env calls l now i ((j, job) ∷ cache) dirty =
    follow-Covered env calls i j job (check l now (elem j dirty) job) dirty _ _
      (check-soft l now (elem j dirty) job) (sweep-Covered env calls l now i cache dirty)
      (sweep-Covered env calls l now i cache (j ∷ dirty))

keep_cached-elem :
    (i : ℕ) (cache : List (ℕ × Job)) (dirty : List ℕ)
    → has_key i cache ≡ true
    → elem i (keep_cached cache dirty) ≡ elem i dirty
keep_cached-elem i cache [] h = refl
keep_cached-elem i cache (j ∷ dirty) h = elim (Bool-cases (has_key j cache)) [
  | inl kept ↦ rw kept (ground (arith, keep_cached-elem i cache dirty h))
  | inr gone ↦ rw gone (ground (arith, keep_cached-elem i cache dirty h))
]

-- Rounds at given times over given caches, up to one that an exception ends; the actions of all.
unfoldable pub rounds : Env → Limits → List (ℕ × List (ℕ × Job)) → List ℕ → Pass
rounds env l [] dirty = swept dirty []
rounds env l ((now, cache) ∷ rest) dirty = elim (round env l now cache dirty) [
  | swept dirty' actions ↦ before actions (rounds env l rest dirty')
  | crashed e actions ↦ crashed e actions
]

abbrev pub Stays : ℕ → List (ℕ × List (ℕ × Job)) → Type 0
Stays i [] = Unit
Stays i ((now, cache) ∷ rest) = (has_key i cache ≡ true) × Stays i rest

rounds-Covered :
    (env : Env) (calls : Bool) (l : Limits) (i : ℕ) (schedule : List (ℕ × List (ℕ × Job)))
    (dirty : List ℕ)
    → Stays i schedule
    → Covered calls i dirty (rounds env l schedule dirty)
unfolding rounds round
rounds-Covered env calls l i [] dirty h = omega arith
rounds-Covered env calls l i ((now, cache) ∷ rest) dirty h =
    go (sweep env l now cache (keep_cached cache dirty))
      (sweep-Covered env calls l now i cache (keep_cached cache dirty))
      (λ dirty'. rounds-Covered env calls l i rest dirty' h.1)
  where
    go :
        (p : Pass)
        → Covered calls i (keep_cached cache dirty) p
        → ((dirty' : List ℕ) → Covered calls i dirty' (rounds env l rest dirty'))
        → Covered calls i dirty (elim p [
          | swept dirty' actions ↦ before actions (rounds env l rest dirty')
          | crashed e actions ↦ crashed e actions
        ])
    go (swept dirty' actions) c ih =
        proceed-Covered calls i dirty dirty' (record { actions = actions; exn = none })
          (rounds env l rest dirty') (ground (arith, keep_cached-elem i cache dirty h.0))
          (ih dirty')
    go (crashed e actions) c ih = ground (arith, keep_cached-elem i cache dirty h.0)

-- While job i stays in the cache, its soft timeout callback is called at most once, and its worker gets the
-- soft signal for it at most once, over any number of rounds at any times, whatever the limits and
-- whatever else is in the cache, and also if an exception ends the rounds.
pub rounds-soft_once :
    (env : Env) (l : Limits) (i : ℕ) (schedule : List (ℕ × List (ℕ × Job)))
    → Stays i schedule
    → (softs true i (actions_of (rounds env l schedule [])) ≤ 1)
      × (softs false i (actions_of (rounds env l schedule [])) ≤ 1)
rounds-soft_once env l i schedule h = (once true, once false)
  where
    go : (calls : Bool) (p : Pass) → Covered calls i [] p → softs calls i (actions_of p) ≤ 1
    go calls (swept dirty actions) c = ground arith
    go calls (crashed e actions) c = omega arith

    once : (calls : Bool) → softs calls i (actions_of (rounds env l schedule [])) ≤ 1
    once calls = go calls (rounds env l schedule []) (rounds-Covered env calls l i schedule [] h)
