-- ===== src/Pool/TaskHandler/Delivery.antt =====
-- What the task thread sends when nothing goes wrong.
use billiard.Prelude.{
  ℕ, suc, ◌+◌, ◌≡◌, refl, ap, ◌∙◌, Bool, true, false, Option, none, some, List, [], ◌∷◌, ◌++◌,
  length, map, arith,
}
use billiard.Pool.TaskHandler.{
  sends, Task, TaskSeq, Entry, Action, sent, result_sentinel, worker_sentinel, continues, stop,
  before, announce, attempt, on_exception, walk, next, finish, tell_workers, tell_others, walk_all,
  body,
}

-- Every task can be sent, and the thread is not told to stop.
abbrev pub AllSent : List Task → Type 0
AllSent [] = Unit {0}
AllSent (t ∷ ts) = (t.stopping ≡ false) × (t.put ≡ sends) × AllSent ts

abbrev pub AllGood : List ((ℕ → Entry) × TaskSeq) → Type 0
AllGood [] = Unit {0}
AllGood ((cache, s) ∷ rest) = (s.iter_raises ≡ false) × AllSent s.tasks × AllGood rest

-- The tasks of each entry in their order, then their number where it is asked for.
abbrev pub expected : List ((ℕ → Entry) × TaskSeq) → List Action
expected [] = []
expected ((cache, s) ∷ rest) =
    (map sent s.tasks ++ announce s.has_set_length (length s.tasks)) ++ expected rest

-- One sentinel for each worker.
abbrev pub sentinels : List Bool → List Action
sentinels [] = []
sentinels (works ∷ rest) = worker_sentinel ∷ sentinels rest

abbrev pub AllWork : List Bool → Type 0
AllWork [] = Unit {0}
AllWork (works ∷ rest) = (works ≡ true) × AllWork rest

add_nil : (n : ℕ) → n ≡ n + 0
add_nil n = omega arith

zero_add : (n : ℕ) → 0 + n ≡ n
zero_add n = omega arith

add_suc : (n k : ℕ) → suc n + k ≡ n + suc k
add_suc n k = omega arith

walk-sent :
    (cache : ℕ → Entry) (raises has : Bool) (n : ℕ) (last : Option Task) (tasks : List Task)
    → raises ≡ false
    → AllSent tasks
    → walk cache raises has n last tasks
      ≡ stop continues (map sent tasks ++ announce has (n + length tasks))
unfolding walk
walk-sent cache raises has n last [] r h =
    rw (r, walk) (ap (λ m. stop continues (announce has m)) (add_nil n))
walk-sent cache raises has n last (t ∷ ts) r h =
    let rest = walk cache raises has (suc n) (some t) ts in
    let failed = on_exception cache has (suc n) (some t) in
    ap (λ b. attempt b t.put (cache 2) t rest failed) h.0
    ∙ ap (λ p. attempt false p (cache 2) t rest failed) h.1
    ∙ ap (before (sent t ∷ [])) (walk-sent cache raises has (suc n) (some t) ts r h.2)
    ∙ ap (λ m. stop continues (sent t ∷ (map sent ts ++ announce has m))) (add_suc n (length ts))

walk_all-expected :
    (entries : List ((ℕ → Entry) × TaskSeq))
    → AllGood entries
    → walk_all entries ≡ stop continues (expected entries)
unfolding walk_all
walk_all-expected [] h = refl
walk_all-expected ((cache, s) ∷ rest) h =
    let e = walk-sent cache s.iter_raises s.has_set_length 0 none s.tasks h.0 h.1 in
    ap (λ o. next o.end o.acts (walk_all rest)) e
    ∙ ap (λ m. before (map sent s.tasks ++ announce s.has_set_length m) (walk_all rest))
        (zero_add (length s.tasks))
    ∙ ap (before (map sent s.tasks ++ announce s.has_set_length (length s.tasks)))
        (walk_all-expected rest h.2)

tell_workers-sentinels :
    (workers : List Bool) → AllWork workers → tell_workers workers ≡ sentinels workers
unfolding tell_workers
tell_workers-sentinels [] h = refl
tell_workers-sentinels (w ∷ rest) h =
    rw (h.0, tell_workers) (ap (λ l. worker_sentinel ∷ l) (tell_workers-sentinels rest h.1))

-- When every task can be sent, no iterator raises and the sentinels can be sent, the thread sends the
-- tasks of every entry in their order, tells each iterator that asks for it how many tasks it gave,
-- and then sends one sentinel to the result thread and one for each worker.
pub body-expected :
    (entries : List ((ℕ → Entry) × TaskSeq)) (workers : List Bool)
    → AllGood entries
    → AllWork workers
    → body entries true workers
      ≡ stop continues (expected entries ++ result_sentinel ∷ sentinels workers)
unfolding body tell_others
body-expected entries workers h g =
    ap (λ o. finish o.end o.acts (tell_others true workers)) (walk_all-expected entries h)
    ∙ ap (λ l. stop continues (expected entries ++ result_sentinel ∷ l))
        (tell_workers-sentinels workers g)
