-- ===== src/Pool/Workers/Lost.antt =====
-- A job whose worker died, over two calls of `Pool._join_exited_workers`.
use billiard.Prelude.{
  ◌≡◌, ◌⊎◌, inl, inr, Bool, true, false, Option, none, some, List, [], ◌∷◌, ◌++◌,
}
use billiard.Prelude.Int.{ℤ, pos}
use billiard.Prelude.Dict.{Dict, is_some}
use billiard.Pool.Workers.Reap.{Job, Settling, leaves, stays, ignores, Action}

abbrev pub In : {A : Type 0} → A → List A → Type 0
In x [] = ⊥
In x (y ∷ ys) = (x ≡ y) ⊎ In x ys

In-append_right : {A : Type 0} (x : A) (xs ys : List A) → In x ys → In x (xs ++ ys)
In-append_right x [] ys h = h
In-append_right x (y ∷ xs) ys h = inr (In-append_right x xs ys h)

abbrev can_end : Settling → Bool
can_end leaves = true
can_end stays = true
can_end ignores = false

-- A job that has the attributes and the method that the supervisor uses.
abbrev pub Linked : Job → Type 0
Linked job = (is_some job.links ≡ true) × (can_end job.settling ≡ true)

abbrev pub AllLinked : Dict Job → Type 0
AllLinked [] = Unit {0}
AllLinked ((j, job) ∷ cache) = Linked job × AllLinked cache

In-append_left : {A : Type 0} (x : A) (xs ys : List A) → In x xs → In x (xs ++ ys)
In-append_left x [] ys h = absurd h
In-append_left x (y ∷ xs) ys (inl e) = inl e
In-append_left x (y ∷ xs) ys (inr m) = inr (In-append_left x xs ys m)

-- The job of a result.
abbrev job_or : Job → Option (Job × List Action) → Job
job_or d none = d
job_or d (some p) = p.0

-- `exitcode or 0` of a worker.
abbrev pub exit_or_zero : Option ℤ → Option ℤ
exit_or_zero none = some (pos 0)
exit_or_zero (some code) = some code
