-- ===== src/Pool/WorkerLoop/Protocol.antt =====
-- The messages of a worker process, its limits and its exit codes.
use billiard.Prelude.{
  ℕ, suc, ◌+◌, ◌≤◌, ◌<◌, ◌≡◌, refl, ◌⊎◌, inl, inr, Bool, true, false, Option, none, some, List, [],
  ◌∷◌, arith, Bool-cases, Option-cases, subst,
}
use billiard.Prelude.Int.{ℤ}
use billiard.Pool.WorkerLoop.{
  Raw, Received, nothing, got, exits, receive, Answer, confirmed, exited, assertion_error, no_more,
  Ended, returns, raises, raises_exit, Request, Config, Message, acked, ready, death, Exit,
  returned, unwinds, failed, waits, Run, stop, before, is_success, new_status, memory_exceeded,
  conclude, cut_short, report, act_on, execute, goes_on, loop_code, workloop,
}

-- The results that were sent.
abbrev pub results : List Message → ℕ
results [] = 0
results (acked j i ∷ ms) = results ms
results (ready j i ok ∷ ms) = suc (results ms)
results (death code ∷ ms) = results ms

-- Every result stands directly behind the acknowledgement of its task; the first argument is the
-- task whose acknowledgement was the last message.
abbrev pub Replies : Option (ℕ × Option ℕ) → List Message → Type 0
Replies p [] = Unit {0}
Replies p (acked j i ∷ ms) = Replies (some (j, i)) ms
Replies none (ready k l ok ∷ ms) = ⊥
Replies (some (j, i)) (ready k l ok ∷ ms) = (k ≡ j) × (l ≡ i) × Replies none ms
Replies p (death code ∷ ms) = Unit {0}

-- The only code that the loop returns is EX_RECYCLE.
abbrev pub Recycles : Exit → Type 0
Recycles (returned code) = code ≡ 0x9B
Recycles unwinds = Unit {0}
Recycles failed = Unit {0}
Recycles waits = Unit {0}

-- What holds of every run that starts with c completed tasks.
pub record Sound (cfg : Config) (p : Option (ℕ × Option ℕ)) (c : ℕ) (run : Run) : Type 0 where
  pub replies : Replies p run.sent
  pub counted : results run.sent + c ≡ run.completed
  pub limited : (m : ℕ) → cfg.maxtasks ≡ some m → c ≤ m → run.completed ≤ m
  pub recycled : Recycles run.exit

-- The constructor asserts that `maxtasks` is not 0.
abbrev pub IsValid : Config → Type 0
IsValid cfg = (m : ℕ) → cfg.maxtasks ≡ some m → 0 < m

Replies-none : (p : Option (ℕ × Option ℕ)) (ms : List Message) → Replies none ms → Replies p ms
Replies-none none ms h = h
Replies-none (some q) [] h = tt
Replies-none (some q) (acked k l ∷ ms) h = h
Replies-none (some q) (ready k l ok ∷ ms) h = absurd h
Replies-none (some q) (death code ∷ ms) h = tt

stop-Sound :
    (cfg : Config) (p : Option (ℕ × Option ℕ)) (c : ℕ) (status : Option ℤ) (exit : Exit)
    → Recycles exit
    → Sound cfg p c (stop exit c status [])
stop-Sound cfg none c status exit h = record {
  replies = tt;
  counted = omega arith;
  limited = λ m e le. le;
  recycled = h;
}
stop-Sound cfg (some q) c status exit h = record {
  replies = tt;
  counted = omega arith;
  limited = λ m e le. le;
  recycled = h;
}

acked-Sound :
    (cfg : Config) (p : Option (ℕ × Option ℕ)) (c j : ℕ) (i : Option ℕ) (run : Run)
    → Sound cfg (some (j, i)) c run
    → Sound cfg p c (before (acked j i ∷ []) run)
acked-Sound cfg none c j i run h = record {
  replies = h.replies;
  counted = h.counted;
  limited = h.limited;
  recycled = h.recycled;
}
acked-Sound cfg (some q) c j i run h = record {
  replies = h.replies;
  counted = h.counted;
  limited = h.limited;
  recycled = h.recycled;
}

ready-Sound :
    (cfg : Config) (c j : ℕ) (i : Option ℕ) (ok : Bool) (run : Run)
    → ((m : ℕ) → cfg.maxtasks ≡ some m → c < m)
    → Sound cfg none (suc c) run
    → Sound cfg (some (j, i)) c (before (ready j i ok ∷ []) run)
ready-Sound cfg c j i ok run room h = record {
  replies = (refl, refl, h.replies);
  counted = omega (arith, h.counted);
  limited = λ m e le. h.limited m e (omega (arith, room m e));
  recycled = h.recycled;
}

conclude-Sound :
    (cfg : Config) (ended : Ended) (much : Bool) (c : ℕ) (status : Option ℤ) (rest : Run)
    → Sound cfg none c rest
    → Sound cfg none c (conclude ended much c status rest)
conclude-Sound cfg returns true c status rest h = stop-Sound cfg none c status (returned 0x9B) refl
conclude-Sound cfg returns false c status rest h = h
conclude-Sound cfg raises true c status rest h = stop-Sound cfg none c status (returned 0x9B) refl
conclude-Sound cfg raises false c status rest h = h
conclude-Sound cfg raises_exit much c status rest h = stop-Sound cfg none c status unwinds tt

report-Sound :
    (cfg : Config) (encodes wrapped : Bool) (req : Request) (c : ℕ) (status : Option ℤ) (rest : Run)
    → ((m : ℕ) → cfg.maxtasks ≡ some m → c < m)
    → Sound cfg none (suc c) rest
    → Sound cfg (some (req.job, req.i)) c (report encodes wrapped req c status rest)
report-Sound cfg true wrapped req c status rest room h =
    ready-Sound cfg c req.job req.i (is_success req.ended) rest room h
report-Sound cfg false true req c status rest room h =
    ready-Sound cfg c req.job req.i false rest room h
report-Sound cfg false false req c status rest room h = stop-Sound cfg _ c status failed tt

abbrev Kept : Option Exit → Type 0
Kept none = Unit {0}
Kept (some exit) = Recycles exit

cut_short-Recycles :
    (ended : Ended) (fired : Bool) (exit : Exit) → cut_short ended fired ≡ some exit → Recycles exit
cut_short-Recycles returns fired exit e = cc
cut_short-Recycles raises true exit e = subst (λ o. Kept o) e tt
cut_short-Recycles raises false exit e = cc
cut_short-Recycles raises_exit true exit e = subst (λ o. Kept o) e tt
cut_short-Recycles raises_exit false exit e = cc

execute-Sound :
    (cfg : Config) (req : Request) (c : ℕ) (status : Option ℤ) (rest : Run)
    → ((m : ℕ) → cfg.maxtasks ≡ some m → c < m)
    → Sound cfg none (suc c) rest
    → Sound cfg (some (req.job, req.i)) c (execute cfg req c status rest)
execute-Sound cfg req c status rest room h =
    elim (Option-cases (cut_short req.ended req.terminate_fired)) [
      | inl goes ↦
          rw (goes, execute)
            (report-Sound cfg req.encodes req.error_encodes req c status _ room
              (conclude-Sound cfg req.ended (memory_exceeded cfg req) (suc c) status rest h))
      | inr (exit, e) ↦
          rw (e, execute)
            (stop-Sound cfg _ c status exit
              (cut_short-Recycles req.ended req.terminate_fired exit e))
    ]

act_on-Sound :
    (cfg : Config) (answer : Answer) (p : Option (ℕ × Option ℕ)) (c : ℕ) (status : Option ℤ)
    (run rest : Run)
    → Sound cfg p c run
    → Sound cfg p c rest
    → Sound cfg p c (act_on answer c status run rest)
act_on-Sound cfg (confirmed true) p c status run rest h g = h
act_on-Sound cfg (confirmed false) p c status run rest h g = g
act_on-Sound cfg (exited code) p c status run rest h g = stop-Sound cfg p c status unwinds tt
act_on-Sound cfg assertion_error p c status run rest h g = stop-Sound cfg p c status failed tt
act_on-Sound cfg no_more p c status run rest h g = stop-Sound cfg p c status waits tt

-- Before and after the loop test.
goes_on-room : (cfg : Config) (c m : ℕ) → goes_on cfg c ≡ true → cfg.maxtasks ≡ some m → c < m
goes_on-room cfg c m e h = ground (arith, e, h)

ends-Recycles :
    (cfg : Config) (c : ℕ)
    → IsValid cfg
    → ((m : ℕ) → cfg.maxtasks ≡ some m → c ≤ m)
    → goes_on cfg c ≡ false
    → loop_code cfg c ≡ 0x9B
ends-Recycles cfg c valid le e = elim (Option-cases cfg.maxtasks) [
  | inl h ↦ ground (arith, e, h)
  | inr (m, h) ↦ ground (arith, e, h, valid m h, le m h)
]

Received-cases :
    {A : Type 0} (r : Received A)
    → (r ≡ nothing) ⊎ ((code : ℕ) × (r ≡ exits code)) ⊎ ((a : A) × (r ≡ got a))
Received-cases nothing = inl refl
Received-cases (exits code) = inr (inl (code, refl))
Received-cases (got a) = inr (inr (a, refl))

workloop-Sound :
    (cfg : Config) (polls : List (Bool × Raw Request)) (p : Option (ℕ × Option ℕ)) (c : ℕ)
    (status : Option ℤ)
    → IsValid cfg
    → ((m : ℕ) → cfg.maxtasks ≡ some m → c ≤ m)
    → Sound cfg p c (workloop cfg polls c status)
unfolding workloop
workloop-Sound cfg [] p c status valid le = elim (Bool-cases (goes_on cfg c)) [
  | inl go ↦ rw (go, workloop) (stop-Sound cfg p c status waits tt)
  | inr over ↦
      rw (over, workloop)
        (stop-Sound cfg p c status (returned (loop_code cfg c)) (ends-Recycles cfg c valid le over))
]
workloop-Sound cfg ((shutdown, raw) ∷ polls) p c status valid le =
    elim (Bool-cases (goes_on cfg c)) [
      | inr over ↦
          rw (over, workloop)
            (stop-Sound cfg p c status (returned (loop_code cfg c))
              (ends-Recycles cfg c valid le over))
      | inl go ↦ elim (Received-cases (receive shutdown raw)) [
        | inl idle ↦ rw (go, idle, workloop) (workloop-Sound cfg polls p c status valid le)
        | inr (inl (code, e)) ↦ rw (go, e, workloop) (stop-Sound cfg p c status unwinds tt)
        | inr (inr (req, e)) ↦
            let status' = new_status req.sys_exit status in
            rw (go, e, workloop)
              (acked-Sound cfg p c req.job req.i _ (
                act_on-Sound cfg _ (some (req.job, req.i)) c status _ _
                  (execute-Sound cfg req c status' _ (λ m. goes_on-room cfg c m go)
                    (workloop-Sound cfg polls none (suc c) status' valid
                      (λ m h. omega (arith, goes_on-room cfg c m go h))))
                  (workloop-Sound cfg polls _ c status valid le)))
      ]
    ]

-- Whatever a worker receives and however its tasks end, each result that it sends stands directly
-- behind the acknowledgement of the same task; the number of completed tasks is the number of results
-- sent, and is at most `maxtasks`; and if the loop returns, the code is EX_RECYCLE, never EX_FAILURE.
pub workloop-protocol :
    (cfg : Config) (polls : List (Bool × Raw Request))
    → IsValid cfg
    → let run = workloop cfg polls 0 none in
      Replies none run.sent
      × (results run.sent ≡ run.completed)
      × ((m : ℕ) → cfg.maxtasks ≡ some m → run.completed ≤ m)
      × Recycles run.exit
workloop-protocol cfg polls valid =
    let h = workloop-Sound cfg polls none 0 none valid (λ m e. omega arith) in
    (h.replies, omega (arith, h.counted), λ m e. h.limited m e (omega arith), h.recycled)
