-- ===== src/Pool/ApplyResult/Settling.antt =====
-- When a job of `apply_async` is ready and when it leaves the cache.
use billiard.Prelude.{ℕ, ◌≡◌, Bool, true, false, Option, List, [], ◌∷◌, not, ◌&&◌}
use billiard.Pool.ApplyResult.{Reply, ApplyResult, Outcome, done, raised, set_reply, ack}

-- The messages for one job: its result, or the acknowledgement of the worker that runs it.
pub data Message (V E : Type 0) : Type 0 where
  settled : Reply V E → Message V E
  acked : ℕ → ℕ → Option ℕ → Message V E

module _ {V E : Type 0} where
  -- The object goes on to exist when a method raises.
  abbrev pub after : Outcome V E → ApplyResult V E
  after (done s) = s
  after (raised e s) = s

  unfoldable pub handle : ApplyResult V E → Message V E → ApplyResult V E
  handle s (settled obj) = after (set_reply obj s)
  handle s (acked time pid fd) = after (ack time pid fd s)

  unfoldable pub run : ApplyResult V E → List (Message V E) → ApplyResult V E
  run s [] = s
  run s (m ∷ rest) = run (handle s m) rest

  abbrev pub has_result : List (Message V E) → Bool
  has_result [] = false
  has_result (settled obj ∷ rest) = true
  has_result (acked time pid fd ∷ rest) = has_result rest

  abbrev pub has_ack : List (Message V E) → Bool
  has_ack [] = false
  has_ack (settled obj ∷ rest) = has_ack rest
  has_ack (acked time pid fd ∷ rest) = true

  record Flags (r a : Bool) (s : ApplyResult V E) : Type 0 where
    ready : s.event ≡ r
    taken : s.accepted ≡ a
    listed : s.cached ≡ not (a && r)
    wanted : (s.cancelled && s.send_ack) ≡ false
