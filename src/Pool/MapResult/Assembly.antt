-- ===== src/Pool/MapResult/Assembly.antt =====
-- `map` gives the results in the order of the inputs, in whatever order the workers answer.
use billiard.Prelude.{
  ℕ, zero, suc, ◌+◌, ◌-◌, ◌*◌, min, ◌≡◌, refl, ◌∙◌, Bool, true, false, not, none, some, List, [],
  ◌∷◌, map, set, get_elem?, arith, ◌==◌, if◌then◌else◌,
}
use billiard.Prelude.Int.{pos, ◌-ℤ◌}
use billiard.Pool.Chunks.Batches.{IsCut}
use billiard.Pool.MapResult.{
  success, failure, Value, values, Callbacks, MapResult, done, slice_assign, nonempty, finish,
  returns, set_batch, set_reply, fill, ack, Message, ready, acked, feed,
}
use billiard.Pool.MapResult.Layout.{Mark, layout, results, mark, missing, slice_assign-layout}

-- What holds of the job while the batches marked by `ms` have arrived.
pub record Holds {B E : Type 0} (c : ℕ) (ms : List (Mark B)) (m : MapResult B E) : Type 0 where
  pub sized : m.chunksize ≡ suc c
  pub filled : m.value ≡ values (layout ms)
  pub counted : m.number_left ≡ pos (missing ms)
  pub flagged : m.event ≡ (missing ms == 0)
  pub listed : m.cached ≡ not (missing ms == 0)
  pub fine : m.succeeded ≡ true
  pub items : nonempty m.accepted ≡ true

module _ {B : Type 0} where
  missing-mark :
      (i : ℕ) (ms : List (Mark B)) (r : List B)
      → get_elem? ms i ≡ some (false, r)
      → missing ms ≡ suc (missing (mark i ms))
  missing-mark i [] r e = cc
  missing-mark zero ((false, s) ∷ ms) r e = refl
  missing-mark zero ((true, s) ∷ ms) r e = cc
  missing-mark (suc i) ((false, s) ∷ ms) r e = omega (arith, missing-mark i ms r e)
  missing-mark (suc i) ((true, s) ∷ ms) r e = missing-mark i ms r e

  results-mark : (i : ℕ) (ms : List (Mark B)) → results (mark i ms) ≡ results ms
  results-mark i [] = refl
  results-mark zero ((d, s) ∷ ms) = refl
  results-mark (suc i) ((d, s) ∷ ms) = rw (results-mark i ms)

nonempty-fill :
    (rounds j : ℕ) (v : Bool) (l : List Bool)
    → nonempty l ≡ true
    → nonempty (fill rounds j v l) ≡ true
unfolding fill
nonempty-fill zero j v l h = h
nonempty-fill (suc rounds) j v [] h = cc
nonempty-fill (suc rounds) zero v (a ∷ l) h = nonempty-fill rounds 1 v (v ∷ l) refl
nonempty-fill (suc rounds) (suc j) v (a ∷ l) h =
    nonempty-fill rounds (suc (suc j)) v (a ∷ set l j v) refl

-- Every answer is the result of a batch that is still missing; acknowledgements come at any time.
abbrev pub Fresh : {B E : Type 0} → List (Mark B) → List (Message B E) → Type 0
Fresh ms [] = Unit
Fresh ms (ready none reply ∷ rest) = ⊥
Fresh ms (ready (some i) (failure e) ∷ rest) = ⊥
Fresh ms (ready (some i) (success r) ∷ rest) =
    (get_elem? ms i ≡ some (false, r)) × Fresh (mark i ms) rest
Fresh ms (acked i time pid ∷ rest) = Fresh ms rest

-- The batches that have arrived after some messages.
abbrev pub arrived : {B E : Type 0} → List (Mark B) → List (Message B E) → List (Mark B)
arrived ms [] = ms
arrived ms (ready none reply ∷ rest) = arrived ms rest
arrived ms (ready (some i) reply ∷ rest) = arrived (mark i ms) rest
arrived ms (acked i time pid ∷ rest) = arrived ms rest

-- How many of the messages are answers.
abbrev pub answers : {B E : Type 0} → List (Message B E) → ℕ
answers [] = 0
answers (ready i reply ∷ rest) = suc (answers rest)
answers (acked i time pid ∷ rest) = answers rest

pub missing-arrived :
    {B E : Type 0} (ms : List (Mark B)) (msgs : List (Message B E))
    → Fresh ms msgs
    → missing ms ≡ answers msgs + missing (arrived ms msgs)
missing-arrived ms [] h = omega arith
missing-arrived ms (ready none reply ∷ rest) h = absurd h
missing-arrived ms (ready (some i) (failure e) ∷ rest) h = absurd h
missing-arrived ms (ready (some i) (success r) ∷ rest) h =
    omega (arith, missing-mark i ms r h.0, missing-arrived (mark i ms) rest h.1)
missing-arrived ms (acked i time pid ∷ rest) h = missing-arrived ms rest h

pub results-arrived :
    {B E : Type 0} (ms : List (Mark B)) (msgs : List (Message B E))
    → Fresh ms msgs
    → results (arrived ms msgs) ≡ results ms
results-arrived ms [] h = refl
results-arrived ms (ready none reply ∷ rest) h = absurd h
results-arrived ms (ready (some i) (failure e) ∷ rest) h = absurd h
results-arrived ms (ready (some i) (success r) ∷ rest) h =
    results-arrived (mark i ms) rest h.1 ∙ results-mark i ms
results-arrived ms (acked i time pid ∷ rest) h = results-arrived ms rest h

module _ {B E : Type 0} (cb : Callbacks B E)
    (quiet : (v : Value B E) → returns cb.callback v ≡ true) where
  abbrev stored : ℕ → List (Mark B) → MapResult B E → MapResult B E
  stored c ms m =
      let m' : MapResult B E = record m {
        value = values (layout ms);
        number_left = pos (missing ms);
      } in
      if missing ms == 0 then finish m' else m'

  -- An answer for a batch that was missing is stored in its place.
  set_reply-Holds :
      (c i : ℕ) (ms : List (Mark B)) (r : List B) (m : MapResult B E)
      → IsCut (suc c) (results ms)
      → get_elem? ms i ≡ some (false, r)
      → Holds c ms m
      → (m' : MapResult B E) × (set_reply cb (some i) (success r) m ≡ done m')
        × Holds c (mark i ms) m'
  unfolding set_reply ◌-ℤ◌
  set_reply-Holds c i ms r m cut e h =
      let slice : slice_assign (i * m.chunksize) ((i + 1) * m.chunksize) (map some r) (layout ms)
          ≡ layout (mark i ms) =
        rw h.sized (slice_assign-layout c i ms false r cut e) in
      (
        stored c (mark i ms) m,
        rw (h.filled, set_batch)
            (ground (arith, slice, quiet (values (layout (mark i ms))), missing-mark i ms r e)),
        ground (arith, missing-mark i ms r e),
      )

  ack-Holds :
      (c i time pid : ℕ) (ms : List (Mark B)) (m : MapResult B E)
      → Holds c ms m
      → Holds c ms (ack i time pid m)
  unfolding ack
  ack-Holds c i time pid ms m h = ground (
    arith,
    nonempty-fill (min ((i + 1) * m.chunksize) m.length_ - i * m.chunksize) (i * m.chunksize) true
        m.accepted,
  )

  pub feed-Holds :
      (c : ℕ) (ms : List (Mark B)) (m : MapResult B E) (msgs : List (Message B E))
      → IsCut (suc c) (results ms)
      → Fresh ms msgs
      → Holds c ms m
      → (m' : MapResult B E) × (feed cb m msgs ≡ done m') × Holds c (arrived ms msgs) m'
  unfolding feed
  feed-Holds c ms m [] cut f h = (m, refl, h)
  feed-Holds c ms m (ready none reply ∷ rest) cut f h = absurd f
  feed-Holds c ms m (ready (some i) (failure e) ∷ rest) cut f h = absurd f
  feed-Holds c ms m (ready (some i) (success r) ∷ rest) cut f h =
      let (m', e, h') = set_reply-Holds c i ms r m cut f.0 h in
      rw (e, feed) (feed-Holds c (mark i ms) m' rest (rw (results-mark i ms) cut) f.1 h')
  feed-Holds c ms m (acked i time pid ∷ rest) cut f h =
      feed-Holds c ms (ack i time pid m) rest cut f (ack-Holds c i time pid ms m h)
