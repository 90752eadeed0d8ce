-- ===== src/Pool/WorkerLoop/Consumed.antt =====
-- `Worker._ensure_messages_consumed`: a worker that ends waits until its results were read.
use billiard.Prelude.{
  ℕ, zero, suc, ◌+◌, ◌≤◌, ◌<◌, ◌≡◌, ◌↔◌, inl, inr, Bool, true, false, Option, none, some, leb,
  if◌then◌else◌, arith, subst, le_or_lt,
}

-- GUARANTEE_MESSAGE_CONSUMPTION_RETRY_LIMIT
abbrev pub retry_limit : ℕ
retry_limit = 300

-- The loop, with what the counter reads at each retry.
unfoldable pub ensure_from : ℕ → ℕ → (ℕ → ℕ) → ℕ → Bool
ensure_from zero retry reading completed = false
ensure_from (suc rounds) retry reading completed =
    let rest = ensure_from rounds (suc retry) reading completed in
    if leb completed (reading retry) then true else rest

unfoldable pub ensure_messages_consumed : Option (ℕ → ℕ) → ℕ → Bool
unfolding ensure_from
ensure_messages_consumed none completed = false
ensure_messages_consumed (some reading) completed = ensure_from retry_limit 0 reading completed

ensure_from-finds :
    (rounds retry : ℕ) (reading : ℕ → ℕ) (completed : ℕ)
    → ensure_from rounds retry reading completed ≡ true
    → (k : ℕ) × (retry ≤ k) × (k < retry + rounds) × (completed ≤ reading k)
unfolding ensure_from
ensure_from-finds zero retry reading completed h = cc
ensure_from-finds (suc rounds) retry reading completed h =
    elim (le_or_lt completed (reading retry)) [
      | inl le ↦ (retry, omega arith, omega arith, le)
      | inr gt ↦
          let (k, low, high, le) =
            ensure_from-finds rounds (suc retry) reading completed (ground (arith, h, gt)) in
          (k, omega arith, omega arith, le)
    ]

ensure_from-found :
    (rounds retry k : ℕ) (reading : ℕ → ℕ) (completed : ℕ)
    → retry ≤ k
    → k < retry + rounds
    → completed ≤ reading k
    → ensure_from rounds retry reading completed ≡ true
unfolding ensure_from
ensure_from-found zero retry k reading completed low high le = absurd (omega arith)
ensure_from-found (suc rounds) retry k reading completed low high le =
    elim (le_or_lt (suc retry) k) [
      | inl more ↦
          ground
            (arith, ensure_from-found rounds (suc retry) k reading completed more (omega arith) le)
      | inr last ↦
          let same : k ≡ retry = omega arith in
          ground (arith, subst (λ m. completed ≤ reading m) same le)
    ]

-- A worker with a counter is told that its messages were consumed exactly if at one of the 300 retries
-- the counter has reached the number of tasks that it completed.
pub ensure_messages_consumed-reads :
    (reading : ℕ → ℕ) (completed : ℕ)
    → (ensure_messages_consumed (some reading) completed ≡ true)
      ↔ ((k : ℕ) × (k < 300) × (completed ≤ reading k))
unfolding ensure_messages_consumed
ensure_messages_consumed-reads reading completed = (
  λ h. let (k, low, high, le) = ensure_from-finds 300 0 reading completed h in (k, omega arith, le),
  λ h. ensure_from-found 300 0 h.0 reading completed (omega arith) (omega (arith, h.1)) h.2,
)
