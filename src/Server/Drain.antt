-- ===== src/Server/Drain.antt =====
-- The wait for running batches at shutdown.
use image_descriptor.Prelude.{
  ℕ, zero, suc, ◌+◌, ◌≤◌, ◌<◌, ◌≡◌, ◌⊎◌, inl, inr, ◌&&◌, some, arith, ltb, Bool-cases,
}
use image_descriptor.Server.{drain_batches}

-- The poll ends: from a time that is less than one interval past the timeout, with a positive
-- interval and more fuel than the time that is left, it stops either because no batch is active or
-- because the timeout has passed, and less than one interval after the timeout.
pub drain_batches_ends :
    (fuel : ℕ) (active : ℕ → ℕ) (poll_interval batch_timeout elapsed : ℕ)
    → 0 < poll_interval
    → batch_timeout ≤ elapsed + fuel
    → elapsed < batch_timeout + poll_interval
    → (t : ℕ) × (drain_batches (suc fuel) active poll_interval batch_timeout elapsed ≡ some t)
      × ((active t ≡ 0) ⊎ (batch_timeout ≤ t))
      × (t < batch_timeout + poll_interval)
unfolding drain_batches
drain_batches_ends zero active poll_interval batch_timeout elapsed p f b =
    (elapsed, ground arith, ground arith, b)
drain_batches_ends (suc fuel) active poll_interval batch_timeout elapsed p f b =
    elim (Bool-cases (ltb 0 (active elapsed) && ltb elapsed batch_timeout)) [
      | inl waits ↦ rw waits (
          drain_batches_ends fuel active poll_interval batch_timeout (elapsed + poll_interval) p
            (omega arith) (ground arith))
      | inr done ↦ (elapsed, rw done, ground arith, b)
    ]
