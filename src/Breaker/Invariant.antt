-- ===== src/Breaker/Invariant.antt =====
-- What holds of a breaker between two calls, and what one call does.
use image_descriptor.Prelude.{ℕ, ◌≤◌, ◌<◌, ◌≡◌, String, arith}
use image_descriptor.Breaker.{Breaker, init, is_open, record_failure, record_success}

-- The metric tells an open breaker from the others, and only a breaker that has reached its
-- threshold is open.
pub record IsSound (cb : Breaker) : Type 0 where
  pub armed : 0 < cb.failure_threshold
  pub cools : 0 < cb.cooldown
  pub gauge_open : 0 < cb.open_until → cb.gauge ≡ 1
  pub open_gauge : cb.gauge ≡ 1 → 0 < cb.open_until
  pub reached : 0 < cb.open_until → cb.failure_threshold ≤ cb.failure_count
  pub below : cb.open_until ≡ 0 → cb.failure_count < cb.failure_threshold

pub init-IsSound :
    (name : String) (threshold cooldown : ℕ)
    → 0 < threshold
    → 0 < cooldown
    → IsSound (init name threshold cooldown)
unfolding init
init-IsSound name threshold cooldown h k = ground arith

pub is_open-IsSound : (now later : ℕ) (cb : Breaker) → IsSound cb → IsSound (is_open now later cb).1
unfolding is_open
is_open-IsSound now later cb v = ground arith

pub record_failure-IsSound : (now : ℕ) (cb : Breaker) → IsSound cb → IsSound (record_failure now cb)
unfolding record_failure
record_failure-IsSound now cb v = ground arith

pub record_success-IsSound : (cb : Breaker) → IsSound cb → IsSound (record_success cb)
unfolding record_success
record_success-IsSound cb v = ground arith
