-- ===== src/Breaker.antt =====
-- app/utils/circuit_breaker.py: `CircuitBreaker`. Times are whole microseconds; the methods run
-- under the breaker's lock, so each is one step. `gauge` is the breaker's label of the
-- `circuit_breaker_state` metric.
pub mod Invariant
pub mod Traces
use image_descriptor.Prelude.{ℕ, ◌+◌, ◌-◌, String, Bool, true, false, ◌&&◌, ltb, leb, if◌then◌else◌}
use image_descriptor.Prelude.Round.{round}

pub record Breaker : Type 0 where
  pub name : String
  pub failure_threshold : ℕ
  pub cooldown : ℕ
  pub failure_count : ℕ
  pub open_until : ℕ
  pub gauge : ℕ

-- the fields of `get_status`; the remaining cooldown is in tenths of a second
pub record Status : Type 0 where
  pub name : String
  pub is_open : Bool
  pub failure_count : ℕ
  pub cooldown_remaining : ℕ

unfoldable pub init : String → ℕ → ℕ → Breaker
init name failure_threshold cooldown = record {
  name = name;
  failure_threshold = failure_threshold;
  cooldown = cooldown;
  failure_count = 0;
  open_until = 0;
  gauge = 0;
}

-- The clock is read once for each of the two tests.
unfoldable pub is_open : ℕ → ℕ → Breaker → Bool × Breaker
is_open now later cb =
    if ltb 0 cb.open_until && ltb now cb.open_until
    then (true, cb)
    else if ltb 0 cb.open_until && leb cb.open_until later
    then (false, record cb { open_until = 0; failure_count = 0; gauge = 2 })
    else (false, cb)

unfoldable pub record_failure : ℕ → Breaker → Breaker
record_failure now cb =
    if leb cb.failure_threshold (cb.failure_count + 1)
    then record cb {
      failure_count = cb.failure_count + 1;
      open_until = now + cb.cooldown;
      gauge = 1;
    }
    else record cb { failure_count = cb.failure_count + 1 }

unfoldable pub record_success : Breaker → Breaker
record_success cb = record cb { failure_count = 0; open_until = 0; gauge = 0 }

abbrev pub tenth : ℕ
tenth = 100000

unfoldable pub get_status : ℕ → ℕ → ℕ → Breaker → Status × Breaker
unfolding is_open round
get_status now later last cb =
    let (opened, cb') = is_open now later cb in
    (
      record {
        name = cb'.name;
        is_open = opened;
        failure_count = cb'.failure_count;
        cooldown_remaining = if opened then round (cb'.open_until - last) tenth else 0;
      },
      cb',
    )
