-- ===== src/Tests/Breaker.antt =====
-- The breaker's theorems at concrete histories.
use image_descriptor.Prelude.{◌≤◌, ◌≡◌, List, [], ◌∷◌, ◌++◌, true, false, arith, ◌<◌, ◌⊎◌}
use image_descriptor.Breaker.{Breaker, init, is_open, record_failure, record_success}
use image_descriptor.Breaker.Invariant.{IsSound, init-IsSound}
use image_descriptor.Breaker.Traces.{
  Call, probe, failed, succeeded, run, streak, failures, run-IsSound, open_needs_failures,
  trip_window,
}

abbrev fresh : Breaker
unfolding init
fresh = init "geocoder" 2 30

abbrev history : List Call
history = failed 1 ∷ succeeded ∷ failed 5 ∷ failed 7 ∷ probe 8 8 ∷ []

run-IsSound_example : IsSound (run fresh history)
unfolding fresh init
run-IsSound_example =
    run-IsSound fresh history (init-IsSound "geocoder" 2 30 (omega arith) (omega arith))

open_needs_failures_example : 2 ≤ streak 0 history
unfolding run is_open record_failure record_success init
open_needs_failures_example =
    open_needs_failures "geocoder" 2 30 history (omega arith) (omega arith) (omega arith)

trip_window_example :
    let tripped = run fresh (failures (5 ∷ []) ++ failed 7 ∷ []) in
    ((20 < 37) × (is_open 20 20 tripped ≡ (true, tripped)))
    ⊎ ((37 ≤ 20)
        × ((is_open 20 20 tripped).0 ≡ false)
        × ((is_open 20 20 tripped).1.failure_count ≡ 0)
        × ((is_open 20 20 tripped).1.open_until ≡ 0))
unfolding init
trip_window_example = trip_window fresh (5 ∷ []) 7 20 (omega arith) (omega arith)
