-- ===== src/Breaker/Traces.antt =====
-- A breaker over any sequence of calls.
use image_descriptor.Prelude.{
  ℕ, suc, ◌+◌, ◌≤◌, ◌<◌, ◌≡◌, refl, String, List, [], ◌∷◌, ◌++◌, length, true, false, arith, ltb,
  ◌⊎◌, inl, inr, Bool-cases,
}
use image_descriptor.Breaker.{Breaker, init, is_open, record_failure, record_success}
use image_descriptor.Breaker.Invariant.{
  IsSound, init-IsSound, is_open-IsSound, record_failure-IsSound, record_success-IsSound,
}

pub data Call : Type 0 where
  probe : ℕ → ℕ → Call
  failed : ℕ → Call
  succeeded : Call

unfoldable pub step : Breaker → Call → Breaker
step cb (probe now later) = (is_open now later cb).1
step cb (failed now) = record_failure now cb
step cb succeeded = record_success cb

unfoldable pub run : Breaker → List Call → Breaker
unfolding step
run cb [] = cb
run cb (c ∷ cs) = run (step cb c) cs

-- the failures of a history since its last success, with n before it
abbrev pub streak : ℕ → List Call → ℕ
streak n [] = n
streak n (probe now later ∷ cs) = streak n cs
streak n (failed now ∷ cs) = streak (suc n) cs
streak n (succeeded ∷ cs) = streak 0 cs

step-IsSound : (cb : Breaker) (c : Call) → IsSound cb → IsSound (step cb c)
unfolding step
step-IsSound cb (probe now later) v = is_open-IsSound now later cb v
step-IsSound cb (failed now) v = record_failure-IsSound now cb v
step-IsSound cb succeeded v = record_success-IsSound cb v

-- Whatever the calls on a breaker that is sound, it stays sound: it has a positive threshold and
-- cooldown, its metric is 1 exactly while it is open, and its failures have reached the threshold
-- exactly then.
pub run-IsSound : (cb : Breaker) (cs : List Call) → IsSound cb → IsSound (run cb cs)
unfolding run
run-IsSound cb [] v = v
run-IsSound cb (c ∷ cs) v = run-IsSound (step cb c) cs (step-IsSound cb c v)

threshold-step : (cb : Breaker) (c : Call) → (step cb c).failure_threshold ≡ cb.failure_threshold
unfolding step is_open record_failure record_success
threshold-step cb (probe now later) = ground arith
threshold-step cb (failed now) = ground arith
threshold-step cb succeeded = refl

count-le-streak :
    (cb : Breaker) (cs : List Call) (n : ℕ)
    → cb.failure_count ≤ n
    → (run cb cs).failure_count ≤ streak n cs
unfolding run
count-le-streak cb [] n h = h
count-le-streak cb (probe now later ∷ cs) n h =
    count-le-streak (is_open now later cb).1 cs n (unfold is_open in ground arith)
count-le-streak cb (failed now ∷ cs) n h =
    count-le-streak (record_failure now cb) cs (suc n) (unfold record_failure in ground arith)
count-le-streak cb (succeeded ∷ cs) n h =
    count-le-streak (record_success cb) cs 0 (unfold record_success in ground arith)

threshold-run :
    (cb : Breaker) (cs : List Call) → (run cb cs).failure_threshold ≡ cb.failure_threshold
unfolding run
threshold-run cb [] = refl
threshold-run cb (c ∷ cs) = ground (arith, threshold-run (step cb c) cs, threshold-step cb c)

-- After any calls on a new breaker with a positive threshold and cooldown, it is open only if at
-- least `threshold` failures have followed the last success.
pub open_needs_failures :
    (name : String) (threshold cooldown : ℕ) (cs : List Call)
    → 0 < threshold
    → 0 < cooldown
    → 0 < (run (init name threshold cooldown) cs).open_until
    → threshold ≤ streak 0 cs
unfolding init
open_needs_failures name threshold cooldown cs h k opened =
    let cb = init name threshold cooldown in
    let sound = run-IsSound cb cs (init-IsSound name threshold cooldown h k) in
    omega (arith, sound.reached opened, count-le-streak cb cs 0 (omega arith), threshold-run cb cs)

cooldown-step : (cb : Breaker) (c : Call) → (step cb c).cooldown ≡ cb.cooldown
unfolding step is_open record_failure record_success
cooldown-step cb (probe now later) = ground arith
cooldown-step cb (failed now) = ground arith
cooldown-step cb succeeded = refl

-- the calls of a service that fails at each of these times
abbrev pub failures : List ℕ → List Call
failures [] = []
failures (t ∷ ts) = failed t ∷ failures ts

counted : (cb : Breaker) (t : ℕ) → (step cb (failed t)).failure_count ≡ cb.failure_count + 1
unfolding step record_failure
counted cb t = ground arith

trip :
    (cb : Breaker) (ts : List ℕ) (now : ℕ)
    → cb.failure_threshold ≤ cb.failure_count + suc (length ts)
    → (run cb (failures ts ++ failed now ∷ [])).open_until ≡ now + cb.cooldown
unfolding run
trip cb [] now h = unfold step record_failure in ground arith
trip cb (t ∷ ts) now h = ground (
  arith,
  trip (step cb (failed t)) ts now,
  cooldown-step cb (failed t),
  threshold-step cb (failed t),
  counted cb t,
)

-- From any state of a breaker with a positive cooldown, at least `threshold` failures in a row trip
-- it: a call that asks before the cooldown has passed since the last of them is refused and changes
-- nothing, and a call that asks later is let through and starts the count again.
pub trip_window :
    (cb : Breaker) (ts : List ℕ) (now t : ℕ)
    → 0 < cb.cooldown
    → cb.failure_threshold ≤ suc (length ts)
    → let tripped = run cb (failures ts ++ failed now ∷ []) in
      ((t < now + cb.cooldown) × (is_open t t tripped ≡ (true, tripped)))
      ⊎ ((now + cb.cooldown ≤ t)
          × ((is_open t t tripped).0 ≡ false)
          × ((is_open t t tripped).1.failure_count ≡ 0)
          × ((is_open t t tripped).1.open_until ≡ 0))
trip_window cb ts now t h k =
    let tripped = run cb (failures ts ++ failed now ∷ []) in
    let until : tripped.open_until ≡ now + cb.cooldown = trip cb ts now (omega arith) in
    elim (Bool-cases (ltb t (now + cb.cooldown))) [
      | inl early ↦ inl (ground arith, unfold is_open in ground arith)
      | inr late ↦ inr (
        ground arith,
        unfold is_open in ground arith,
        unfold is_open in ground arith,
        unfold is_open in ground arith,
      )
    ]
