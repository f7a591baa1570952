-- ===== src/Routes/Health.antt =====
-- app/api/routes.py: `health` with `readiness`, which is the same, and `liveness`.
use image_descriptor.Prelude.{
  ℕ, ◌≡◌, ◌↔◌, ◌⊎◌, String, Bool, true, false, not, ◌&&◌, ◌||◌, arith, if◌then◌else◌,
}
use image_descriptor.Prelude.Text.{eq_iff}
use image_descriptor.Errors.{Result, ok, err, is_timeout_error}

pub record Health : Type 0 where
  pub status : String
  pub supabase : String
  pub cache : String
  pub status_code : ℕ

-- a check under `wait_for`: a timeout is a failed check, any other exception goes on
unfoldable pub checked : Result Bool → Result Bool
checked (ok b) = ok b
checked (err e) = if is_timeout_error e.kind then ok false else err e

abbrev ok_or_fail : Bool → String
ok_or_fail b = if b then "ok" else "fail"

abbrev pub report : Bool → Bool → Bool → Health
report supabase_ok cache_ok shutting_down =
    let all_fail = not supabase_ok && not cache_ok in
    let any_fail = not supabase_ok || not cache_ok in
    record {
      status =
          if shutting_down
          then "shutting_down"
          else if all_fail
          then "unhealthy"
          else if any_fail
          then "degraded"
          else "ok";
      supabase = ok_or_fail supabase_ok;
      cache = ok_or_fail cache_ok;
      status_code = if all_fail || shutting_down then 503 else 200;
    }

abbrev reported : Bool → Result Bool → Result Bool → Result Health
reported shutting_down (err e) supabase = err e
reported shutting_down (ok c) (err e) = err e
reported shutting_down (ok c) (ok s) = ok (report s c shutting_down)

-- the cache is asked first
unfoldable pub health : Bool → Result Bool → Result Bool → Result Health
unfolding checked
health shutting_down cache supabase = reported shutting_down (checked cache) (checked supabase)

unfoldable pub liveness : Bool → String
liveness shutting_down = if shutting_down then "shutting_down" else "ok"

abbrev IsReport : Bool → Result Bool → Result Bool → Health → Type 0
IsReport shutting_down cache supabase h =
    ((h.status_code ≡ 503)
      ↔ ((shutting_down ≡ true) ⊎ ((cache ≡ ok false) × (supabase ≡ ok false))))
    × ((h.status ≡ "ok") ↔ ((shutting_down ≡ false) × (cache ≡ ok true) × (supabase ≡ ok true)))

report-IsReport : (d c s : Bool) → IsReport d (ok c) (ok s) (report s c d)
report-IsReport true true true = ground (arith, eq_iff "shutting_down" "ok")
report-IsReport true true false = ground (arith, eq_iff "shutting_down" "ok")
report-IsReport true false true = ground (arith, eq_iff "shutting_down" "ok")
report-IsReport true false false = ground (arith, eq_iff "shutting_down" "ok")
report-IsReport false true true = ground arith
report-IsReport false true false = ground (arith, eq_iff "degraded" "ok")
report-IsReport false false true = ground (arith, eq_iff "degraded" "ok")
report-IsReport false false false = ground (arith, eq_iff "unhealthy" "ok")

-- Where the health endpoint answers, which it does unless a check raises something other than a
-- timeout, the status code is 503 exactly when the server is shutting down or neither dependency is
-- up, and the status is "ok" exactly when the server is not shutting down and both are up. A check
-- that times out counts as down.
pub health_iff :
    (shutting_down : Bool) (cache supabase : Result Bool) (h : Health)
    → health shutting_down cache supabase ≡ ok h
    → ((h.status_code ≡ 503)
        ↔ ((shutting_down ≡ true) ⊎ ((checked cache ≡ ok false) × (checked supabase ≡ ok false))))
      × ((h.status ≡ "ok")
          ↔ ((shutting_down ≡ false) × (checked cache ≡ ok true) × (checked supabase ≡ ok true)))
unfolding health
health_iff shutting_down cache supabase h e = read (checked cache) (checked supabase) e
  where
    read : (c s : Result Bool) → reported shutting_down c s ≡ ok h → IsReport shutting_down c s h
    read (err x) s k = absurd (ground arith)
    read (ok c) (err x) k = absurd (ground arith)
    read (ok c) (ok s) k =
        let same : report s c shutting_down ≡ h = ground arith in
        rw (← same) (report-IsReport shutting_down c s)
