-- ===== src/Composer.antt =====
-- app/services/composer.py: the calls of the five services behind their circuit breakers, and the
-- description composed from their results.
--
-- A service is an action on a world W, which holds whatever the modules under app/modules touch. The
-- tasks of a phase run in the order in which they are created, one of the orders that the event loop
-- may choose.
pub mod Phases
pub mod Calls
pub mod Effect
pub mod Fresh
pub mod Kept
pub mod Order
pub mod Schedule
pub mod Warnings
use image_descriptor.Prelude.{
  ℕ, String, Bool, true, false, Option, none, some, List, [], ◌∷◌, ◌++◌, if◌then◌else◌,
}
use image_descriptor.Prelude.Text.{join, is_truthy}
use image_descriptor.Prelude.Number.{Number}
use image_descriptor.Errors.{Error, Result, ok, err, value_error}
use image_descriptor.Breaker.{
  Breaker, Status, init, is_open, record_failure, record_success, get_status,
}
use image_descriptor.Schemas.{
  DescribeRequest, DescribeResponse, Location, LandCover, Context, Mission, Warned,
}

pub data Service : Type 0 where
  geocoder landcover describer context mission : Service

abbrev pub name : Service → String
name geocoder = "geocoder"
name landcover = "landcover"
name describer = "describer"
name context = "context"
name mission = "mission"

-- `_breakers`
pub record Breakers : Type 0 where
  pub geocoder : Breaker
  pub landcover : Breaker
  pub describer : Breaker
  pub context : Breaker
  pub mission : Breaker

abbrev pub failure_threshold : ℕ
failure_threshold = 5

abbrev pub cooldown : ℕ
cooldown = 30000000

unfoldable pub all_closed : Breakers
unfolding init
all_closed = record {
  geocoder = init "geocoder" failure_threshold cooldown;
  landcover = init "landcover" failure_threshold cooldown;
  describer = init "describer" failure_threshold cooldown;
  context = init "context" failure_threshold cooldown;
  mission = init "mission" failure_threshold cooldown;
}

abbrev pub breaker : Service → Breakers → Breaker
breaker geocoder b = b.geocoder
breaker landcover b = b.landcover
breaker describer b = b.describer
breaker context b = b.context
breaker mission b = b.mission

abbrev pub put_breaker : Service → Breaker → Breakers → Breakers
put_breaker geocoder cb b = record b { geocoder = cb }
put_breaker landcover cb b = record b { landcover = cb }
put_breaker describer cb b = record b { describer = cb }
put_breaker context cb b = record b { context = cb }
put_breaker mission cb b = record b { mission = cb }

-- the clock readings of one call: the two of `is_open`, and the one of `record_failure`
pub record Clock : Type 0 where
  pub now : ℕ
  pub later : ℕ
  pub failed_at : ℕ

-- `api_requests` holds the labels with which `external_api_requests` was raised, and `requests`
-- those of `description_requests_total`.
pub record State (W : Type 0) : Type 0 where
  pub breakers : Breakers
  pub api_requests : List (Service × String)
  pub requests : List String
  pub world : W

abbrev pub warning : Service → String → Warned
warning s error = record { service = name s; error = error }

module _ {W : Type 0} where
  abbrev with_breaker : Service → Breaker → State W → State W
  with_breaker n cb s = record s { breakers = put_breaker n cb s.breakers }

  module _ {A : Type 0} where
    -- `record_success`, or the `except` clause, once the coroutine has ended
    abbrev finish :
        Service → Clock → Result A → List Warned → State W → Option A × List Warned × State W
    finish n clock (ok a) warnings s = (
      some a,
      warnings,
      record s {
        breakers = put_breaker n (record_success (breaker n s.breakers)) s.breakers;
        api_requests = (n, "success") ∷ s.api_requests;
      },
    )
    finish n clock (err e) warnings s = (
      none,
      warnings ++ warning n e.text ∷ [],
      record s {
        breakers = put_breaker n (record_failure clock.failed_at (breaker n s.breakers)) s.breakers;
        api_requests = (n, "error") ∷ s.api_requests;
      },
    )

    abbrev await :
        Service → Clock → Result A × W → List Warned → State W → Option A × List Warned × State W
    await n clock (r, w) warnings s = finish n clock r warnings (record s { world = w })

    abbrev guarded :
        Service
        → Clock
        → (W → Result A × W)
        → List Warned
        → Bool × Breaker
        → State W
        → Option A × List Warned × State W
    guarded n clock coro warnings (true, cb) s =
        (none, warnings ++ warning n "Circuit breaker open" ∷ [], with_breaker n cb s)
    guarded n clock coro warnings (false, cb) s =
        await n clock (coro s.world) warnings (with_breaker n cb s)

    unfoldable pub safe_call :
        Service
        → Clock
        → (W → Result A × W)
        → List Warned
        → State W
        → Option A × List Warned × State W
    unfolding is_open record_failure record_success
    safe_call n clock coro warnings s =
        guarded n clock coro warnings (is_open clock.now clock.later (breaker n s.breakers)) s

-- `get_breaker_statuses`: each status reads the clock three times
unfoldable pub get_breaker_statuses : (Service → Clock) → Breakers → List Status × Breakers
unfolding get_status
get_breaker_statuses clocks b =
    let (g, b_g) = status geocoder b in
    let (l, b_l) = status landcover b_g in
    let (d, b_d) = status describer b_l in
    let (c, b_c) = status context b_d in
    let (m, b_m) = status mission b_c in (g ∷ l ∷ d ∷ c ∷ m ∷ [], b_m)
  where
    status : Service → Breakers → Status × Breakers
    status n b =
        let (s, cb) =
          get_status (clocks n).now (clocks n).later (clocks n).failed_at (breaker n b) in
        (s, put_breaker n cb b)
