-- ===== src/Routes/Timed.antt =====
-- app/utils/timeout.py, and the endpoints of app/api/routes.py that answer with what a module returns.
--
-- A coroutine is given by how long it takes, by its outcome with the state it leaves, and by the state
-- that it leaves where it is cancelled at the time-out. Times count microseconds.
use image_descriptor.Prelude.{
  ℕ, String, Bool, ◌||◌, Option, none, some, List, [], ◌∷◌, ltb, if◌then◌else◌,
}
use image_descriptor.Prelude.Text.{str_eq, join}
use image_descriptor.Prelude.Number.{Number}
use image_descriptor.Errors.{Error, Result, err, timeout_error, value_error}
use image_descriptor.Schemas.{DescribeRequest, Location, LandCover, Context}

pub record Coroutine (A S : Type 0) : Type 0 where
  pub took : ℕ
  pub outcome : Result A × S
  pub cancelled : S

abbrev pub timed_out : Error
timed_out = record { kind = timeout_error; text = "" }

-- `path in excluded`
abbrev pub is_excluded : String → Bool
is_excluded path =
    str_eq path "/health"
    || str_eq path "/metrics"
    || str_eq path "/api/health"
    || str_eq path "/api/cache/stats"

-- `request.url.path if request else ""`
abbrev path_of : Option String → String
path_of none = ""
path_of (some path) = path

unfoldable pub apply_timeout : {A S : Type 0} → ℕ → Option String → Coroutine A S → Result A × S
apply_timeout request_timeout path coro =
    if is_excluded (path_of path)
    then coro.outcome
    else if ltb coro.took request_timeout
    then coro.outcome
    else (err timed_out, coro.cancelled)

-- What the endpoints call, and what stands in the settings.
pub record Modules (S : Type 0) : Type 0 where
  pub show : Number → String
  pub request_timeout : ℕ
  pub geocode : Number → Number → S → Coroutine Location S
  pub get_land_cover : Number → Number → S → Coroutine LandCover S
  pub research_context : String → Option String → S → Coroutine Context S

module _ {S : Type 0} where
  -- `lon, lat = body.coordinates`
  abbrev unpacked :
      {A : Type 0} → (Number → Number → S → Result A × S) → List Number → S → Result A × S
  unpacked f (lon ∷ lat ∷ []) s = f lon lat s
  unpacked f coordinates s =
      (err (record { kind = value_error; text = "wrong number of values to unpack" }), s)

  unfoldable pub geocode_endpoint : Modules S → DescribeRequest → String → S → Result Location × S
  unfolding apply_timeout
  geocode_endpoint m body path s =
      unpacked (λ lon lat s. apply_timeout m.request_timeout (some path) (m.geocode lon lat s))
        body.coordinates s

  unfoldable pub landcover_endpoint :
      Modules S → DescribeRequest → String → S → Result LandCover × S
  unfolding apply_timeout
  landcover_endpoint m body path s =
      unpacked
        (λ lon lat s. apply_timeout m.request_timeout (some path) (m.get_land_cover lon lat s))
        body.coordinates s

  unfoldable pub context_endpoint : Modules S → DescribeRequest → String → S → Result Context × S
  unfolding apply_timeout
  context_endpoint m body path s =
      unpacked
        (λ lon lat s.
          apply_timeout m.request_timeout (some path)
            (m.research_context (join (m.show lat) (join ", " (m.show lon))) body.captured_at s))
        body.coordinates s
