-- ===== src/Supabase.antt =====
-- app/db/supabase.py: the shared client with its reconnect backoff, and the queries on the table
-- `image_descriptions`. Times are whole microseconds of the monotonic clock. What the supabase
-- library answers is an argument: `create` is the error of `acreate_client`, if any, and `execute`
-- the answer to a query.
pub mod Queries
pub mod Backoff
pub mod Raises
pub mod Saved
use image_descriptor.Prelude.{
  ℕ, ◌+◌, ◌-◌, ◌*◌, ◌/◌, ◌^◌, min, String, Bool, true, false, ◌&&◌, Option, none, some, List, [],
  ◌∷◌, ltb, or_else, if◌then◌else◌,
}
use image_descriptor.Prelude.Decimal.{show_tenths}
use image_descriptor.Prelude.Round.{round}
use image_descriptor.Prelude.Text.{join, is_truthy}
use image_descriptor.Prelude.Number.{Number}
use mathlib.Core.Option
use image_descriptor.Errors.{
  other_error, Error, Result, ok, err, connection_error, is_connection_error, is_timeout_error,
}
use image_descriptor.Schemas.{Location, LandCover, LandCoverClass, Context, Event}

-- the module's globals; `connected` is `_client is not None`
pub record Client : Type 0 where
  pub connected : Bool
  pub last_failure_time : ℕ
  pub consecutive_failures : ℕ

pub record Settings : Type 0 where
  pub backoff_base : ℕ
  pub backoff_max : ℕ

abbrev pub initial : Client
initial = record { connected = false; last_failure_time = 0; consecutive_failures = 0 }

unfoldable pub reset_client : ℕ → Client → Client
reset_client now s = record {
  connected = false;
  last_failure_time = now;
  consecutive_failures = s.consecutive_failures + 1;
}

-- `base * (2 ** (failures - 1))`, with a base that is a float, raises from 2 ** 1024 on.
abbrev pub overflows : ℕ → Bool
overflows failures = ltb 1024 failures

abbrev overflow_error : Error
overflow_error = record { kind = other_error; text = "int too large to convert to float" }

abbrev pub backoff : Settings → ℕ → ℕ
backoff cfg failures = min (cfg.backoff_base * 2 ^ (failures - 1)) cfg.backoff_max

abbrev backoff_error : ℕ → Error
backoff_error remaining = record {
  kind = connection_error;
  text =
      join "Supabase reconnect backoff: "
        (join (show_tenths (round remaining 100000)) "s remaining");
}

-- What a call of the module reads from outside: the clock when `get_client` tests the backoff and
-- when a failure is recorded, and the outcome of `acreate_client`.
pub record Outside : Type 0 where
  pub now : ℕ
  pub create : Option Error
  pub failed_at : ℕ

abbrev created : Option Error → ℕ → Client → Result (Unit {0}) × Client
created none failed_at s = (ok tt, record s { connected = true; consecutive_failures = 0 })
created (some e) failed_at s = (err e, reset_client failed_at s)

unfoldable pub get_client : Settings → Outside → Client → Result (Unit {0}) × Client
unfolding reset_client
get_client cfg out s =
    if s.connected
    then (ok tt, s)
    else if overflows s.consecutive_failures
    then (err overflow_error, s)
    else if ltb 0 s.consecutive_failures
        && ltb (out.now - s.last_failure_time) (backoff cfg s.consecutive_failures)
    then (
      err (backoff_error (backoff cfg s.consecutive_failures - (out.now - s.last_failure_time))),
      s,
    )
    else created out.create out.failed_at s

-- the columns that a location fills
pub record Place : Type 0 where
  pub country : String
  pub country_code : String
  pub region : String
  pub city : Option String
  pub place_name : String

-- The row that `save_description` upserts: a group of columns is absent where the request has no
-- such part. A land cover or a context fills two columns, as many as it has fields.
pub record DescriptionRow : Type 0 where
  pub cog_image_id : String
  pub coordinates : List Number
  pub captured_at : Option String
  pub description : Option String
  pub place : Option Place
  pub land_cover : Option LandCover
  pub context : Option Context

abbrev place_of : Location → Place
place_of l = record {
  country = l.country;
  country_code = l.country_code;
  region = l.region;
  city = l.city;
  place_name = l.place_name;
}

unfoldable pub description_row :
    String
    → List Number
    → Option String
    → Option Location
    → Option LandCover
    → Option String
    → Option Context
    → DescriptionRow
description_row cog_image_id coordinates captured_at location land_cover description context =
    record {
      cog_image_id = cog_image_id;
      coordinates = coordinates;
      captured_at = captured_at;
      description = description;
      place = Option.map place_of location;
      land_cover = land_cover;
      context = context;
    }

-- the rest of a `try` body after `client = await get_client()`
abbrev query : {A : Type 0} → Result A → Result (Unit {0}) × Client → Result A × Client
query answer (ok u, s) = (answer, s)
query answer (err e, s) = (err e, s)

-- `except TimeoutError: return False`, `except ConnectionError: raise`, `except Exception: reset`
abbrev save_handler : ℕ → Result (Unit {0}) × Client → Result Bool × Client
save_handler failed_at (ok u, s) = (ok true, s)
save_handler failed_at (err e, s) =
    if is_timeout_error e.kind
    then (ok false, s)
    else if is_connection_error e.kind
    then (err e, s)
    else (ok false, reset_client failed_at s)

unfoldable pub save_description :
    Settings
    → Outside
    → (DescriptionRow → Result (Unit {0}))
    → DescriptionRow
    → Client
    → Result Bool × Client
unfolding get_client
save_description cfg out execute row s =
    save_handler out.failed_at (query (execute row) (get_client cfg out s))

-- here a `ConnectionError` is caught with the rest
abbrev ping_handler : ℕ → Result (Unit {0}) × Client → Bool × Client
ping_handler failed_at (ok u, s) = (true, s)
ping_handler failed_at (err e, s) =
    if is_timeout_error e.kind then (false, s) else (false, reset_client failed_at s)

unfoldable pub ping : Settings → Outside → Result (Unit {0}) → Client → Bool × Client
unfolding get_client
ping cfg out answer s = ping_handler out.failed_at (query answer (get_client cfg out s))
