-- ===== src/Geocoder.antt =====
-- app/modules/geocoder.py: the reverse geocoder behind the cache, at most one request a second.
--
-- Times are whole microseconds. The Nominatim answer is an argument: an error of the request, or a
-- body, whose decoding may fail. Of a body the source reads the fields of `Reverse`, which are texts
-- where they are given; `place_name` is the display name without its postcode.
pub mod Pace
pub mod Row
use image_descriptor.Prelude.{
  ℕ, ◌+◌, ◌-◌, String, Option, none, some, List, [], ◌∷◌, or_else, if◌then◌else◌,
}
use image_descriptor.Prelude.Text.{join, is_truthy}
use image_descriptor.Prelude.Number.{Number, round_number}
use image_descriptor.Errors.{Error, Result, ok, err}
use image_descriptor.Schemas.{Location}
use image_descriptor.Cache.{Cache, Fault, get, set, second}

-- `display_name` and the fields of `address`
pub record Reverse : Type 0 where
  pub display_name : Option String
  pub country : Option String
  pub country_code : Option String
  pub state : Option String
  pub province : Option String
  pub city : Option String
  pub town : Option String
  pub village : Option String

-- The cache and `_last_request_time`; `sent` is the log of the instants at which requests went out, the
-- last one first.
pub record State : Type 0 where
  pub cache : Cache
  pub last_request_time : ℕ
  pub sent : List ℕ

-- What one call meets outside: the instants and faults of its calls of the cache, the instant at which
-- it holds the lock, how long the request takes, and its answer.
pub record Call : Type 0 where
  pub select_error : Option Error
  pub delete_fault : Fault
  pub get_at : ℕ
  pub now : ℕ
  pub took : ℕ
  pub answer : Result (Option Reverse)
  pub set_fault : Fault
  pub set_at : ℕ

-- `max(0, 1.0 - (now - _last_request_time))`
unfoldable pub wait : ℕ → ℕ → ℕ
wait now last_request_time = last_request_time + second - now

abbrev pub first_given : Option String → Option String → Option String
first_given none b = b
first_given (some a) b = some a

-- `x or y`
abbrev pub or_text : String → String → String
or_text a b = if is_truthy a then a else b

abbrev pub unknown_location : Number → Number → Location
unknown_location lon lat = record {
  country = "Unknown";
  country_code = "";
  region = "";
  city = none;
  place_name = "";
  lat = lat;
  lon = lon;
}

-- `without_postcode` is `re.sub(r",?\s*\d{5}\s*", "", name).strip(", ")`, of the re library.
module _ (loads : String → Option Location) (dumps : Location → String) (show : Number → String)
    (without_postcode : String → String) (cache_ttl_seconds : ℕ) where
  abbrev pub location_of : Number → Number → Reverse → Location
  location_of lon lat answer = record {
    country = or_else answer.country (or_else answer.display_name "Unknown");
    country_code = or_else answer.country_code "";
    region = or_text (or_else answer.state (or_else answer.province "")) (or_else answer.city "");
    city = first_given answer.city (first_given answer.town answer.village);
    place_name = without_postcode (or_else answer.display_name "");
    lat = lat;
    lon = lon;
  }

  abbrev pub cache_key : Number → Number → String
  unfolding round_number
  cache_key lon lat =
      join "geocode:"
        (join (show (round_number 1000 lon)) (join ":" (show (round_number 1000 lat))))

  abbrev stored : Location → State → Result (Unit {0}) × Cache → Result Location × State
  stored location s (ok u, c) = (ok location, record s { cache = c })
  stored location s (err e, c) = (err e, record s { cache = c })

  -- what follows the lock
  abbrev parsed : Call → Number → Number → Option Reverse → State → Result Location × State
  parsed call lon lat none s = (ok (unknown_location lon lat), s)
  parsed call lon lat (some answer) s = stored (location_of lon lat answer) s (
      set dumps call.set_fault call.set_at (cache_key lon lat) (location_of lon lat answer) none
        (some cache_ttl_seconds) s.cache)

  -- The request, sent at the instant `at`; where it raises, `_last_request_time` stays.
  abbrev requested :
      Call → Number → Number → ℕ → Result (Option Reverse) → State → Result Location × State
  requested call lon lat at (err e) s = (err e, record s { sent = at ∷ s.sent })
  requested call lon lat at (ok body) s =
      parsed call lon lat body (record s { last_request_time = at + call.took; sent = at ∷ s.sent })

  abbrev looked_up :
      Call → Number → Number → Result (Option Location) × Cache → State → Result Location × State
  looked_up call lon lat (err e, c) s = (err e, record s { cache = c })
  looked_up call lon lat (ok (some cached), c) s = (ok cached, record s { cache = c })
  looked_up call lon lat (ok none, c) s =
      requested call lon lat (call.now + wait call.now s.last_request_time) call.answer
        (record s { cache = c })

  unfoldable pub geocode : Call → Number → Number → State → Result Location × State
  unfolding get set wait
  geocode call lon lat s =
      looked_up call lon lat
        (get loads call.select_error call.delete_fault call.get_at (cache_key lon lat) s.cache) s
