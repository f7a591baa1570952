-- ===== src/Tests/Composer.antt =====
-- The composer's theorems where two services fail.
use image_descriptor.Prelude.{ℕ, ◌+◌, String, false, none, []}
use image_descriptor.Prelude.Number.{Number}
use image_descriptor.Errors.{Error, ok, err, other_error}
use image_descriptor.Schemas.{DescribeRequest}
use image_descriptor.Composer.{Service, Clock, State, all_closed}
use image_descriptor.Composer.Phases.{Services}

abbrev failure : Error
failure = record { kind = other_error; text = "no answer" }

-- the world counts the calls
abbrev services : Services ℕ
services = record {
  geocode = λ lon lat w. (err failure, w + 1);
  get_land_cover = λ lon lat w. (ok (record { classes = []; summary = "정보 없음" }), w + 1);
  get_mission_metadata = λ stac_id w. (ok none, w + 1);
  describe_image = λ thumbnail place date cover id bbox w. (ok ("A harbour.", false), w + 1);
  research_context = λ place date region city w. (err failure, w + 1);
}

abbrev request : DescribeRequest
request = record {
  thumbnail = "https://example.com/a.png";
  coordinates = [];
  bbox = none;
  captured_at = none;
  cog_image_id = none;
  stac_id = none;
}

abbrev clocks : Service → Clock
clocks n = record { now = 5; later = 6; failed_at = 7 }

abbrev show : Number → String
show x = "127.0"

abbrev state : State ℕ
state = record { breakers = all_closed; api_requests = []; requests = []; world = 0 }
