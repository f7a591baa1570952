-- ===== src/Tests/Describe.antt =====
-- A description that is made and stored, and the same request with the tag of its answer.
use image_descriptor.Prelude.{ℕ, ◌+◌, ◌≡◌, refl, false, none, some, [], ◌∷◌}
use image_descriptor.Prelude.Number.{whole}
use image_descriptor.Errors.{Error, Result, ok, err, other_error}
use image_descriptor.Schemas.{DescribeRequest, DescribeResponse}
use image_descriptor.Composer.{all_closed}
use image_descriptor.Composer.Phases.{Services}
use image_descriptor.Supabase.{save_description}
use image_descriptor.Supabase
use image_descriptor.Routes.Describe.{App, Env, describe_and_save}
use image_descriptor.Routes.Describe.Recorded.{IsRecorded, describe_and_save-IsRecorded}
use image_descriptor.Routes.Respond.{Codec, describe}
use image_descriptor.Routes.Respond.Conditional.{IsConditional, describe-IsConditional}

abbrev failure : Error
failure = record { kind = other_error; text = "no answer" }

abbrev services : Services ℕ
services = record {
  geocode = λ lon lat w. (err failure, w + 1);
  get_land_cover = λ lon lat w. (ok (record { classes = []; summary = "정보 없음" }), w + 1);
  get_mission_metadata = λ stac_id w. (ok none, w + 1);
  describe_image = λ thumbnail place date cover id bbox w. (ok ("A harbour.", false), w + 1);
  research_context = λ place date region city w. (err failure, w + 1);
}

abbrev request : DescribeRequest
request = record {
  thumbnail = "https://example.com/a.png";
  coordinates = whole 127 ∷ whole 37 ∷ [];
  bbox = none;
  captured_at = none;
  cog_image_id = some "id-1";
  stac_id = none;
}

abbrev env : Env ℕ
env = record {
  show = λ x. "127.0";
  services = services;
  clocks = λ n. record { now = 5; later = 6; failed_at = 7 };
  settings = record { backoff_base = 1000000; backoff_max = 60000000 };
  outside = record { now = 5; create = none; failed_at = 6 };
  execute = λ row. err failure;
}

abbrev app : App ℕ
app = record {
  state = record { breakers = all_closed; api_requests = []; requests = []; world = 0 };
  client = Supabase.initial;
}

abbrev codec : Codec
codec = record { dumps = λ r. "{}"; digest = λ s. "99914b93" }

describe-IsConditional_example :
    let plain = describe codec 30000000 env 2000000 app "/api/v1/describe" none request app in
    let answer =
      describe codec 30000000 env 2000000 app "/api/v1/describe"
        (some "\"99914b93\"")
        request
        app in
    IsConditional "\"99914b93\"" plain.0 answer.0 × (answer.1 ≡ plain.1)
describe-IsConditional_example =
    describe-IsConditional codec 30000000 env 2000000 app "/api/v1/describe" "\"99914b93\"" request
      app refl

abbrev outcome : Result DescribeResponse × App ℕ
unfolding describe_and_save
outcome = describe_and_save env request app

abbrev response : DescribeResponse
unfolding outcome
response = elim outcome.0 [
  | ok r ↦ r
  | err e ↦ record {
    description = none;
    location = none;
    land_cover = none;
    context = none;
    mission = none;
    warnings = [];
    cached = false;
    saved = none;
  }
]

describe_and_save-IsRecorded_example :
    IsRecorded env request response app.client outcome.1.client response.saved
unfolding describe_and_save outcome response all_closed
describe_and_save-IsRecorded_example =
    describe_and_save-IsRecorded env request app outcome.1 response refl
