-- ===== src/Tests/Stack.antt =====
-- The whole application, for routes that fail with an exception that no handler of their own takes.
use image_descriptor.Prelude.{ℕ, ◌≡◌, refl, String, not, ◌&&◌, none, List, [], ◌∷◌, leb}
use image_descriptor.Prelude.Text.{codes}
use image_descriptor.Problems.{other, timeout_error}
use image_descriptor.Server.{Server, started, handle_sigterm, is_system}
use image_descriptor.Server.RateLimit.{Header}
use image_descriptor.Server.Headers.{header}
use image_descriptor.Logging.Middleware.{Request, Response, Ids}
use image_descriptor.Server.Stack.{Content, Visit, Setting, raised, handled, app}
use image_descriptor.Server.Stack.Answered.{IsJsonResponse, IsOutcome, app-IsOutcome}

abbrev json_response : ℕ → Content String → List Header → String → Response (Content String)
json_response n content headers media = record {
  status_code = n;
  headers = ("content-type", codes media) ∷ headers;
  body = content;
}

json_response-IsJsonResponse : IsJsonResponse json_response
unfolding header
json_response-IsJsonResponse = record {
  status = λ n c headers media. refl;
  plain = λ n c media name h k. rw h refl;
}

abbrev setting : Setting String (Content String)
setting = record {
  is_word = λ c. leb b'0' c;
  to_lower = λ s. s;
  uuid = λ value. none;
  new_request_id = codes "r1";
  new_correlation_id = codes "c1";
  process_time = codes "0.01";
  now = 0;
  json_response = json_response;
  cors_gzip = λ inner. inner;
}

abbrev failing : Ids → Server → Visit String (Content String)
failing ids s = record { outcome = raised (other "boom"); view_rate_limit = none; server = s }

abbrev slow : Ids → Server → Visit String (Content String)
slow ids s = record { outcome = raised timeout_error; view_rate_limit = none; server = s }

abbrev request : Request
request = record { method = "GET"; path = "/api/v1/context"; query = []; headers = [] }

app-IsOutcome_example :
    IsOutcome setting failing request started
      (started.shutting_down && not (is_system request.path))
      (app setting failing request started)
app-IsOutcome_example = app-IsOutcome setting json_response-IsJsonResponse failing request started

statuses :
    ((app setting failing request started).0.status_code ≡ 500)
    × ((app setting slow request started).0.status_code ≡ 504)
    × ((app setting slow request (handle_sigterm started)).0.status_code ≡ 503)
unfolding app started handle_sigterm handled is_system
statuses = (refl, refl, refl)
