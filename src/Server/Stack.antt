-- ===== src/Server/Stack.antt =====
-- The application of app/main.py as its middlewares compose it: the one that is added last is the
-- outermost, and the handlers of exceptions stand on the inside, but for the one of `Exception`, which
-- stands outside of all.
--
-- D stands for the details of an error and B for the body of a response. `json_response` is starlette's
-- JSONResponse, given the status, the content, the headers and the media type. `cors_gzip` stands for
-- CORSMiddleware and GZipMiddleware, which wrap the routes. The routes also say what slowapi leaves in
-- `request.state`, and what the server's globals are by then, since other requests run meanwhile. The
-- instrumentation for Prometheus, which wraps all of it, is left out.
pub mod Answered
pub mod Kept
use image_descriptor.Prelude.{ℕ, String, Bool, true, false, Option, none, some, List, [], ◌++◌}
use image_descriptor.Prelude.Text.{codes}
use image_descriptor.Errors.{Error, Result, ok, err, other_error}
use image_descriptor.Problems.{
  ProblemDetail, Reply, Raised, descriptor_error, http_exception, request_validation_error,
  timeout_error, other, problem_base, handle, internal_error_handler,
}
use image_descriptor.Server.{Server, enter, leave}
use image_descriptor.Server.Headers.{security_headers_middleware}
use image_descriptor.Server.RateLimit.{
  Exceeded, Header, Window, rate_limit_handler, rate_limit_headers_middleware,
}
use image_descriptor.Logging.Middleware.{
  Request, Response, Ids, Entry, ids_of, request_id_middleware,
}

-- the content of a JSONResponse: a problem document, or one without the key `instance`
pub data Content (D : Type 0) : Type 0 where
  document : ProblemDetail D → Content D
  without_instance : List ℕ → String → ℕ → String → Content D

-- how the routes end
pub data Outcome (D B : Type 0) : Type 0 where
  answered : Response B → Outcome D B
  exceeded : Exceeded → Outcome D B
  raised : Raised D → Outcome D B

-- `request.state.view_rate_limit`
abbrev pub View : Type 0
View = Option (ℕ × Option Window)

pub record Visit (D B : Type 0) : Type 0 where
  pub outcome : Outcome D B
  pub view_rate_limit : View
  pub server : Server

-- What a middleware gets from `call_next`, with what the request has left behind by then.
pub record Passed (B : Type 0) : Type 0 where
  pub result : Result (Response B)
  pub ids : Option Ids
  pub view_rate_limit : View
  pub server : Server
  pub log : List Entry

abbrev pub App : Type 0 → Type 0
App B = Ids → Server → Passed B

-- What a request meets: the third-party parts, the fresh ids and the clock.
pub record Setting (D B : Type 0) : Type 0 where
  pub is_word : ℕ → Bool
  pub to_lower : String → String
  pub uuid : List ℕ → Option (List ℕ)
  pub new_request_id : List ℕ
  pub new_correlation_id : List ℕ
  pub process_time : List ℕ
  pub now : ℕ
  pub json_response : ℕ → Content D → List Header → String → Response B
  pub cors_gzip : App B → App B

module _ {D B : Type 0} (setting : Setting D B) where
  abbrev pub response_of : Reply D → List Header → Response B
  response_of r headers =
      setting.json_response r.status_code (document r.content) headers r.media_type

  abbrev limited : Reply D × List Header → Result (Response B)
  limited (r, headers) = ok (response_of r headers)

  -- `app.add_exception_handler`, for all classes but `Exception`
  unfoldable pub handled : Ids → Outcome D B → Result (Response B)
  unfolding handle rate_limit_handler
  handled ids (answered r) = ok r
  handled ids (exceeded e) = limited (rate_limit_handler (some ids.correlation_id) e setting.now)
  handled ids (raised (other text)) = err (record { kind = other_error; text = text })
  handled ids (raised (descriptor_error status code message d)) =
      ok
        (response_of (handle (some ids.correlation_id) (descriptor_error status code message d)) [])
  handled ids (raised (http_exception status detail)) =
      ok (response_of (handle (some ids.correlation_id) (http_exception status detail)) [])
  handled ids (raised (request_validation_error errors)) =
      ok (response_of (handle (some ids.correlation_id) (request_validation_error errors)) [])
  handled ids (raised timeout_error) =
      ok (response_of (handle (some ids.correlation_id) timeout_error) [])

  abbrev visited : Ids → Visit D B → Passed B
  visited ids v = record {
    result = handled ids v.outcome;
    ids = some ids;
    view_rate_limit = v.view_rate_limit;
    server = v.server;
    log = [];
  }

  -- the application that `logging_middleware` wraps
  abbrev pub inner : (Ids → Server → Visit D B) → App B
  inner routes = setting.cors_gzip (λ ids s. visited ids (routes ids s))

  abbrev pub ids_for : Request → Ids
  ids_for request =
      ids_of setting.is_word setting.to_lower setting.uuid setting.new_request_id
        setting.new_correlation_id request.headers

  abbrev logged : Ids → Result (Response B) × List Entry → Passed B → Passed B
  logged ids (r, entries) p = record p { result = r; ids = some ids; log = entries }

  unfoldable pub logging_middleware : Request → App B → Server → Passed B
  unfolding request_id_middleware ids_of
  logging_middleware request app s =
      logged (ids_for request)
        (request_id_middleware setting.is_word setting.to_lower setting.uuid setting.new_request_id
          setting.new_correlation_id setting.process_time (λ ids. (app ids s).result) request)
        (app (ids_for request) s)

  abbrev pub unavailable : Response B
  unavailable =
      setting.json_response 503
        (without_instance (problem_base ++ codes "service-unavailable") "Service Unavailable" 503
          "Server is shutting down")
        [] "application/problem+json"

  abbrev pub admitted : (Server → Passed B) → Bool × Server → Passed B
  admitted app (false, s) = record {
    result = ok unavailable;
    ids = none;
    view_rate_limit = none;
    server = s;
    log = [];
  }
  admitted app (true, s) = let p = app s in record p { server = leave p.server }

  unfoldable pub shutdown_middleware : Request → (Server → Passed B) → Server → Passed B
  unfolding enter leave
  shutdown_middleware request app s = admitted app (enter request.path s)

-- a middleware that changes the headers of the response, if there is one
abbrev changed :
    {B : Type 0} → (List Header → List Header) → Result (Response B) → Result (Response B)
changed f (err e) = err e
changed f (ok r) = ok (record r { headers = f r.headers })

abbrev pub with_headers : {B : Type 0} → (List Header → List Header) → Passed B → Passed B
with_headers f p = record p { result = changed f p.result }

abbrev correlation_of : Option Ids → Option (List ℕ)
correlation_of none = none
correlation_of (some ids) = some ids.correlation_id

module _ {D B : Type 0} (setting : Setting D B) where
  -- `app.add_exception_handler(Exception, internal_error_handler)`
  abbrev pub server_error : Option Ids → Result (Response B) → Response B
  server_error ids (ok r) = r
  server_error ids (err e) = response_of setting (internal_error_handler (correlation_of ids)) []

  -- what the outermost of the app's own middlewares gives back
  unfoldable pub passed_by : (Ids → Server → Visit D B) → Request → Server → Passed B
  unfolding logging_middleware shutdown_middleware rate_limit_headers_middleware
      security_headers_middleware
  passed_by routes request s =
      let p =
        shutdown_middleware setting request
          (logging_middleware setting request (inner setting routes)) s in
      let limited = with_headers (rate_limit_headers_middleware p.view_rate_limit setting.now) p in
      with_headers security_headers_middleware limited

  unfoldable pub app :
      (Ids → Server → Visit D B) → Request → Server → Response B × Server × List Entry
  unfolding passed_by
  app routes request s =
      let p = passed_by routes request s in (server_error p.ids p.result, p.server, p.log)
