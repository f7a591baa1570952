-- ===== src/Logging/Middleware.antt =====
-- app/utils/logging.py: the ids of a request, the headers that are logged, and `request_id_middleware`.
--
-- `is_word` is the class `\w` of re, `to_lower` is `str.lower`, `uuid` is `str(uuid.UUID(value))`, with
-- none where the value is refused. Names are texts and values lists of code points. The times that
-- are measured are left out of the log's entries.
pub mod Logged
use image_descriptor.Prelude.{
  ℕ, zero, suc, String, Bool, true, false, ◌&&◌, ◌||◌, Option, none, some, List, [], ◌∷◌, ◌++◌, map,
  leb, ◌==◌, or_else, if◌then◌else◌,
}
use image_descriptor.Prelude.Text.{codes, str_eq}
use image_descriptor.Errors.{Error, Result, ok, err}
use image_descriptor.Server.{is_system}
use image_descriptor.Server.Headers.{header, set_header}
use image_descriptor.Logging.Query.{safe_query_params}
use image_descriptor.Logging.Trace.{TraceContext, parse_traceparent}

abbrev pub Headers : Type 0
Headers = List (String × List ℕ)

abbrev at_end : List ℕ → Bool
at_end [] = true
at_end (c ∷ []) = c == 10
at_end (c ∷ d ∷ cs) = false

module _ (is_word : ℕ → Bool) where
  abbrev pub is_id_char : ℕ → Bool
  is_id_char c = is_word c || c == b'-'

  -- at most n more characters of an id, and `$`
  unfoldable pub id_tail : ℕ → List ℕ → Bool
  id_tail zero cs = at_end cs
  id_tail (suc n) [] = true
  id_tail (suc n) (c ∷ cs) =
      let rest = id_tail n cs in if is_id_char c then rest else at_end (c ∷ cs)

  -- `^[\w\-]{1,128}$`
  unfoldable pub is_request_id : List ℕ → Bool
  unfolding id_tail
  is_request_id [] = false
  is_request_id (c ∷ cs) = is_id_char c && id_tail 127 cs

  unfoldable pub sanitize_request_id : Option (List ℕ) → Option (List ℕ)
  unfolding is_request_id
  sanitize_request_id none = none
  sanitize_request_id (some value) = if is_request_id value then some value else none

abbrev pub is_sensitive : String → Bool
is_sensitive name =
    str_eq name "authorization"
    || str_eq name "x-api-key"
    || str_eq name "cookie"
    || str_eq name "set-cookie"

abbrev pub redacted : List ℕ
redacted = codes "[REDACTED]"

unfoldable pub safe_headers : (String → String) → Headers → Headers
safe_headers to_lower [] = []
safe_headers to_lower ((k, v) ∷ headers) =
    (k, if is_sensitive (to_lower k) then redacted else v) ∷ safe_headers to_lower headers

unfoldable pub sanitize_correlation_id :
    (List ℕ → Option (List ℕ)) → Option (List ℕ) → Option (List ℕ)
sanitize_correlation_id uuid none = none
sanitize_correlation_id uuid (some []) = none
sanitize_correlation_id uuid (some (c ∷ cs)) = uuid (c ∷ cs)

pub data Level : Type 0 where
  info warning : Level

-- `request_started` and `request_finished`
pub data Entry : Type 0 where
  started : String → String → List ℕ → Headers → Entry
  finished : Level → String → String → ℕ → Entry

pub record Request : Type 0 where
  pub method : String
  pub path : String
  pub query : List ℕ
  pub headers : Headers

pub record Response (B : Type 0) : Type 0 where
  pub status_code : ℕ
  pub headers : Headers
  pub body : B

-- `request.state` and the context that is bound to the log
pub record Ids : Type 0 where
  pub request_id : List ℕ
  pub correlation_id : List ℕ
  pub trace_context : Option TraceContext

module _ (is_word : ℕ → Bool) (to_lower : String → String) (uuid : List ℕ → Option (List ℕ)) where
  -- the two new ids are there to be used
  unfoldable pub ids_of : List ℕ → List ℕ → Headers → Ids
  unfolding sanitize_request_id sanitize_correlation_id header parse_traceparent
  ids_of new_request_id new_correlation_id headers = record {
    request_id =
        or_else (sanitize_request_id is_word (header "x-request-id" headers)) new_request_id;
    correlation_id =
        or_else (sanitize_correlation_id uuid (header "x-correlation-id" headers))
          new_correlation_id;
    trace_context = parse_traceparent (header "traceparent" headers);
  }

  abbrev pub start_entries : Request → List Entry
  start_entries request =
      if is_system request.path
      then []
      else started request.method request.path (safe_query_params request.query)
          (safe_headers to_lower request.headers)
        ∷ []

  abbrev pub finish_entries : Request → ℕ → List Entry
  finish_entries request status_code =
      if is_system request.path
      then (if leb 400 status_code
          then finished warning request.method request.path status_code ∷ []
          else [])
      else finished (if leb 400 status_code then warning else info) request.method request.path
          status_code
        ∷ []

  -- `response.headers[…] = …`
  abbrev pub with_ids : {B : Type 0} → Ids → List ℕ → Response B → Response B
  with_ids ids process_time response = record response {
    headers = set_header "x-process-time" process_time (
        set_header "x-correlation-id" ids.correlation_id
          (set_header "x-request-id" ids.request_id response.headers));
  }

  abbrev pub ended :
      {B : Type 0} → Request → Ids → List ℕ → Result (Response B) → Result (Response B) × List Entry
  ended request ids process_time (err e) = (err e, start_entries request)
  ended request ids process_time (ok response) = (
    ok (with_ids ids process_time response),
    start_entries request ++ finish_entries request response.status_code,
  )

  -- The response, and the entries of the log; an exception of `call_next` goes on.
  unfoldable pub request_id_middleware :
      {B : Type 0}
      → List ℕ
      → List ℕ
      → List ℕ
      → (Ids → Result (Response B))
      → Request
      → Result (Response B) × List Entry
  unfolding ids_of
  request_id_middleware new_request_id new_correlation_id process_time call_next request =
      let ids = ids_of new_request_id new_correlation_id request.headers in
      ended request ids process_time (call_next ids)
