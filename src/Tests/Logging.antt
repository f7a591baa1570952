-- ===== src/Tests/Logging.antt =====
-- The theorems on what is logged of a request, and on the ids that it brings.
use image_descriptor.Prelude.{
  ℕ, ◌≡◌, String, Bool, Option, none, some, List, [], ◌∷◌, ◌++◌, All, arith, leb,
}
use image_descriptor.Prelude.Text.{codes}
use image_descriptor.Prelude.Blank.{is_space}
use image_descriptor.Errors.{Result, ok}
use image_descriptor.Server.Headers.{header}
use image_descriptor.Logging.Query.{safe_query_params}
use image_descriptor.Logging.Query.Redaction.{Param, query_string, hidden, safe_query_params_lem}
use image_descriptor.Logging.Trace.{TraceContext, parse_traceparent}
use image_descriptor.Logging.Trace.RoundTrip.{format_traceparent, parse-format_traceparent}
use image_descriptor.Logging.Middleware.{Request, Response, Ids, ids_of, request_id_middleware}
use image_descriptor.Logging.Middleware.Logged.{
  IsSafe, IsAnswered, IsOwn, IsCorrelated, request_id_middleware-IsSafe,
}

abbrev params : List Param
params = (codes "page", codes "2") ∷ (codes "my_Token", codes "s3cret") ∷ []

safe_query_params_lem_example :
    safe_query_params (query_string params) ≡ query_string (hidden params)
safe_query_params_lem_example = safe_query_params_lem params (ground arith)

abbrev is_word : ℕ → Bool
is_word c = leb b'0' c

abbrev to_lower : String → String
to_lower s = s

abbrev uuid : List ℕ → Option (List ℕ)
uuid value = none

abbrev request : Request
request = record {
  method = "POST";
  path = "/api/v1/describe";
  query = [];
  headers = ("x-api-key", codes "secret") ∷ ("x-request-id", codes "abc") ∷ [];
}

abbrev call_next : Ids → Result (Response String)
call_next ids = ok (record { status_code = 404; headers = []; body = "Not Found" })

request_id_middleware-IsSafe_example :
    let ids = ids_of is_word to_lower uuid (codes "n1") (codes "n2") request.headers in
    let answer =
      request_id_middleware is_word to_lower uuid
        (codes "n1")
        (codes "n2")
        (codes "0.01")
        call_next
        request in
    All (IsSafe is_word to_lower uuid) answer.1
    × IsAnswered is_word to_lower uuid ids (call_next ids) answer
    × IsOwn is_word to_lower uuid
        (header "x-request-id" request.headers)
        (codes "n1")
        ids.request_id
    × IsCorrelated is_word to_lower uuid
        (header "x-correlation-id" request.headers)
        (codes "n2")
        ids.correlation_id
request_id_middleware-IsSafe_example =
    request_id_middleware-IsSafe is_word to_lower uuid (codes "n1") (codes "n2") (codes "0.01")
      call_next request

abbrev context : TraceContext
context = record {
  trace_id = codes "0af7651916cd43dd8448eb211c80319c";
  span_id = codes "b7ad6b7169203331";
}

parse-format_traceparent_example :
    parse_traceparent
      (some (codes " " ++ (format_traceparent (codes "00") context (codes "01") ++ [])))
    ≡ some context
unfolding is_space
parse-format_traceparent_example =
    parse-format_traceparent (codes " ") (codes "00") (codes "01") [] context (ground arith)
      (ground arith) (ground arith) (ground arith) (ground arith) (ground arith)
