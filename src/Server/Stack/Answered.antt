-- ===== src/Server/Stack/Answered.antt =====
-- What every request gets back from the application.
use image_descriptor.Prelude.{
  ℕ, ◌≡◌, ◌∙◌, refl, inl, inr, String, Bool, true, false, not, ◌&&◌, ◌+◌, none, some, List, [], All,
  Bool-cases,
}
use image_descriptor.Prelude.Text.{str_eq}
use image_descriptor.Errors.{Result, ok, err}
use image_descriptor.Problems.{internal_error_handler}
use image_descriptor.Server.{Server, enter, leave, is_system}
use image_descriptor.Server.Headers.{
  header, set_header, header-set_header, header-set_header_ne, security_headers_middleware,
}
use image_descriptor.Server.RateLimit.{Header, rate_limit_headers_middleware}
use image_descriptor.Logging.Middleware.{
  Request, Response, Ids, Entry, ended, request_id_middleware,
}
use image_descriptor.Logging.Middleware.Logged.{IsSafe, request_id_middleware-IsSafe}
use image_descriptor.Server.Stack.{
  Content, Visit, Passed, Setting, inner, ids_for, response_of, logging_middleware,
  shutdown_middleware, passed_by, app, View, unavailable, server_error, changed,
}
use image_descriptor.Server.Stack.Kept.{
  IsSecured, security_headers_middleware-IsSecured, request_id-IsInner, correlation_id-IsInner,
  header-outer,
}

-- What is relied on of a JSONResponse: its status, and that it has no headers but those it is given and
-- the two on its content.
pub record IsJsonResponse {D B : Type 0}
    (json_response : ℕ → Content D → List Header → String → Response B) : Type 0 where
  pub status :
      (n : ℕ) (c : Content D) (headers : List Header) (media : String)
      → (json_response n c headers media).status_code ≡ n
  pub plain :
      (n : ℕ) (c : Content D) (media name : String)
      → str_eq "content-type" name ≡ false
      → str_eq "content-length" name ≡ false
      → header name (json_response n c [] media).headers ≡ none

abbrev pub Answer : Type 0 → Type 0
Answer B = Response B × Server × List Entry

-- The reply of a server that shuts down: it has no id, and nothing is logged or counted.
abbrev pub IsRefused : {B : Type 0} → Server → Answer B → Type 0
IsRefused s (r, s', log) =
    (r.status_code ≡ 503)
    × IsSecured r.headers
    × (header "x-request-id" r.headers ≡ none)
    × (s' ≡ s)
    × (log ≡ [])

module _ {D B : Type 0} where
  -- The reply for what the inner application gives: its response, or the document on an exception.
  abbrev pub IsReply : Setting D B → Ids → Result (Response B) → Response B → Type 0
  IsReply setting ids (ok r) reply =
      (reply.status_code ≡ r.status_code)
      × (reply.body ≡ r.body)
      × IsSecured reply.headers
      × (header "x-request-id" reply.headers ≡ some ids.request_id)
      × (header "x-correlation-id" reply.headers ≡ some ids.correlation_id)
  IsReply setting ids (err e) reply =
      (reply ≡ response_of setting (internal_error_handler (some ids.correlation_id)) [])
      × (reply.status_code ≡ 500)
      × (header "x-request-id" reply.headers ≡ none)
      × (header "x-frame-options" reply.headers ≡ none)

  abbrev pub IsServed : Setting D B → Ids → Passed B → Answer B → Type 0
  IsServed setting ids p (r, s', log) =
      IsReply setting ids p.result r
      × (s' ≡ leave p.server)
      × All (IsSafe setting.is_word setting.to_lower setting.uuid) log

  -- by whether the request is refused
  abbrev pub IsOutcome :
      Setting D B → (Ids → Server → Visit D B) → Request → Server → Bool → Answer B → Type 0
  IsOutcome setting routes request s true answer = IsRefused s answer
  IsOutcome setting routes request s false answer =
      let ids = ids_for setting request in
      IsServed setting ids (inner setting routes ids (enter request.path s).1) answer

module _ {D B : Type 0} (setting : Setting D B) (json : IsJsonResponse setting.json_response)
    (routes : Ids → Server → Visit D B) (request : Request) where
  refused :
      (s : Server)
      → (s.shutting_down && not (is_system request.path)) ≡ true
      → IsRefused s (app setting routes request s)
  unfolding app passed_by shutdown_middleware enter rate_limit_headers_middleware
      internal_error_handler
  refused s h =
      let headers = (unavailable setting).headers in
      rw h (
        json.status _ _ _ _,
        security_headers_middleware-IsSecured headers,
        header-outer "x-request-id" request_id-IsInner none 0 headers
            ∙ json.plain _ _ _ "x-request-id" refl refl,
        refl,
        refl,
      )

  -- the last word on what `call_next` has given to `logging_middleware`
  abbrev finished : Result (Response B) → View → Response B
  finished called view = server_error setting (some (ids_for setting request)) (
      changed security_headers_middleware (
        changed (rate_limit_headers_middleware view setting.now)
          (ended setting.is_word setting.to_lower setting.uuid request (ids_for setting request)
            setting.process_time called).0))

  finished-IsReply :
      (called : Result (Response B)) (view : View)
      → IsReply setting (ids_for setting request) called (finished called view)
  unfolding internal_error_handler
  finished-IsReply (err e) view = (
    refl,
    json.status _ _ _ _,
    json.plain _ _ _ "x-request-id" refl refl,
    json.plain _ _ _ "x-frame-options" refl refl,
  )
  finished-IsReply (ok r) view =
      let ids = ids_for setting request in
      let first = set_header "x-request-id" ids.request_id r.headers in
      let second = set_header "x-correlation-id" ids.correlation_id first in
      let third = set_header "x-process-time" setting.process_time second in
      (
        refl,
        refl,
        security_headers_middleware-IsSecured
            (rate_limit_headers_middleware view setting.now third),
        header-outer "x-request-id" request_id-IsInner view setting.now third
            ∙ header-set_header_ne "x-request-id" "x-process-time" _ second refl
            ∙ header-set_header_ne "x-request-id" "x-correlation-id" _ first refl
            ∙ header-set_header "x-request-id" _ r.headers,
        header-outer "x-correlation-id" correlation_id-IsInner view setting.now third
            ∙ header-set_header_ne "x-correlation-id" "x-process-time" _ second refl
            ∙ header-set_header "x-correlation-id" _ first,
      )

  served :
      (s : Server)
      → (s.shutting_down && not (is_system request.path)) ≡ false
      → IsServed setting
          (ids_for setting request)
          (inner setting routes (ids_for setting request) (enter request.path s).1)
          (app setting routes request s)
  unfolding app passed_by shutdown_middleware enter logging_middleware request_id_middleware
      internal_error_handler leave
  served s h =
      let ids = ids_for setting request in
      let p =
        inner setting routes ids (record s { in_flight = s.in_flight + 1; drained = false }) in
      rw h (
        finished-IsReply p.result p.view_rate_limit,
        refl,
        (request_id_middleware-IsSafe setting.is_word setting.to_lower setting.uuid
            setting.new_request_id setting.new_correlation_id setting.process_time (λ ids. p.result)
            request).0,
      )

  -- Where a JSONResponse has the status it is given, and no headers but those it is given and the two on
  -- its content: a request that comes while the server shuts down, for a path that is not a system
  -- path, gets a 503 with the security headers, but with no request id, and it is neither logged nor
  -- counted, whatever the routes would do. Any other request gets the response of the routes, behind
  -- the handlers of exceptions, with its status and body as they are, the security headers and the two
  -- ids of the request; but if the routes raise an exception that only the outermost handler takes,
  -- the reply is a 500 document that names the correlation id and has neither the request id nor the
  -- frame option among its headers. Either way the request is no longer counted, and what is
  -- logged holds no value of a sensitive header.
  pub app-IsOutcome :
      (s : Server)
      → IsOutcome setting routes request s
          (s.shutting_down && not (is_system request.path))
          (app setting routes request s)
  app-IsOutcome s = elim (Bool-cases (s.shutting_down && not (is_system request.path))) [
    | inl e ↦ rw e (refused s e)
    | inr e ↦ rw e (served s e)
  ]
