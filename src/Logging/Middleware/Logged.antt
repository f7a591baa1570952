-- ===== src/Logging/Middleware/Logged.antt =====
-- What the middleware puts in the log and in the response.
use image_descriptor.Prelude.{
  ℕ, ◌≡◌, ◌∙◌, ◌⊎◌, inl, inr, refl, String, Bool, true, false, Option, some, none, List, [], ◌∷◌,
  ◌++◌, arith, All, All-append, count_if, leb, or_else, if◌then◌else◌, Bool-cases,
}
use image_descriptor.Errors.{Result, ok, err}
use image_descriptor.Server.{is_system}
use image_descriptor.Server.Headers.{header, set_header, header-set_header, header-set_header_ne}
use image_descriptor.Logging.Middleware.{
  Headers, is_request_id, sanitize_request_id, is_sensitive, redacted, safe_headers,
  sanitize_correlation_id, info, warning, Entry, started, finished, Request, Response, Ids, ids_of,
  start_entries, finish_entries, ended, request_id_middleware,
}

abbrev pub is_warning : Entry → Bool
is_warning (started method path query headers) = false
is_warning (finished info method path status_code) = false
is_warning (finished warning method path status_code) = true

module _ (is_word : ℕ → Bool) (to_lower : String → String) (uuid : List ℕ → Option (List ℕ)) where
  -- A header that is logged is not a sensitive one, or has no value left.
  abbrev pub IsHidden : String × List ℕ → Type 0
  IsHidden (k, v) = (is_sensitive (to_lower k) ≡ false) ⊎ (v ≡ redacted)

  abbrev pub IsSafe : Entry → Type 0
  IsSafe (started method path query headers) = All IsHidden headers
  IsSafe (finished level method path status_code) = Unit

  safe_headers-IsHidden : (headers : Headers) → All IsHidden (safe_headers to_lower headers)
  unfolding safe_headers
  safe_headers-IsHidden [] = tt
  safe_headers-IsHidden ((k, v) ∷ headers) = (
    elim (Bool-cases (is_sensitive (to_lower k))) [
      | inl secret ↦ inr (rw secret refl)
      | inr plain ↦ inl plain
    ],
    safe_headers-IsHidden headers,
  )

  start-IsSafe : (request : Request) → All IsSafe (start_entries is_word to_lower uuid request)
  start-IsSafe request = elim (Bool-cases (is_system request.path)) [
    | inl system ↦ rw system tt
    | inr user ↦ rw user (safe_headers-IsHidden request.headers, tt)
  ]

  finish-IsSafe :
      (request : Request) (status_code : ℕ)
      → All IsSafe (finish_entries is_word to_lower uuid request status_code)
  finish-IsSafe request status_code = ground arith

  -- The exception of `call_next`, or its response with the two ids, and a warning exactly where that is
  -- an error.
  abbrev pub IsAnswered :
      {B : Type 0} → Ids → Result (Response B) → Result (Response B) × List Entry → Type 0
  IsAnswered ids called (err e, entries) = called ≡ err e
  IsAnswered ids called (ok response, entries) =
      (header "x-request-id" response.headers ≡ some ids.request_id)
      × (header "x-correlation-id" response.headers ≡ some ids.correlation_id)
      × (count_if is_warning entries ≡ (if leb 400 response.status_code then 1 else 0))

  ended-IsSafe :
      {B : Type 0} (request : Request) (ids : Ids) (process_time : List ℕ)
      (called : Result (Response B))
      → All IsSafe (ended is_word to_lower uuid request ids process_time called).1
  ended-IsSafe request ids process_time (err e) = start-IsSafe request
  ended-IsSafe request ids process_time (ok response) =
      All-append IsSafe (start_entries is_word to_lower uuid request)
        (finish_entries is_word to_lower uuid request response.status_code) (start-IsSafe request)
        (finish-IsSafe request response.status_code)

  warnings :
      (request : Request) (status_code : ℕ)
      → count_if is_warning (
          start_entries is_word to_lower uuid request
          ++ finish_entries is_word to_lower uuid request status_code)
        ≡ (if leb 400 status_code then 1 else 0)
  warnings request status_code = ground arith

  ended-IsAnswered :
      {B : Type 0} (request : Request) (ids : Ids) (process_time : List ℕ)
      (called : Result (Response B))
      → IsAnswered ids called (ended is_word to_lower uuid request ids process_time called)
  ended-IsAnswered request ids process_time (err e) = refl
  ended-IsAnswered request ids process_time (ok response) =
      let first = set_header "x-request-id" ids.request_id response.headers in
      let second = set_header "x-correlation-id" ids.correlation_id first in
      (
        header-set_header_ne "x-request-id" "x-process-time" process_time second refl
            ∙ header-set_header_ne "x-request-id" "x-correlation-id" ids.correlation_id first refl
            ∙ header-set_header "x-request-id" ids.request_id response.headers,
        header-set_header_ne "x-correlation-id" "x-process-time" process_time second refl
            ∙ header-set_header "x-correlation-id" ids.correlation_id first,
        warnings request response.status_code,
      )

  -- The id of a request is that of the client's header, if there is one and it is well formed, and
  -- otherwise the new one.
  abbrev pub IsOwn : Option (List ℕ) → List ℕ → List ℕ → Type 0
  IsOwn none new_request_id request_id = request_id ≡ new_request_id
  IsOwn (some value) new_request_id request_id =
      ((is_request_id is_word value ≡ true) × (request_id ≡ value))
      ⊎ ((is_request_id is_word value ≡ false) × (request_id ≡ new_request_id))

  sanitized-IsOwn :
      (o : Option (List ℕ)) (new_request_id : List ℕ)
      → IsOwn o new_request_id (or_else (sanitize_request_id is_word o) new_request_id)
  unfolding sanitize_request_id
  sanitized-IsOwn none new_request_id = refl
  sanitized-IsOwn (some value) new_request_id = elim (Bool-cases (is_request_id is_word value)) [
    | inl good ↦ inl (good, rw good refl)
    | inr bad ↦ inr (bad, rw bad refl)
  ]

  -- The same of the correlation id, where `uuid` gives the client's its usual form, or refuses it; one
  -- that is empty counts as missing.
  abbrev pub IsCorrelated : Option (List ℕ) → List ℕ → List ℕ → Type 0
  IsCorrelated none new_correlation_id correlation_id = correlation_id ≡ new_correlation_id
  IsCorrelated (some []) new_correlation_id correlation_id = correlation_id ≡ new_correlation_id
  IsCorrelated (some (c ∷ cs)) new_correlation_id correlation_id =
      (uuid (c ∷ cs) ≡ some correlation_id)
      ⊎ ((uuid (c ∷ cs) ≡ none) × (correlation_id ≡ new_correlation_id))

  chosen :
      (o : Option (List ℕ)) (new_correlation_id : List ℕ)
      → (o ≡ some (or_else o new_correlation_id))
        ⊎ ((o ≡ none) × (or_else o new_correlation_id ≡ new_correlation_id))
  chosen none new_correlation_id = inr (refl, refl)
  chosen (some value) new_correlation_id = inl refl

  sanitized-IsCorrelated :
      (o : Option (List ℕ)) (new_correlation_id : List ℕ)
      → IsCorrelated o new_correlation_id
          (or_else (sanitize_correlation_id uuid o) new_correlation_id)
  unfolding sanitize_correlation_id
  sanitized-IsCorrelated none new_correlation_id = refl
  sanitized-IsCorrelated (some []) new_correlation_id = refl
  sanitized-IsCorrelated (some (c ∷ cs)) new_correlation_id =
      chosen (uuid (c ∷ cs)) new_correlation_id

  -- Whatever the request and its outcome, no entry of the log holds the value of a sensitive header; the
  -- request id is the client's, if there is one and it is well formed, and otherwise the new one; the
  -- correlation id is the client's in the form of a UUID, if it is one, and otherwise the new one; and
  -- where there is a response, it carries the two ids of the request, and one warning is logged if its
  -- status is an error, also for a path that is else not logged, and none if it is not.
  pub request_id_middleware-IsSafe :
      {B : Type 0} (new_request_id new_correlation_id process_time : List ℕ)
      (call_next : Ids → Result (Response B)) (request : Request)
      → let ids = ids_of is_word to_lower uuid new_request_id new_correlation_id request.headers in
        let answer =
          request_id_middleware is_word to_lower uuid new_request_id new_correlation_id process_time
            call_next request in
        All IsSafe answer.1
        × IsAnswered ids (call_next ids) answer
        × IsOwn (header "x-request-id" request.headers) new_request_id ids.request_id
        × IsCorrelated
            (header "x-correlation-id" request.headers)
            new_correlation_id
            ids.correlation_id
  unfolding request_id_middleware
  request_id_middleware-IsSafe new_request_id new_correlation_id process_time call_next request =
      let ids = ids_of is_word to_lower uuid new_request_id new_correlation_id request.headers in
      (
        ended-IsSafe request ids process_time (call_next ids),
        ended-IsAnswered request ids process_time (call_next ids),
        unfold ids_of in sanitized-IsOwn (header "x-request-id" request.headers) new_request_id,
        unfold ids_of in
            sanitized-IsCorrelated (header "x-correlation-id" request.headers) new_correlation_id,
      )
