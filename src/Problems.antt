-- ===== src/Problems.antt =====
-- app/utils/errors.py, and the handlers that app/main.py registers: how an exception that reaches the
-- application becomes a problem document.
--
-- The type of a document is a list of code points. D stands for the details of an error. Error codes
-- are ASCII, so that lower case is that of ASCII.
pub mod Shape
use image_descriptor.Prelude.{
  ℕ, ◌+◌, String, Bool, ◌&&◌, Option, none, some, List, [], ◌∷◌, ◌++◌, map, leb, ◌==◌, length,
  if◌then◌else◌,
}
use image_descriptor.Prelude.Text.{codes, join}
use image_descriptor.Prelude.Decimal.{show}

-- an entry of the list that a validation error carries: `loc` has its parts as texts
pub record FieldError : Type 0 where
  pub loc : List String
  pub msg : String
  pub kind : String

pub record Field : Type 0 where
  pub field : String
  pub message : String
  pub kind : String

-- what `errors` holds, if anything
pub data Errors (D : Type 0) : Type 0 where
  no_errors : Errors D
  details : D → Errors D
  fields : List Field → Errors D

pub record ProblemDetail (D : Type 0) : Type 0 where
  pub kind : List ℕ
  pub title : String
  pub status : ℕ
  pub detail : String
  pub instance_id : Option (List ℕ)
  pub errors : Errors D

-- a `JSONResponse`
pub record Reply (D : Type 0) : Type 0 where
  pub status_code : ℕ
  pub content : ProblemDetail D
  pub media_type : String

-- the exceptions, by the handler that takes them
pub data Raised (D : Type 0) : Type 0 where
  descriptor_error : ℕ → String → String → Option D → Raised D
  http_exception : ℕ → String → Raised D
  request_validation_error : List FieldError → Raised D
  timeout_error : Raised D
  other : String → Raised D

-- `_STATUS_TITLES.get(status, "Error")`
unfoldable pub title_of : ℕ → String
title_of status =
    if status == 400
    then "Bad Request"
    else if status == 401
    then "Unauthorized"
    else if status == 403
    then "Forbidden"
    else if status == 404
    then "Not Found"
    else if status == 409
    then "Conflict"
    else if status == 422
    then "Unprocessable Entity"
    else if status == 429
    then "Too Many Requests"
    else if status == 500
    then "Internal Server Error"
    else if status == 503
    then "Service Unavailable"
    else if status == 504
    then "Gateway Timeout"
    else "Error"

-- `c.lower()`, and an underscore as a dash
unfoldable pub slug_char : ℕ → ℕ
slug_char c = if c == b'_' then b'-' else if leb b'A' c && leb c b'Z' then c + 32 else c

-- `exc.code.lower().replace("_", "-")`
abbrev pub slug : String → List ℕ
slug code = map slug_char (codes code)

abbrev pub problem_base : List ℕ
problem_base = codes "https://problems.cognito-descriptor.io/"

-- `".".join(loc)`
unfoldable pub dotted : List String → String
dotted [] = ""
dotted (s ∷ []) = s
dotted (s ∷ t ∷ loc) = join s (join "." (dotted (t ∷ loc)))

abbrev field_of : FieldError → Field
unfolding dotted
field_of e = record { field = dotted e.loc; message = e.msg; kind = e.kind }

module _ {D : Type 0} where
  -- `JSONResponse(status_code=…, content=…, media_type="application/problem+json")`
  abbrev pub problem : List ℕ → String → ℕ → String → Errors D → Option (List ℕ) → Reply D
  problem kind title status detail errors correlation_id = record {
    status_code = status;
    content = record {
      kind = kind;
      title = title;
      status = status;
      detail = detail;
      instance_id = correlation_id;
      errors = errors;
    };
    media_type = "application/problem+json";
  }

  abbrev errors_of : Option D → Errors D
  errors_of none = no_errors
  errors_of (some d) = details d

  unfoldable pub descriptor_error_handler :
      Option (List ℕ) → ℕ → String → String → Option D → Reply D
  unfolding title_of slug_char
  descriptor_error_handler correlation_id status_code code message d =
      problem (problem_base ++ slug code) (title_of status_code) status_code message (errors_of d)
        correlation_id

  unfoldable pub http_exception_handler : Option (List ℕ) → ℕ → String → Reply D
  unfolding title_of
  http_exception_handler correlation_id status_code detail =
      problem (codes "about:blank") (title_of status_code) status_code detail no_errors
        correlation_id

  unfoldable pub validation_error_handler : Option (List ℕ) → List FieldError → Reply D
  unfolding field_of show
  validation_error_handler correlation_id errors =
      problem (problem_base ++ codes "validation-error") "Unprocessable Entity" 422
        (join "요청 데이터 검증에 실패했습니다 (" (join (show (length errors)) "건의 오류)"))
        (fields (map field_of errors)) correlation_id

  unfoldable pub internal_error_handler : Option (List ℕ) → Reply D
  internal_error_handler correlation_id =
      problem (problem_base ++ codes "internal-error") "Internal Server Error" 500
        "서버 내부 오류가 발생했습니다" no_errors correlation_id

  unfoldable pub timeout_error_handler : Option (List ℕ) → Reply D
  timeout_error_handler correlation_id =
      problem (problem_base ++ codes "gateway-timeout") "Gateway Timeout" 504 "요청 처리 시간이 초과되었습니다"
        no_errors correlation_id

  -- `add_exception_handler`, for each class
  unfoldable pub handle : Option (List ℕ) → Raised D → Reply D
  unfolding descriptor_error_handler http_exception_handler validation_error_handler
      internal_error_handler timeout_error_handler
  handle correlation_id (descriptor_error status code message d) =
      descriptor_error_handler correlation_id status code message d
  handle correlation_id (http_exception status detail) =
      http_exception_handler correlation_id status detail
  handle correlation_id (request_validation_error errors) =
      validation_error_handler correlation_id errors
  handle correlation_id timeout_error = timeout_error_handler correlation_id
  handle correlation_id (other text) = internal_error_handler correlation_id
