-- ===== src/Server/Stack/Kept.antt =====
-- The headers that the two outer middlewares set, and those that they leave alone.
use image_descriptor.Prelude.{ℕ, ◌≡◌, ◌∙◌, refl, String, false, none, some, List}
use image_descriptor.Prelude.Text.{codes, str_eq}
use image_descriptor.Server.Headers.{
  header, set_header, header-set_header, header-set_header_ne, security_headers_middleware,
}
use image_descriptor.Server.RateLimit.{Header, rate_limit_headers_middleware}
use image_descriptor.Server.Stack.{View}

abbrev pub IsSecured : List Header → Type 0
IsSecured headers =
    (header "x-content-type-options" headers ≡ some (codes "nosniff"))
    × (header "x-frame-options" headers ≡ some (codes "DENY"))
    × (header "referrer-policy" headers ≡ some (codes "strict-origin-when-cross-origin"))
    × (header "strict-transport-security" headers
        ≡ some (codes "max-age=31536000; includeSubDomains"))

pub security_headers_middleware-IsSecured :
    (headers : List Header) → IsSecured (security_headers_middleware headers)
unfolding security_headers_middleware
security_headers_middleware-IsSecured headers =
    let one = set_header "x-content-type-options" (codes "nosniff") headers in
    let two = set_header "x-frame-options" (codes "DENY") one in
    let three = set_header "referrer-policy" (codes "strict-origin-when-cross-origin") two in
    let age = codes "max-age=31536000; includeSubDomains" in
    (
      header-set_header_ne "x-content-type-options" "strict-transport-security" age three refl
          ∙ header-set_header_ne "x-content-type-options" "referrer-policy" _ two refl
          ∙ header-set_header_ne "x-content-type-options" "x-frame-options" _ one refl
          ∙ header-set_header "x-content-type-options" _ headers,
      header-set_header_ne "x-frame-options" "strict-transport-security" age three refl
          ∙ header-set_header_ne "x-frame-options" "referrer-policy" _ two refl
          ∙ header-set_header "x-frame-options" _ one,
      header-set_header_ne "referrer-policy" "strict-transport-security" age three refl
          ∙ header-set_header "referrer-policy" _ two,
      header-set_header "strict-transport-security" age three,
    )

-- A name that neither of the two outer middlewares sets.
pub record IsInner (name : String) : Type 0 where
  pub limit : str_eq "x-ratelimit-limit" name ≡ false
  pub remaining : str_eq "x-ratelimit-remaining" name ≡ false
  pub reset : str_eq "x-ratelimit-reset" name ≡ false
  pub options : str_eq "x-content-type-options" name ≡ false
  pub frame : str_eq "x-frame-options" name ≡ false
  pub referrer : str_eq "referrer-policy" name ≡ false
  pub transport : str_eq "strict-transport-security" name ≡ false

pub request_id-IsInner : IsInner "x-request-id"
request_id-IsInner = record {
  limit = refl;
  remaining = refl;
  reset = refl;
  options = refl;
  frame = refl;
  referrer = refl;
  transport = refl;
}

pub correlation_id-IsInner : IsInner "x-correlation-id"
correlation_id-IsInner = record {
  limit = refl;
  remaining = refl;
  reset = refl;
  options = refl;
  frame = refl;
  referrer = refl;
  transport = refl;
}

module _ (name : String) (is_inner : IsInner name) where
  header-security_headers_middleware :
      (headers : List Header)
      → header name (security_headers_middleware headers) ≡ header name headers
  unfolding security_headers_middleware
  header-security_headers_middleware headers =
      header-set_header_ne name "strict-transport-security" _ _ is_inner.transport
      ∙ header-set_header_ne name "referrer-policy" _ _ is_inner.referrer
      ∙ header-set_header_ne name "x-frame-options" _ _ is_inner.frame
      ∙ header-set_header_ne name "x-content-type-options" _ headers is_inner.options

  header-rate_limit_headers_middleware :
      (view : View) (now : ℕ) (headers : List Header)
      → header name (rate_limit_headers_middleware view now headers) ≡ header name headers
  unfolding rate_limit_headers_middleware
  header-rate_limit_headers_middleware none now headers = refl
  header-rate_limit_headers_middleware (some (n, none)) now headers = refl
  header-rate_limit_headers_middleware (some (n, some (reset_at, remaining))) now headers =
      header-set_header_ne name "x-ratelimit-reset" _ _ is_inner.reset
      ∙ header-set_header_ne name "x-ratelimit-remaining" _ _ is_inner.remaining
      ∙ header-set_header_ne name "x-ratelimit-limit" _ headers is_inner.limit

  pub header-outer :
      (view : View) (now : ℕ) (headers : List Header)
      → header name (security_headers_middleware (rate_limit_headers_middleware view now headers))
        ≡ header name headers
  header-outer view now headers =
      header-security_headers_middleware (rate_limit_headers_middleware view now headers)
      ∙ header-rate_limit_headers_middleware view now headers
