-- ===== src/Server/RateLimit.antt =====
-- The rate limit: app/utils/rate_limit.py (the client that a request counts for), and of app/main.py
-- the reply to a request over the limit and `rate_limit_headers_middleware`.
--
-- Times count microseconds. Header values and client addresses are lists of code points. The limiter is
-- slowapi's: what it says of a request is an argument.
pub mod Keys
pub mod Waits
use image_descriptor.Prelude.{
  ℕ, ◌+◌, ◌-◌, ◌*◌, ◌/◌, String, Bool, true, false, Option, none, some, List, [], ◌∷◌, ◌++◌, map,
  leb, ltb, ◌==◌, if◌then◌else◌, or_else,
}
use image_descriptor.Prelude.Text.{codes}
use image_descriptor.Prelude.Blank.{strip}
use image_descriptor.Prelude.Decimal.{show}
use image_descriptor.Server.Headers.{set_header}
use image_descriptor.Problems.{Reply, problem, problem_base, no_errors}

abbrev pub second : ℕ
second = 1000000

-- `forwarded.split(",")[0]`
unfoldable pub first_part : List ℕ → List ℕ
first_part [] = []
first_part (c ∷ cs) = if c == b',' then [] else c ∷ first_part cs

-- `forwarded` is the X-Forwarded-For header, and `host` the address of the connection, if there is any.
unfoldable pub get_real_ip : Option (List ℕ) → Option (List ℕ) → List ℕ
unfolding first_part strip
get_real_ip (some (c ∷ cs)) host = strip (first_part (c ∷ cs))
get_real_ip (some []) host = or_else host (codes "127.0.0.1")
get_real_ip none host = or_else host (codes "127.0.0.1")

-- `getattr(exc, "retry_after", 60)`: none set, a moment, or a number of microseconds
pub data RetryAfter : Type 0 where
  unset : RetryAfter
  moment : ℕ → RetryAfter
  amount : ℕ → RetryAfter

-- `max(a, b)`
abbrev pub max_of : ℕ → ℕ → ℕ
max_of a b = if leb a b then b else a

-- `int` of a moment in the past is 0 or less, which `max(1, …)` lifts as it does 0.
unfoldable pub retry_after : RetryAfter → ℕ → ℕ
retry_after unset now = 60
retry_after (moment t) now = max_of 1 ((t - now) / second)
retry_after (amount n) now = n / second

-- a `RateLimitExceeded`: the wait, the amount of the limit and its text
pub record Exceeded : Type 0 where
  pub wait : RetryAfter
  pub limit : Option ℕ
  pub detail : Option String

abbrev pub Header : Type 0
Header = String × List ℕ

abbrev limit_headers : ℕ → Option ℕ → List Header
limit_headers wait none = []
limit_headers wait (some n) =
    ("X-RateLimit-Limit", codes (show n))
    ∷ ("X-RateLimit-Remaining", codes "0")
    ∷ ("X-RateLimit-Reset", codes (show wait))
    ∷ []

-- `_rate_limit_handler`, at the time `now`
unfoldable pub rate_limit_handler :
    {D : Type 0} → Option (List ℕ) → Exceeded → ℕ → Reply D × List Header
unfolding retry_after show
rate_limit_handler correlation_id e now = (
  problem (problem_base ++ codes "rate-limit-exceeded") "Rate Limit Exceeded" 429
      (or_else e.detail "요청 횟수 제한을 초과했습니다") no_errors correlation_id,
  ("Retry-After", codes (show (retry_after e.wait now)))
      ∷ limit_headers (retry_after e.wait now) e.limit,
)

-- `max(0, int(reset_at - time.time()) + 1)`; `int` cuts towards 0
unfoldable pub reset_in : ℕ → ℕ → ℕ
reset_in reset_at now =
    if leb now reset_at then (reset_at - now) / second + 1 else 1 - (now - reset_at) / second

-- what the limiter says of a request's window: its end, and how many requests are left
abbrev pub Window : Type 0
Window = ℕ × ℕ

-- `rate_limit_headers_middleware`, for the headers of the response, with their names in lower case.
-- `view_rate_limit` has the amount of the limit, and the window, which is missing where the limiter
-- raises one of the four exceptions that are caught.
unfoldable pub rate_limit_headers_middleware :
    Option (ℕ × Option Window) → ℕ → List Header → List Header
unfolding reset_in show set_header
rate_limit_headers_middleware none now headers = headers
rate_limit_headers_middleware (some (n, none)) now headers = headers
rate_limit_headers_middleware (some (n, some (reset_at, remaining))) now headers =
    set_header "x-ratelimit-reset" (codes (show (reset_in reset_at now))) (
      set_header "x-ratelimit-remaining" (codes (show remaining))
        (set_header "x-ratelimit-limit" (codes (show n)) headers))
