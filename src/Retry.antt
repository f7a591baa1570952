-- ===== src/Retry.antt =====
-- app/utils/retry.py: which errors of a request are worth another attempt. The attempts themselves are
-- tenacity's.
use image_descriptor.Prelude.{ℕ, Bool, true, false, ◌||◌, ◌==◌}

-- The exceptions of httpx and of Gemini's client that the two predicates tell apart.
pub data Raised : Type 0 where
  connect_error connect_timeout read_timeout write_timeout pool_timeout : Raised
  remote_protocol_error : Raised
  http_status_error : ℕ → Raised
  client_error : Raised
  other_error : Raised

-- `isinstance(exc, _TRANSIENT_EXCEPTIONS)`
unfoldable pub is_transient : Raised → Bool
is_transient connect_error = true
is_transient connect_timeout = true
is_transient read_timeout = true
is_transient write_timeout = true
is_transient pool_timeout = true
is_transient remote_protocol_error = true
is_transient (http_status_error status_code) = false
is_transient client_error = false
is_transient other_error = false

-- `status_code in _RETRYABLE_STATUS_CODES`
unfoldable pub is_retryable_status : ℕ → Bool
is_retryable_status n = n == 429 || n == 500 || n == 502 || n == 503 || n == 504

unfoldable pub is_retryable : Raised → Bool
unfolding is_transient is_retryable_status
is_retryable (http_status_error status_code) = is_retryable_status status_code
is_retryable exc = is_transient exc

unfoldable pub is_retryable_gemini : Raised → Bool
is_retryable_gemini client_error = false
is_retryable_gemini exc = true
