-- ===== src/Server/RateLimit/Waits.antt =====
-- How long the headers tell a client to wait.
use image_descriptor.Prelude.{ℕ, ◌+◌, ◌*◌, ◌≡◌, ◌≤◌, ◌<◌, arith}
use image_descriptor.Server.RateLimit.{second, moment, retry_after, reset_in}

-- For a window that ends at least a second from now, and an error that tells that end as a moment in its
-- retry_after: the Retry-After of the reply to a request over the limit is never later than the end, and
-- may be earlier, since it is cut to whole seconds; the X-RateLimit-Reset of the other replies is one
-- more, which is always past the end, by a second at most. Of an error that tells no retry_after, whose
-- Retry-After is 60, and of one that tells a number, nothing is said.
pub reset_in-retry_after :
    (reset_at now : ℕ)
    → now + second ≤ reset_at
    → (reset_in reset_at now ≡ retry_after (moment reset_at) now + 1)
      × (now + retry_after (moment reset_at) now * second ≤ reset_at)
      × (reset_at < now + reset_in reset_at now * second)
      × (now + reset_in reset_at now * second ≤ reset_at + second)
unfolding reset_in retry_after
reset_in-retry_after reset_at now h = ground arith
