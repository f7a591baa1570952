-- ===== src/Tests/RateLimit.antt =====
-- A client behind a proxy, and the two waits that it is told.
use image_descriptor.Prelude.{◌+◌, ◌*◌, ◌≡◌, ◌≤◌, ◌<◌, refl, some, List, [], ◌∷◌, arith}
use image_descriptor.Prelude.Text.{codes}
use image_descriptor.Server.RateLimit.{
  second, moment, retry_after, reset_in, Header, rate_limit_headers_middleware,
}
use image_descriptor.Server.RateLimit.Waits.{reset_in-retry_after}

waits_differ :
    (reset_in 8500000 1000000 ≡ retry_after (moment 8500000) 1000000 + 1)
    × (1000000 + retry_after (moment 8500000) 1000000 * second ≤ 8500000)
    × (8500000 < 1000000 + reset_in 8500000 1000000 * second)
    × (1000000 + reset_in 8500000 1000000 * second ≤ 8500000 + second)
waits_differ = reset_in-retry_after 8500000 1000000 (omega arith)

limited : List Header
limited =
    ("x-ratelimit-limit", codes "30")
    ∷ ("x-ratelimit-remaining", codes "3")
    ∷ ("x-ratelimit-reset", codes "8")
    ∷ []

headers_injected :
    rate_limit_headers_middleware
      (some (30, some (8500000, 3)))
      1000000
      (("x-ratelimit-limit", codes "20") ∷ [])
    ≡ limited
unfolding rate_limit_headers_middleware limited
headers_injected = refl
