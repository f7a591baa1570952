-- ===== src/Server.antt =====
-- app/main.py: the shutdown middleware, the drain at shutdown, and the redirect of legacy paths.
pub mod Drain
pub mod InFlight
pub mod Lifespan
pub mod Headers
pub mod RateLimit
pub mod Redirects
pub mod Stack
use image_descriptor.Prelude.{
  ℕ, zero, suc, ◌+◌, ◌-◌, String, Bool, true, false, not, ◌&&◌, ◌||◌, Option, none, some, List, [],
  ◌∷◌, ltb, ◌==◌, if◌then◌else◌,
}
use image_descriptor.Prelude.Text.{str_eq, join, is_truthy}

-- the globals `_shutting_down`, `_in_flight` and `_drain_event`
pub record Server : Type 0 where
  pub shutting_down : Bool
  pub in_flight : ℕ
  pub drained : Bool

-- as `lifespan` sets them
unfoldable pub started : Server
started = record { shutting_down = false; in_flight = 0; drained = true }

unfoldable pub handle_sigterm : Server → Server
handle_sigterm s = record s { shutting_down = true }

-- `_SKIP_LOG_PATHS` of app/utils/logging.py
abbrev pub system_paths : List String
system_paths =
    "/health" ∷ "/metrics" ∷ "/api/v1/health" ∷ "/api/v1/health/ready" ∷ "/api/v1/health/live"
    ∷ "/api/v1/cache/stats" ∷ "/api/health" ∷ "/api/health/ready" ∷ "/api/health/live"
    ∷ "/api/cache/stats" ∷ []

unfoldable pub is_one_of : String → List String → Bool
is_one_of s [] = false
is_one_of s (t ∷ ts) = str_eq s t || is_one_of s ts

unfoldable pub is_system : String → Bool
unfolding is_one_of
is_system path = is_one_of path system_paths

-- The middleware up to `call_next`: whether the request goes on, or is answered by 503.
unfoldable pub enter : String → Server → Bool × Server
enter path s =
    if s.shutting_down && not (is_system path)
    then (false, s)
    else (true, record s { in_flight = s.in_flight + 1; drained = false })

-- its `finally`; a request that is in flight has been counted, so the difference is exact
unfoldable pub leave : Server → Server
leave s =
    if s.in_flight - 1 == 0
    then record s { in_flight = s.in_flight - 1; drained = true }
    else record s { in_flight = s.in_flight - 1 }

-- The poll of `lifespan` for running batches. `active` gives the count that each poll reads, and the
-- result is the time waited; the fuel bounds the rounds.
unfoldable pub drain_batches : ℕ → (ℕ → ℕ) → ℕ → ℕ → ℕ → Option ℕ
drain_batches zero active poll_interval batch_timeout elapsed = none
drain_batches (suc fuel) active poll_interval batch_timeout elapsed =
    let rest = drain_batches fuel active poll_interval batch_timeout (elapsed + poll_interval) in
    if ltb 0 (active elapsed) && ltb elapsed batch_timeout then rest else some elapsed

-- `legacy_api_redirect`: the target of a request for /api/{path}, without the leading /api/
unfoldable pub redirect_path : String → String
redirect_path path = join "v1/" path

unfoldable pub legacy_api_redirect : String → String → String
unfolding redirect_path
legacy_api_redirect path query =
    let new_url = join "/api/" (redirect_path path) in
    if is_truthy query then join new_url (join "?" query) else new_url

-- A client that follows the redirects of a path under /api/ for some rounds: the path that a route of
-- the router answers, if it is reached. `is_routed` says which paths those are.
unfoldable pub follow : ℕ → (String → Bool) → String → Option String
unfolding redirect_path
follow zero is_routed path = none
follow (suc n) is_routed path =
    let next = follow n is_routed (redirect_path path) in if is_routed path then some path else next
