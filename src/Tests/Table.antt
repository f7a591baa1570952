-- ===== src/Tests/Table.antt =====
-- Requests with and without a key, and the routes that they find.
use image_descriptor.Prelude.{ℕ, suc, Bool, ◌≡◌, refl, String, Option, none, some, [], ◌∷◌}
use image_descriptor.Prelude.Text.{is_truthy, str_eq}
use mathlib.Core.List.{Memᴰ}
use image_descriptor.Errors.{Result, ok}
use image_descriptor.Auth.{Jwks, Outside, authenticate, get_jwks}
use image_descriptor.Server.RateLimit.{Exceeded}
use image_descriptor.Routes.Table.{
  get, post, delete, Endpoint, to_route, to_redirect, fits_path, find_route, route, batch_route,
}
use image_descriptor.Routes.Table.Unique.{route-takes}
use image_descriptor.Routes.Serve.{Request, Process, serve}
use image_descriptor.Routes.Serve.Guarded.{auth, IsAllowed, serve-IsAllowed}

route-takes_example : route post ("api" ∷ "v1" ∷ "describe" ∷ "batch" ∷ []) ≡ to_route batch_route
unfolding fits_path
route-takes_example =
    route-takes post ("describe" ∷ "batch" ∷ []) batch_route
      (Memᴰ.tail (Memᴰ.tail (Memᴰ.tail (Memᴰ.tail (Memᴰ.tail (Memᴰ.tail (Memᴰ.head refl))))))) refl

-- by another method than its own, a path is taken for a legacy one
redirected : route get ("api" ∷ "v1" ∷ "describe" ∷ []) ≡ to_redirect "v1" ("describe" ∷ [])
unfolding route find_route fits_path
redirected = refl

-- a limiter that counts, and endpoints that count what they are asked for
abbrev limited : String → ℕ → Option Exceeded × ℕ
limited name counts = (none, suc counts)

abbrev run : Endpoint → ℕ → Result String × ℕ
run endpoint n = (ok "done", suc n)

abbrev digest : String → String → Result Bool
digest a b = ok (str_eq a b)

abbrev decode : String → String → Result (Option String)
decode token keys = ok none

abbrev no_keys : Jwks String
no_keys = record { keys = none; fetched_at = 0 }

abbrev outside : Outside is_truthy 3600000000
outside = record { now = 1; later = 2; under_lock = no_keys; fetch = ok (some "keys") }

abbrev process : Process ℕ ℕ String
process = record { app = 0; counts = 0; keys = no_keys }

abbrev removal : Option String → Request
removal api_key = record {
  method = delete;
  path = "api" ∷ "v1" ∷ "descriptions" ∷ "id-1" ∷ [];
  api_key = api_key;
  credentials = none;
}

serve-IsAllowed_example :
    IsAllowed limited run is_truthy 3600000000 digest decode "secret" outside
      (removal (some "secret"))
      process
      (serve limited run
        (auth limited run is_truthy 3600000000 digest decode "secret" outside)
        (removal (some "secret"))
        process)
serve-IsAllowed_example =
    serve-IsAllowed limited run is_truthy 3600000000 digest decode "secret" outside
      (removal (some "secret")) process

abbrev served : Option String → ℕ × ℕ
unfolding serve
served api_key =
    let (answer, p) =
      serve limited run (auth limited run is_truthy 3600000000 digest decode "secret" outside)
        (removal api_key) process in
    (p.app, p.counts)

only_with_key : (served (some "secret") ≡ (1, 1)) × (served (some "guess") ≡ (0, 0))
unfolding serve authenticate get_jwks route find_route fits_path
only_with_key = (refl, refl)
