-- ===== src/Server/RateLimit/Keys.antt =====
-- The client that a request counts for is the one that the request names.
use image_descriptor.Prelude.{ℕ, ◌≡◌, ◌≢◌, refl, ap, Option, some, List, [], ◌∷◌, ◌++◌, All, arith}
use image_descriptor.Prelude.Blank.{strip}
use image_descriptor.Server.RateLimit.{first_part, get_real_ip}

first_part-append :
    (name rest : List ℕ) → All (λ c. c ≢ b',') name → first_part (name ++ (b',' ∷ rest)) ≡ name
unfolding first_part
first_part-append [] rest h = refl
first_part-append (c ∷ name) rest (h, hs) = ground (arith, first_part-append name rest hs)

-- Whatever a proxy appends to the X-Forwarded-For header behind a comma, and whatever address the
-- connection has, a request counts for the name that its client put first in that header, with the
-- white space round it taken off.
pub get_real_ip-append :
    (name appended : List ℕ) (host : Option (List ℕ))
    → All (λ c. c ≢ b',') name
    → get_real_ip (some (name ++ (b',' ∷ appended))) host ≡ strip name
unfolding get_real_ip first_part
get_real_ip-append [] appended host h = refl
get_real_ip-append (c ∷ name) appended host (h, hs) =
    ap strip (first_part-append (c ∷ name) appended (h, hs))
