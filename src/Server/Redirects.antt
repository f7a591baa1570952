-- ===== src/Server/Redirects.antt =====
-- Where the redirect of legacy paths leads.
use image_descriptor.Prelude.{ℕ, zero, suc, ◌≡◌, refl, String, Bool, false, none}
use image_descriptor.Server.{redirect_path, follow}

-- a path after n redirects
unfoldable pub redirected : ℕ → String → String
unfolding redirect_path
redirected zero path = path
redirected (suc n) path = redirected n (redirect_path path)

-- A path under /api/ that no route answers, with v1 in front of it any number of times, is redirected
-- for ever: it is never answered by 404.
pub follow_unrouted :
    (n : ℕ) (is_routed : String → Bool) (path : String)
    → ((k : ℕ) → is_routed (redirected k path) ≡ false)
    → follow n is_routed path ≡ none
unfolding follow redirected
follow_unrouted zero is_routed path h = refl
follow_unrouted (suc n) is_routed path h =
    rw (h 0) (follow_unrouted n is_routed (redirect_path path) (λ k. h (suc k)))
