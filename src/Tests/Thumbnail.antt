-- ===== src/Tests/Thumbnail.antt =====
-- The guards of a download, at an address that redirects once.
use image_descriptor.Prelude.{
  ℕ, zero, suc, ◌-◌, arith, ◌≤◌, refl, String, true, false, Option, none, some, List, [], ◌∷◌, All,
  length, if◌then◌else◌,
}
use image_descriptor.Prelude.Text.{str_eq}
use image_descriptor.Errors.{Result, ok}
use image_descriptor.Thumbnail.{
  Ip, Response, redirects, answers, absent, image_of, download_image, attempts, requests,
  is_blocked_ip, validate_host_ips, validate_thumbnail_url, read_chunks,
}
use image_descriptor.Thumbnail.Guard.{IsPublic, image_of-IsPublic, image_of-le}

abbrev outside : Ip
outside = record {
  is_private = false;
  is_loopback = false;
  is_link_local = false;
  is_reserved = false;
  is_multicast = false;
}

abbrev hostname : String → Option String
hostname url = if str_eq url "http://local/" then some "local" else some "example.com"

abbrev resolve : String → Option (List Ip)
resolve host =
    if str_eq host "local"
    then some (record outside { is_private = true } ∷ [])
    else some (outside ∷ [])

-- three attempts
abbrev thrice : ℕ → (ℕ → Result (List ℕ)) → ℕ
thrice n outcomes = n - 1

-- one redirect, and three bytes; the first attempt goes astray
abbrev respond : ℕ → String → Response
respond zero url = redirects "http://example.com/c"
respond (suc n) url =
    if str_eq url "http://example.com/b"
    then answers (ok tt) absent ((1 ∷ 2 ∷ []) ∷ (3 ∷ []) ∷ [])
    else redirects "http://example.com/b"

abbrev to_local : ℕ → String → Response
to_local n url = redirects "http://local/"

abbrev no_comma : String → Option String
no_comma uri = none

abbrev nothing : String → Result (List ℕ)
nothing text = ok []

image_of-IsPublic_example :
    let urls =
      (image_of hostname resolve 10 thrice to_local no_comma nothing 3 "http://example.com/a").1 in
    All (IsPublic hostname resolve) urls × (length urls ≤ 12)
image_of-IsPublic_example =
    image_of-IsPublic hostname resolve 10 thrice to_local no_comma nothing 3 "http://example.com/a"
      (λ n outcomes h. omega (arith, h))

abbrev image : List ℕ
image = 1 ∷ 2 ∷ 3 ∷ []

image_of-le_example : length image ≤ 10
unfolding image_of download_image attempts requests validate_thumbnail_url validate_host_ips
    is_blocked_ip read_chunks
image_of-le_example =
    image_of-le hostname resolve 10 thrice respond no_comma nothing 3 "http://example.com/a"
      (1 ∷ 2 ∷ 3 ∷ []) refl refl refl
