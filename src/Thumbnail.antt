-- ===== src/Thumbnail.antt =====
-- app/modules/describer.py: the download of a thumbnail, its checks against requests to private
-- addresses, and its bound on the bytes.
--
-- `hostname` is that of urllib's `urlparse`, `resolve` is `socket.getaddrinfo` (none where it fails),
-- and `respond` the answer of the HTTP client to a GET in one attempt of the download. How often the
-- decorator `retry_http` tries again is tenacity's: `retries` has, for the number that
-- `stop_after_attempt` is given and for the outcome of each attempt, how many more there are behind the
-- first. `decode` is `base64.b64decode`, and `after_comma` the part of a data URI after its first comma.
pub mod Guard
use image_descriptor.Prelude.{
  ℕ, zero, suc, ◌+◌, String, Bool, true, false, ◌&&◌, ◌||◌, Option, none, some, List, [], ◌∷◌, ◌++◌,
  length, ltb, if◌then◌else◌,
}
use image_descriptor.Prelude.Text.{is_truthy}
use text.Mathlib.Text.{starts_with}
use image_descriptor.Errors.{Error, ErrorClass, Result, ok, err, value_error, is_value_error}

-- what ipaddress tells of an address
pub record Ip : Type 0 where
  pub is_private : Bool
  pub is_loopback : Bool
  pub is_link_local : Bool
  pub is_reserved : Bool
  pub is_multicast : Bool

unfoldable pub is_blocked_ip : Ip → Bool
is_blocked_ip ip =
    ip.is_private || ip.is_loopback || ip.is_link_local || ip.is_reserved || ip.is_multicast

-- `ValueError`, whose text is shortened here
abbrev pub refusal : String → Error
refusal text = record { kind = value_error; text = text }

-- the header content-length: absent or empty, no number, or a number
pub data ContentLength : Type 0 where
  absent malformed : ContentLength
  bytes : ℕ → ContentLength

-- One answer: the request raises, it redirects, or it has a body, with the outcome of
-- `raise_for_status` and the chunks in the order in which they come.
pub data Response : Type 0 where
  raises : Error → Response
  redirects : String → Response
  answers : Result (Unit {0}) → ContentLength → List (List ℕ) → Response

abbrev check_ips : List Ip → Result (Unit {0})
check_ips [] = ok tt
check_ips (ip ∷ ips) =
    let rest = check_ips ips in
    if is_blocked_ip ip then err (refusal "URL resolves to blocked IP") else rest

-- the chunks, joined, unless they pass the bound
unfoldable pub read_chunks : ℕ → ℕ → List (List ℕ) → Result (List ℕ)
read_chunks max_download size [] = ok []
read_chunks max_download size (chunk ∷ chunks) =
    let rest = read_chunks max_download (size + length chunk) chunks in
    if ltb max_download (size + length chunk)
    then err (refusal "Image too large")
    else elim rest [ ok data_bytes ↦ ok (chunk ++ data_bytes) | err e ↦ err e ]

abbrev is_too_long : ℕ → ContentLength → Bool
is_too_long max_download absent = false
is_too_long max_download malformed = true
is_too_long max_download (bytes n) = ltb max_download n

abbrev read_body : ℕ → Result (Unit {0}) → ContentLength → List (List ℕ) → Result (List ℕ)
read_body max_download (err e) content_length chunks = err e
read_body max_download (ok u) content_length chunks =
    if is_too_long max_download content_length
    then err (refusal "Image too large")
    else read_chunks max_download 0 chunks

module _ (hostname : String → Option String) (resolve : String → Option (List Ip)) where
  abbrev resolved : Option (List Ip) → Result (Unit {0})
  resolved none = err (refusal "DNS resolution failed")
  resolved (some ips) = check_ips ips

  unfoldable pub validate_host_ips : String → Result (Unit {0})
  unfolding is_blocked_ip
  validate_host_ips host = resolved (resolve host)

  abbrev host_checked : Option String → Result (Unit {0})
  host_checked none = err (refusal "Invalid URL: no hostname")
  host_checked (some host) =
      if is_truthy host then validate_host_ips host else err (refusal "Invalid URL: no hostname")

  -- the check of a thumbnail's address, and the same of a redirect's
  unfoldable pub validate_thumbnail_url : String → Result (Unit {0})
  unfolding validate_host_ips
  validate_thumbnail_url url = host_checked (hostname url)

  module _ (max_download : ℕ) (respond : String → Response) where
    abbrev logged : String → Result (List ℕ) × List String → Result (List ℕ) × List String
    logged url (r, urls) = (r, url ∷ urls)

    abbrev pub followed :
        String
        → String
        → Result (Unit {0})
        → (String → Result (List ℕ) × List String)
        → Result (List ℕ) × List String
    followed url next (err e) rest = (err e, url ∷ [])
    followed url next (ok u) rest = logged url (rest next)

    -- one round of the loop
    abbrev pub received :
        String → Response → (String → Result (List ℕ) × List String) → Result (List ℕ) × List String
    received url (raises e) rest = (err e, url ∷ [])
    received url (redirects next) rest = followed url next (validate_thumbnail_url next) rest
    received url (answers status content_length chunks) rest =
        (read_body max_download status content_length chunks, url ∷ [])

    -- The loop, with the number of requests that are left; the second component is the list of the
    -- addresses that were requested.
    unfoldable pub requests : ℕ → String → Result (List ℕ) × List String
    unfolding validate_thumbnail_url read_chunks
    requests zero url = (err (refusal "Too many redirects"), [])
    requests (suc n) url = received url (respond url) (λ next. requests n next)

  -- `stop_after_attempt(3)` of `retry_http`
  abbrev pub max_attempts : ℕ
  max_attempts = 3

  -- The attempts 0 to n, one after another: the outcome is that of the last, and the addresses are those
  -- of all.
  unfoldable pub attempts : (ℕ → Result (List ℕ) × List String) → ℕ → Result (List ℕ) × List String
  attempts attempt zero = attempt zero
  attempts attempt (suc n) =
      let before = attempts attempt n in ((attempt (suc n)).0, before.1 ++ (attempt (suc n)).1)

  module _ (max_download : ℕ) (retries : ℕ → (ℕ → Result (List ℕ)) → ℕ)
      (respond : ℕ → String → Response) where
    -- one attempt of `_download_image`
    abbrev pub attempt_of : ℕ → String → ℕ → Result (List ℕ) × List String
    unfolding requests
    attempt_of max_redirects url n = requests max_download (respond n) (max_redirects + 1) url

    unfoldable pub download_image : ℕ → String → Result (List ℕ) × List String
    unfolding requests attempts
    download_image max_redirects url =
        attempts (attempt_of max_redirects url)
          (retries max_attempts (λ n. (attempt_of max_redirects url n).0))

    -- the branch of `describe_image` for a thumbnail that is an address
    abbrev pub validated : ℕ → String → Result (Unit {0}) → Result (List ℕ) × List String
    validated max_redirects url (err e) = (err e, [])
    validated max_redirects url (ok u) = download_image max_redirects url

    -- `except (binascii.Error, ValueError)`
    abbrev relabelled : Result (List ℕ) → Result (List ℕ)
    relabelled (ok image) = ok image
    relabelled (err e) =
        if is_value_error e.kind then err (refusal "Invalid thumbnail data") else err e

    module _ (after_comma : String → Option String) (decode : String → Result (List ℕ)) where
      abbrev data_uri : Option String → Result (List ℕ)
      data_uri none = err (refusal "Invalid data URI: missing comma separator")
      data_uri (some b64_data) = decode b64_data

      abbrev prepared : ℕ → String → Result (List ℕ) × List String
      prepared max_redirects thumbnail =
          if starts_with thumbnail "data:image"
          then (data_uri (after_comma thumbnail), [])
          else if starts_with thumbnail "http"
          then validated max_redirects thumbnail (validate_thumbnail_url thumbnail)
          else (decode thumbnail, [])

      -- the image of a thumbnail, and the addresses that were requested for it
      unfoldable pub image_of : ℕ → String → Result (List ℕ) × List String
      unfolding download_image
      image_of max_redirects thumbnail =
          let (image, urls) = prepared max_redirects thumbnail in (relabelled image, urls)
