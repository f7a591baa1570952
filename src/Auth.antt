-- ===== src/Auth.antt =====
-- app/auth.py: the API key, the JWT and the cached signing keys. Times are whole microseconds.
--
-- `compare_digest` of hmac and `jwt.decode` are arguments: the first may refuse a text that is not
-- ASCII, the second gives the payload's `sub`, if it has one. K is a key set; `is_given` is its truth
-- value, false for an empty dictionary.
pub mod Sound
use image_descriptor.Prelude.{
  ℕ, ◌-◌, ◌*◌, String, Bool, true, false, ◌&&◌, Option, none, some, ltb, if◌then◌else◌,
}
use image_descriptor.Prelude.Text.{is_truthy}
use image_descriptor.Errors.{
  Error, ErrorClass, Result, ok, err, descriptor_error, jwt_error, other_error,
}

-- `_jwks_cache` and `_jwks_cache_ts`
pub record Jwks (K : Type 0) : Type 0 where
  pub keys : Option K
  pub fetched_at : ℕ

-- what `authenticate` returns
pub data Principal : Type 0 where
  api_key_holder : Principal
  jwt_holder : String → Principal

abbrev pub unauthorized : Error
unauthorized = record {
  kind = descriptor_error 401 "UNAUTHORIZED";
  text = "Valid API key or JWT required";
}

abbrev pub parse_error : Error
parse_error = record {
  kind = descriptor_error 502 "JWKS_PARSE_ERROR";
  text = "Failed to parse JWKS response from auth provider";
}

-- `payload["sub"]` on a payload without it
abbrev missing_sub : Error
missing_sub = record { kind = other_error; text = "'sub'" }

-- `except JWTError`
abbrev pub is_jwt_error : ErrorClass → Bool
is_jwt_error jwt_error = true
is_jwt_error _ = false

module _ {K : Type 0} (is_given : K → Bool) (jwks_ttl : ℕ) where
  -- `_jwks_cache and (now - _jwks_cache_ts) < settings.jwks_ttl_seconds`
  abbrev pub is_fresh : ℕ → ℕ → Option K → Bool
  is_fresh now fetched_at none = false
  is_fresh now fetched_at (some keys) = is_given keys && ltb (now - fetched_at) jwks_ttl

  abbrev pub kept : ℕ → Jwks K → Option K
  kept now s = if is_fresh now s.fetched_at s.keys then s.keys else none

  -- `fetch` is the answer of the provider: an error, or a body, whose decoding may fail.
  abbrev fetched : ℕ → Result (Option K) → Jwks K → Result K × Jwks K
  fetched now (err e) s = (err e, s)
  fetched now (ok none) s = (err parse_error, s)
  fetched now (ok (some data_keys)) s =
      (ok data_keys, record { keys = some data_keys; fetched_at = now })

  abbrev refreshed : ℕ → Result (Option K) → Option K → Jwks K → Result K × Jwks K
  refreshed later fetch (some keys) t = (ok keys, t)
  refreshed later fetch none t = fetched later fetch t

  abbrev checked : Option K → Jwks K → Result K × Jwks K → Result K × Jwks K
  checked (some keys) s rest = (ok keys, s)
  checked none s rest = rest

  -- The cache is tested twice: s is how the first test finds it, and t how it is once the lock is held.
  unfoldable pub get_jwks : ℕ → Jwks K → ℕ → Jwks K → Result (Option K) → Result K × Jwks K
  get_jwks now s later t fetch = checked (kept now s) s (refreshed later fetch (kept later t) t)

  -- What one call meets outside.
  pub record Outside : Type 0 where
    pub now : ℕ
    pub later : ℕ
    pub under_lock : Jwks K
    pub fetch : Result (Option K)

  module _ (compare_digest : String → String → Result Bool)
      (decode : String → K → Result (Option String)) (api_key_setting : String) where
    -- `if api_key and hmac.compare_digest(api_key, settings.api_key)`
    abbrev pub holds_key : Option String → Result Bool
    holds_key none = ok false
    holds_key (some k) = if is_truthy k then compare_digest k api_key_setting else ok false

    abbrev with_sub : Option String → Result Principal
    with_sub none = err missing_sub
    with_sub (some sub) = ok (jwt_holder sub)

    -- `except JWTError`, which falls through to the 401
    abbrev decoded : Result (Option String) → Result Principal
    decoded (ok sub) = with_sub sub
    decoded (err e) = if is_jwt_error e.kind then err unauthorized else err e

    abbrev verified : String → Result K × Jwks K → Result Principal × Jwks K
    verified token (ok keys, s) = (decoded (decode token keys), s)
    verified token (err e, s) = (if is_jwt_error e.kind then err unauthorized else err e, s)

    abbrev by_token : Outside → Option String → Jwks K → Result Principal × Jwks K
    by_token out none s = (err unauthorized, s)
    by_token out (some token) s =
        verified token (get_jwks out.now s out.later out.under_lock out.fetch)

    abbrev by_key : Outside → Result Bool → Option String → Jwks K → Result Principal × Jwks K
    by_key out (err e) credentials s = (err e, s)
    by_key out (ok true) credentials s = (ok api_key_holder, s)
    by_key out (ok false) credentials s = by_token out credentials s

    unfoldable pub authenticate :
        Outside → Option String → Option String → Jwks K → Result Principal × Jwks K
    unfolding get_jwks
    authenticate out api_key credentials s = by_key out (holds_key api_key) credentials s
