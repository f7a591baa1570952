-- ===== src/Auth/Sound.antt =====
-- Whom `authenticate` lets in, and how long the signing keys are kept.
use image_descriptor.Prelude.{
  ℕ, ◌-◌, ◌<◌, ◌≡◌, refl, String, Bool, true, false, Option, none, some, arith,
}
use image_descriptor.Prelude.Text.{is_truthy}
use image_descriptor.Errors.{Result, ok, err}
use image_descriptor.Auth.{
  Jwks, Principal, api_key_holder, jwt_holder, Outside, get_jwks, authenticate, holds_key, by_key,
  by_token, verified, decoded, kept,
}

module _ {K : Type 0} (is_given : K → Bool) (jwks_ttl : ℕ) where
  module _ (compare_digest : String → String → Result Bool)
      (decode : String → K → Result (Option String)) (api_key_setting : String) where
    -- the grounds on which a principal is let in
    abbrev pub IsAuthentic :
        Outside is_given jwks_ttl → Option String → Option String → Jwks K → Principal → Type 0
    IsAuthentic out api_key credentials s api_key_holder =
        (k : String) × (api_key ≡ some k)
        × (is_truthy k ≡ true)
        × (compare_digest k api_key_setting ≡ ok true)
    IsAuthentic out api_key credentials s (jwt_holder sub) =
        (token : String) × (keys : K) × (credentials ≡ some token)
        × ((get_jwks is_given jwks_ttl out.now s out.later out.under_lock out.fetch).0 ≡ ok keys)
        × (decode token keys ≡ ok (some sub))

    key_only :
        (api_key : Option String)
        → holds_key is_given jwks_ttl compare_digest decode api_key_setting api_key ≡ ok true
        → (k : String) × (api_key ≡ some k)
          × (is_truthy k ≡ true)
          × (compare_digest k api_key_setting ≡ ok true)
    key_only none h = ground arith
    key_only (some k) h = (k, refl, ground arith, ground arith)

    decoded_only :
        (r : Result (Option String)) (p : Principal)
        → decoded is_given jwks_ttl compare_digest decode api_key_setting r ≡ ok p
        → (sub : String) × (p ≡ jwt_holder sub) × (r ≡ ok (some sub))
    decoded_only (err e) p h = ground arith
    decoded_only (ok none) p h = ground arith
    decoded_only (ok (some sub)) p h = (sub, ground arith, refl)

    verified_only :
        (token : String) (q : Result K × Jwks K) (p : Principal)
        → (verified is_given jwks_ttl compare_digest decode api_key_setting token q).0 ≡ ok p
        → (keys : K) × (sub : String) × (q.0 ≡ ok keys)
          × (p ≡ jwt_holder sub)
          × (decode token keys ≡ ok (some sub))
    verified_only token (err e, t) p h = ground arith
    verified_only token (ok keys, t) p h =
        let (sub, same, e) = decoded_only (decode token keys) p h in (keys, sub, refl, same, e)

    token_only :
        (out : Outside is_given jwks_ttl) (api_key credentials : Option String) (s : Jwks K)
        (p : Principal)
        → (by_token is_given jwks_ttl compare_digest decode api_key_setting out credentials s).0
          ≡ ok p
        → IsAuthentic out api_key credentials s p
    token_only out api_key none s p h = ground arith
    token_only out api_key (some token) s p h =
        let q = get_jwks is_given jwks_ttl out.now s out.later out.under_lock out.fetch in
        let (keys, sub, found, same, e) = verified_only token q p h in
        rw same (token, keys, refl, found, e)

    keyed_only :
        (out : Outside is_given jwks_ttl) (api_key credentials : Option String) (s : Jwks K)
        (p : Principal) (r : Result Bool)
        → holds_key is_given jwks_ttl compare_digest decode api_key_setting api_key ≡ r
        → (by_key is_given jwks_ttl compare_digest decode api_key_setting out r credentials s).0
          ≡ ok p
        → IsAuthentic out api_key credentials s p
    keyed_only out api_key credentials s p (err e) k h = absurd (ground arith)
    keyed_only out api_key credentials s p (ok false) k h = token_only out api_key credentials s p h
    keyed_only out api_key credentials s p (ok true) k h =
        let same : p ≡ api_key_holder = ground arith in rw same (key_only api_key k)

    -- A call is let in only on one of two grounds: as the holder of the API key, if its key is not empty
    -- and `compare_digest` finds it equal to the setting; or as the `sub` of a token that decodes under
    -- the signing keys that `get_jwks` gives.
    pub authenticate-IsAuthentic :
        (out : Outside is_given jwks_ttl) (api_key credentials : Option String) (s : Jwks K)
        (p : Principal)
        → (authenticate is_given jwks_ttl compare_digest decode api_key_setting out api_key
            credentials s).0
          ≡ ok p
        → IsAuthentic out api_key credentials s p
    unfolding authenticate
    authenticate-IsAuthentic out api_key credentials s p h =
        keyed_only out api_key credentials s p _ refl h

  -- Keys that were fetched and are not empty are given back, without a request, until the time to live
  -- has passed.
  pub get_jwks_again :
      (now later now' later' : ℕ) (s t u : Jwks K) (keys : K) (fetch : Result (Option K))
      → kept is_given jwks_ttl now s ≡ none
      → kept is_given jwks_ttl later t ≡ none
      → is_given keys ≡ true
      → now' - later < jwks_ttl
      → let s' = (get_jwks is_given jwks_ttl now s later t (ok (some keys))).1 in
        get_jwks is_given jwks_ttl now' s' later' u fetch ≡ (ok keys, s')
  unfolding get_jwks
  get_jwks_again now later now' later' s t u keys fetch a b g h = rw (a, b) (ground arith)
