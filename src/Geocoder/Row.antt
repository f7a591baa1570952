-- ===== src/Geocoder/Row.antt =====
-- The row of the cache that a call reads and writes.
use image_descriptor.Prelude.{ℕ, ◌+◌, ◌≡◌, refl, String, Option, none, some, ◌∷◌}
use image_descriptor.Prelude.Number.{Number}
use image_descriptor.Errors.{Result, ok, err}
use image_descriptor.Schemas.{Location}
use image_descriptor.Cache.{Cache, get, set}
use image_descriptor.Cache.Rows.{Table}
use image_descriptor.Cache.Local.{
  IsLocal, table_of, alike-IsLocal, pure-IsLocal, keep-IsLocal, part-IsLocal, then-IsLocal,
  get-IsLocal, set-IsLocal,
}
use image_descriptor.Geocoder.{
  Reverse, State, Call, wait, geocode, cache_key, location_of, unknown_location, stored, parsed,
  requested, looked_up,
}

abbrev pub rows_of : State → Table
rows_of s = s.cache.table

abbrev with_cache : Cache → State → State
with_cache c s = record s { cache = c }

module _ (loads : String → Option Location) (dumps : Location → String) (show : Number → String)
    (without_postcode : String → String) (cache_ttl_seconds : ℕ) where
  module _ (call : Call) (lon lat : Number) where
    abbrev key : String
    key = cache_key loads dumps show without_postcode cache_ttl_seconds lon lat

    stored-IsLocal :
        (location : Location) (r : Result (Unit {0}))
        → IsLocal rows_of key (λ s.
          stored loads dumps show without_postcode cache_ttl_seconds location s (r, s.cache))
    stored-IsLocal location (ok u) = pure-IsLocal rows_of key (ok location)
    stored-IsLocal location (err e) = pure-IsLocal rows_of key (err e)

    parsed-IsLocal :
        (body : Option Reverse)
        → IsLocal rows_of key
            (parsed loads dumps show without_postcode cache_ttl_seconds call lon lat body)
    parsed-IsLocal none = pure-IsLocal rows_of key (ok (unknown_location lon lat))
    parsed-IsLocal (some answer) =
        let location =
          location_of loads dumps show without_postcode cache_ttl_seconds lon lat answer in
        let write =
          set dumps call.set_fault call.set_at key location none (some cache_ttl_seconds) in
        then-IsLocal rows_of key (λ s. ((write s.cache).0, with_cache (write s.cache).1 s))
          (λ r s.
            stored loads dumps show without_postcode cache_ttl_seconds location s (r, s.cache))
          (part-IsLocal table_of (λ (s : State). s.cache) with_cache key write (λ c s. refl)
            (set-IsLocal key dumps call.set_fault call.set_at location none
              (some cache_ttl_seconds)))
          (stored-IsLocal location)

    -- the request is sent when the wait is over
    abbrev due : State → ℕ
    due s = call.now + wait call.now s.last_request_time

    requested-IsLocal :
        (r : Result (Option Reverse))
        → IsLocal rows_of key (λ s.
          requested loads dumps show without_postcode cache_ttl_seconds call lon lat (due s) r s)
    requested-IsLocal (err e) =
        keep-IsLocal rows_of key (err e) (λ s. record s { sent = due s ∷ s.sent }) (λ s. refl)
    requested-IsLocal (ok body) =
        then-IsLocal rows_of key
          (λ s. (body, record s { last_request_time = due s + call.took; sent = due s ∷ s.sent }))
          (parsed loads dumps show without_postcode cache_ttl_seconds call lon lat)
          (keep-IsLocal rows_of key body
            (λ s. record s { last_request_time = due s + call.took; sent = due s ∷ s.sent })
            (λ s. refl))
          parsed-IsLocal

    looked_up-IsLocal :
        (r : Result (Option Location))
        → IsLocal rows_of key (λ s.
          looked_up loads dumps show without_postcode cache_ttl_seconds call lon lat (r, s.cache) s)
    looked_up-IsLocal (err e) = pure-IsLocal rows_of key (err e)
    looked_up-IsLocal (ok (some cached)) = pure-IsLocal rows_of key (ok cached)
    looked_up-IsLocal (ok none) = requested-IsLocal call.answer

    -- what follows reads the cache that `get` has left
    looked_up_within :
        (s : State) (p : Result (Option Location) × Cache)
        → looked_up loads dumps show without_postcode cache_ttl_seconds call lon lat p s
          ≡ looked_up loads dumps show without_postcode cache_ttl_seconds call lon lat p
              (with_cache p.1 s)
    looked_up_within s (err e, c) = refl
    looked_up_within s (ok (some cached), c) = refl
    looked_up_within s (ok none, c) = refl

    pub geocode-IsLocal :
        IsLocal rows_of key
          (geocode loads dumps show without_postcode cache_ttl_seconds call lon lat)
    unfolding geocode
    geocode-IsLocal =
        let read = get loads call.select_error call.delete_fault call.get_at key in
        let after = λ (r : Result (Option Location)) (s : State).
          looked_up loads dumps show without_postcode cache_ttl_seconds call lon lat (r, s.cache)
            s in
        alike-IsLocal rows_of key (λ s. after (read s.cache).0 (with_cache (read s.cache).1 s))
          (geocode loads dumps show without_postcode cache_ttl_seconds call lon lat)
          (λ s. looked_up_within s (read s.cache))
          (then-IsLocal rows_of key (λ s. ((read s.cache).0, with_cache (read s.cache).1 s)) after
            (part-IsLocal table_of (λ (s : State). s.cache) with_cache key read (λ c s. refl)
              (get-IsLocal key loads call.delete_fault call.get_at call.select_error))
            looked_up-IsLocal)
