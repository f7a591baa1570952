-- ===== src/Geocoder/Pace.antt =====
-- How far apart the requests to Nominatim are.
use image_descriptor.Prelude.{
  ℕ, ◌+◌, ◌≤◌, ◌<◌, ◌≡◌, ◌∙◌, refl, ap, String, Option, none, some, List, [], ◌∷◌, arith,
}
use image_descriptor.Prelude.Number.{Number}
use image_descriptor.Errors.{Error, Result, ok, err}
use image_descriptor.Schemas.{Location}
use image_descriptor.Cache.{Cache, get, set, second}
use image_descriptor.Geocoder.{
  Reverse, State, Call, wait, cache_key, geocode, looked_up, requested, parsed, stored, location_of,
}

-- each request at least a second after the one before it
abbrev pub IsPaced : List ℕ → Type 0
IsPaced [] = Unit
IsPaced (b ∷ []) = Unit
IsPaced (b ∷ a ∷ sent) = (a + second ≤ b) × IsPaced (a ∷ sent)

abbrev IsPast : ℕ → List ℕ → Type 0
IsPast last [] = Unit
IsPast last (a ∷ sent) = a ≤ last

record IsSpaced (s : State) : Type 0 where
  paced : IsPaced s.sent
  past : IsPast s.last_request_time s.sent

-- Nominatim answers, be it by something that is no JSON.
abbrev pub IsAnswered : Call → Type 0
IsAnswered call = (body : Option Reverse) × (call.answer ≡ ok body)

IsPaced-cons :
    (now last : ℕ) (sent : List ℕ)
    → IsPast last sent
    → IsPaced sent
    → IsPaced ((now + wait now last) ∷ sent)
unfolding wait
IsPaced-cons now last [] p h = tt
IsPaced-cons now last (a ∷ sent) p h = (omega arith, h)

module _ (loads : String → Option Location) (dumps : Location → String) (show : Number → String)
    (without_postcode : String → String) (cache_ttl_seconds : ℕ) where
  -- the calls in the order in which they come, with their coordinates
  unfoldable pub run : List (Call × Number × Number) → State → State
  run [] s = s
  run ((call, lon, lat) ∷ calls) s =
      run calls (geocode loads dumps show without_postcode cache_ttl_seconds call lon lat s).1

  abbrev pub AreAnswered : List (Call × Number × Number) → Type 0
  AreAnswered [] = Unit
  AreAnswered ((call, lon, lat) ∷ calls) = IsAnswered call × AreAnswered calls

  stored-IsSpaced :
      (location : Location) (s : State) (p : Result (Unit {0}) × Cache)
      → IsSpaced s
      → IsSpaced (stored loads dumps show without_postcode cache_ttl_seconds location s p).1
  stored-IsSpaced location s (ok u, c) h = record { paced = h.paced; past = h.past }
  stored-IsSpaced location s (err e, c) h = record { paced = h.paced; past = h.past }

  parsed-IsSpaced :
      (call : Call) (lon lat : Number) (body : Option Reverse) (s : State)
      → IsSpaced s
      → IsSpaced (parsed loads dumps show without_postcode cache_ttl_seconds call lon lat body s).1
  parsed-IsSpaced call lon lat none s h = h
  parsed-IsSpaced call lon lat (some answer) s h =
      let location =
        location_of loads dumps show without_postcode cache_ttl_seconds lon lat answer in
      stored-IsSpaced location s
        (set dumps call.set_fault call.set_at
          (cache_key loads dumps show without_postcode cache_ttl_seconds lon lat) location none
          (some cache_ttl_seconds) s.cache)
        h

  requested-IsSpaced :
      (call : Call) (lon lat : Number) (r : Result (Option Reverse)) (body : Option Reverse)
      (s : State)
      → r ≡ ok body
      → IsSpaced s
      → IsSpaced
          (requested loads dumps show without_postcode cache_ttl_seconds call lon lat
            (call.now + wait call.now s.last_request_time)
            r
            s).1
  requested-IsSpaced call lon lat r body s e h = rw e (
      parsed-IsSpaced call lon lat body
        (record s {
          last_request_time = call.now + wait call.now s.last_request_time + call.took;
          sent = (call.now + wait call.now s.last_request_time) ∷ s.sent;
        })
        (record {
          paced = IsPaced-cons call.now s.last_request_time s.sent h.past h.paced;
          past = omega arith;
        }))

  looked_up-IsSpaced :
      (call : Call) (lon lat : Number) (p : Result (Option Location) × Cache) (s : State)
      → IsAnswered call
      → IsSpaced s
      → IsSpaced (looked_up loads dumps show without_postcode cache_ttl_seconds call lon lat p s).1
  looked_up-IsSpaced call lon lat (err e, c) s a h = record { paced = h.paced; past = h.past }
  looked_up-IsSpaced call lon lat (ok (some v), c) s a h = record { paced = h.paced; past = h.past }
  looked_up-IsSpaced call lon lat (ok none, c) s (body, e) h =
      requested-IsSpaced call lon lat call.answer body (record s { cache = c }) e
        (record { paced = h.paced; past = h.past })

  run-IsSpaced :
      (calls : List (Call × Number × Number)) (s : State)
      → AreAnswered calls
      → IsSpaced s
      → IsSpaced (run calls s)
  unfolding run geocode
  run-IsSpaced [] s a h = h
  run-IsSpaced ((call, lon, lat) ∷ calls) s (a, more) h =
      let found =
        get loads call.select_error call.delete_fault call.get_at
          (cache_key loads dumps show without_postcode cache_ttl_seconds lon lat) s.cache in
      run-IsSpaced calls
        (looked_up loads dumps show without_postcode cache_ttl_seconds call lon lat found s).1 more
        (looked_up-IsSpaced call lon lat found s a h)

  -- Over any run of calls from the start, as long as every request is answered, each request goes out at
  -- least a second after the one before it, whatever the instants at which the calls come.
  pub run-IsPaced :
      (calls : List (Call × Number × Number)) (c : Cache)
      → AreAnswered calls
      → IsPaced (run calls (record { cache = c; last_request_time = 0; sent = [] })).sent
  run-IsPaced calls c a = (run-IsSpaced calls _ a (record { paced = tt; past = tt })).paced

  looked_up-sent :
      (call : Call) (lon lat : Number) (p : Result (Option Location) × Cache) (s : State)
      (e : Error)
      → p.0 ≡ ok none
      → call.answer ≡ err e
      → s.last_request_time + second ≤ call.now
      → let s' =
          (looked_up loads dumps show without_postcode cache_ttl_seconds call lon lat p s).1 in
        (s'.sent ≡ call.now ∷ s.sent) × (s'.last_request_time ≡ s.last_request_time)
  unfolding wait
  looked_up-sent call lon lat (r, c) s e missed f h =
      rw (missed, f) (ap (λ t. t ∷ s.sent) (omega arith), refl)

  geocode-sent :
      (call : Call) (lon lat : Number) (s : State) (e : Error)
      → (get loads call.select_error call.delete_fault call.get_at
          (cache_key loads dumps show without_postcode cache_ttl_seconds lon lat)
          s.cache).0
        ≡ ok none
      → call.answer ≡ err e
      → s.last_request_time + second ≤ call.now
      → let s' = (geocode loads dumps show without_postcode cache_ttl_seconds call lon lat s).1 in
        (s'.sent ≡ call.now ∷ s.sent) × (s'.last_request_time ≡ s.last_request_time)
  unfolding geocode
  geocode-sent call lon lat s e missed f h = looked_up-sent call lon lat _ s e missed f h

  -- Two calls that find nothing in the cache, and whose requests raise, the first at least a second after
  -- the last answer: where the second call comes less than a second after the first, both are sent at
  -- once, so that the requests are not a second apart.
  pub failed_unpaced :
      (call again : Call) (lon lat lon' lat' : Number) (s : State) (e e' : Error)
      → let s' = (geocode loads dumps show without_postcode cache_ttl_seconds call lon lat s).1 in
        (get loads call.select_error call.delete_fault call.get_at
            (cache_key loads dumps show without_postcode cache_ttl_seconds lon lat)
            s.cache).0
          ≡ ok none
        → (get loads again.select_error again.delete_fault again.get_at
            (cache_key loads dumps show without_postcode cache_ttl_seconds lon' lat')
            s'.cache).0
          ≡ ok none
        → call.answer ≡ err e
        → again.answer ≡ err e'
        → s.last_request_time + second ≤ call.now
        → call.now ≤ again.now
        → again.now < call.now + second
        → let sent = (run ((call, lon, lat) ∷ (again, lon', lat') ∷ []) s).sent in
          (sent ≡ again.now ∷ call.now ∷ s.sent) × ¬ IsPaced sent
  unfolding run
  failed_unpaced call again lon lat lon' lat' s e e' missed missed' f f' h after soon =
      let s' = (geocode loads dumps show without_postcode cache_ttl_seconds call lon lat s).1 in
      let (first, kept) = geocode-sent call lon lat s e missed f h in
      let (second_sent, k) =
        geocode-sent again lon' lat' s' e' missed' f' (rw kept (omega arith)) in
      let both = second_sent ∙ ap (λ t. again.now ∷ t) first in
      (both, λ p. let (apart, rest) = rw both at p in omega (arith, apart))
