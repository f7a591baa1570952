-- ===== src/Tests/Modules.antt =====
-- The theorems on the service modules and on authentication at concrete calls.
use image_descriptor.Prelude.{
  ℕ, ◌+◌, ◌*◌, ◌≤◌, ◌≡◌, refl, String, Bool, Option, none, some, List, [], ◌∷◌, arith, length,
}
use image_descriptor.Prelude.Text.{str_eq, is_truthy}
use image_descriptor.Prelude.Number.{Number, whole}
use image_descriptor.Prelude.Round.{round, round_near, round_mono}
use image_descriptor.Errors.{Error, Result, ok, err, transport_error}
use image_descriptor.Schemas.{LandCover, Location}
use image_descriptor.Cache.{fine, empty, get, found}
use image_descriptor.Cache.Rows.{select}
use image_descriptor.Landcover.{Element, land_cover_of, get_land_cover}
use image_descriptor.Landcover.Shares.{IsShare, IsDescending, sum, land_cover_shares}
use image_descriptor.Geocoder.{State, geocode}
use image_descriptor.Geocoder.Pace.{IsPaced, run, run-IsPaced, failed_unpaced}
use image_descriptor.Auth.{Jwks, Outside, jwt_holder, authenticate, get_jwks}
use image_descriptor.Auth.Sound.{IsAuthentic, authenticate-IsAuthentic}
use image_descriptor.Landcover
use image_descriptor.Geocoder

abbrev forest : Element
forest = record { landuse = some "forest"; natural = some ""; leisure = none }

abbrev lake : Element
lake = record { landuse = none; natural = some "water"; leisure = some "park" }

abbrev elements : List Element
elements = forest ∷ lake ∷ forest ∷ []

abbrev share : ℕ → ℕ → ℕ
unfolding round
share count all = round (count * 100) all

share-IsShare : IsShare share 4
unfolding share
share-IsShare = record {
  above = λ count h. omega (arith, (round_near (count * 100) 4 (omega arith)).0);
  below = λ count h. omega (arith, (round_near (count * 100) 4 (omega arith)).1);
  mono = λ count more h k. round_mono (count * 100) (more * 100) 4 (omega arith) (omega (arith, h));
}

land_cover_shares_example :
    let cs = (land_cover_of share elements).classes in
    IsDescending cs × (2 * sum cs ≤ 200 + length cs) × (200 ≤ 2 * sum cs + length cs)
land_cover_shares_example = land_cover_shares share elements share-IsShare (omega arith)

abbrev show : Number → String
show x = "1.0"

-- a codec that knows one land cover
abbrev loads : String → Option LandCover
loads s = some (land_cover_of share elements)

abbrev dumps : LandCover → String
dumps l = "{}"

abbrev fetching : Landcover.Call
fetching = record {
  select_error = none;
  delete_fault = fine;
  get_at = 1000000;
  set_fault = fine;
  set_at = 2000000;
  answer = ok (some elements);
}

abbrev gone : Error
gone = record { kind = transport_error; text = "gone" }

abbrev offline : Landcover.Call
offline = record fetching { get_at = 50000000; answer = err gone }

abbrev no_location : String → Option Location
no_location s = none

abbrev written : Location → String
written l = "{}"

abbrev same_name : String → String
same_name s = s

abbrev unreadable : Geocoder.Call
unreadable = record {
  select_error = none;
  delete_fault = fine;
  get_at = 5;
  now = 6;
  took = 7;
  answer = ok none;
  set_fault = fine;
  set_at = 8;
}

abbrev calls : List (Geocoder.Call × Number × Number)
calls = (unreadable, whole 127, whole 37) ∷ (unreadable, whole 128, whole 38) ∷ []

run-IsPaced_example :
    IsPaced
      (run no_location written show same_name 60 calls
        (record { cache = empty; last_request_time = 0; sent = [] })).sent
run-IsPaced_example =
    run-IsPaced no_location written show same_name 60 calls empty ((none, refl), ((none, refl), tt))

abbrev refused : Geocoder.Call
refused = record unreadable { now = 9000000; answer = err gone }

abbrev at_start : State
at_start = record { cache = empty; last_request_time = 0; sent = [] }

abbrev refused_again : Geocoder.Call
refused_again = record refused { now = 9100000 }

failed_unpaced_example :
    let sent =
      (run no_location written show same_name 60
        ((refused, whole 127, whole 37) ∷ (refused_again, whole 128, whole 38) ∷ [])
        at_start).sent in
    (sent ≡ 9100000 ∷ 9000000 ∷ []) × ¬ IsPaced sent
unfolding get select found geocode
failed_unpaced_example =
    failed_unpaced no_location written show same_name 60 refused refused_again (whole 127)
      (whole 37) (whole 128) (whole 38) at_start gone gone refl refl refl refl (omega arith)
      (omega arith) (omega arith)

abbrev digest : String → String → Result Bool
digest a b = ok (str_eq a b)

-- a token that is its own subject
abbrev decode : String → String → Result (Option String)
decode token keys = ok (some token)

abbrev no_keys : Jwks String
no_keys = record { keys = none; fetched_at = 0 }

abbrev outside : Outside is_truthy 3600000000
outside = record { now = 1; later = 2; under_lock = no_keys; fetch = ok (some "keys") }

authenticate-IsAuthentic_example :
    IsAuthentic is_truthy 3600000000 digest decode "secret" outside
      (some "wrong")
      (some "user-1")
      no_keys
      (jwt_holder "user-1")
unfolding authenticate get_jwks
authenticate-IsAuthentic_example =
    authenticate-IsAuthentic is_truthy 3600000000 digest decode "secret" outside (some "wrong")
      (some "user-1") no_keys (jwt_holder "user-1") refl
