-- ===== src/Wired.antt =====
-- The modules under app/modules as the services of app/services/composer.py: they share the cache that
-- `compose_description` hands to each of them.
pub mod Rows
pub mod Free
pub mod Described
pub mod Again
use image_descriptor.Prelude.{ℕ, String, Bool, Option, none, some, List, [], ◌∷◌, ◌++◌}
use image_descriptor.Prelude.Text.{text_of}
use image_descriptor.Prelude.Number.{Number}
use image_descriptor.Errors.{Result}
use image_descriptor.Schemas.{Location, LandCover, Context, Mission}
use image_descriptor.Cache.{Cache}
use image_descriptor.Composer.Phases.{Services}
use image_descriptor.Geocoder
use image_descriptor.Landcover
use image_descriptor.Mission
use image_descriptor.Describer
use image_descriptor.Research

-- The cache, the geocoder's `_last_request_time` and the log of its requests, and the addresses that
-- were requested for images.
pub record World : Type 0 where
  pub cache : Cache
  pub last_request_time : ℕ
  pub sent : List ℕ
  pub images : List String

-- The JSON codec of each module's results, the library functions and the settings.
pub record Setup : Type 0 where
  pub loads_location : String → Option Location
  pub dumps_location : Location → String
  pub loads_land_cover : String → Option LandCover
  pub dumps_land_cover : LandCover → String
  pub loads_mission : String → Option Mission
  pub dumps_mission : Mission → String
  pub loads_description : String → Option String
  pub dumps_description : String → String
  pub loads_context : String → Option Context
  pub dumps_context : Context → String
  pub show : Number → String
  pub share : ℕ → ℕ → ℕ
  pub without_postcode : String → String
  pub upper : String → String
  pub cache_ttl_seconds : ℕ
  pub network : Describer.Network

-- what the five calls of one composition meet outside
pub record Calls : Type 0 where
  pub geocoder : Geocoder.Call
  pub landcover : Landcover.Call
  pub mission : Mission.Call
  pub describer : Describer.Call (List Number)
  pub context : Research.Call

abbrev pub geocoder_state : World → Geocoder.State
geocoder_state w = record {
  cache = w.cache;
  last_request_time = w.last_request_time;
  sent = w.sent;
}

abbrev pub with_geocoder : {A : Type 0} → World → A × Geocoder.State → A × World
with_geocoder w (a, s) =
    (a, record w { cache = s.cache; last_request_time = s.last_request_time; sent = s.sent })

abbrev pub on_cache : {A : Type 0} → (Cache → A × Cache) → World → A × World
on_cache f w = let (a, c) = f w.cache in (a, record w { cache = c })

abbrev pub with_images :
    World → Describer.Described × Cache × List String → Describer.Described × World
with_images w (d, c, urls) = (d, record w { cache = c; images = urls ++ w.images })

-- `if bbox`
abbrev pub bbox_of : Option (List Number) → Option (List Number)
bbox_of none = none
bbox_of (some []) = none
bbox_of (some (x ∷ xs)) = some (x ∷ xs)

abbrev pub subject_of :
    String
    → String
    → Option String
    → String
    → Option (List Number)
    → Describer.Subject (List Number)
subject_of thumbnail place_name captured_at land_cover_summary bbox = record {
  thumbnail = thumbnail;
  place_name = place_name;
  captured_at = text_of captured_at;
  land_cover_summary = land_cover_summary;
  bbox = bbox_of bbox;
}

module _ (setup : Setup) (calls : Calls) where
  abbrev pub geocode_in : Number → Number → World → Result Location × World
  geocode_in lon lat w = with_geocoder w (
      Geocoder.geocode setup.loads_location setup.dumps_location setup.show setup.without_postcode
        setup.cache_ttl_seconds calls.geocoder lon lat (geocoder_state w))

  abbrev pub land_cover_in : Number → Number → World → Result LandCover × World
  land_cover_in lon lat = on_cache (
      Landcover.get_land_cover setup.loads_land_cover setup.dumps_land_cover setup.show setup.share
        setup.cache_ttl_seconds calls.landcover lon lat)

  abbrev pub mission_in : Option String → World → Result (Option Mission) × World
  mission_in stac_id = on_cache (
      Mission.get_mission_metadata setup.loads_mission setup.dumps_mission setup.upper calls.mission
        stac_id)

  abbrev pub describe_in :
      Option String → Describer.Subject (List Number) → World → Result (String × Bool) × World
  describe_in id subject w = with_images w (
      Describer.describe_image setup.dumps_description setup.loads_description setup.network
        calls.describer id subject w.cache)

  abbrev pub context_in :
      String → Option String → String → Option String → World → Result Context × World
  context_in place_name captured_at region city = on_cache (
      Research.research_context setup.loads_context setup.dumps_context calls.context place_name
        captured_at region city)

  unfoldable pub wired : Services World
  wired = record {
    geocode = geocode_in;
    get_land_cover = land_cover_in;
    get_mission_metadata = mission_in;
    describe_image = λ thumbnail place_name captured_at land_cover_summary id bbox.
        describe_in id (subject_of thumbnail place_name captured_at land_cover_summary bbox);
    research_context = context_in;
  }
