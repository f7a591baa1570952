-- ===== src/Mission.antt =====
-- app/modules/mission.py: the mission metadata of a STAC item, behind the cache.
--
-- `upper` is `str.upper`. `respond` is the answer to a GET of an address: an error, or a body, whose
-- decoding may fail. Of a body the source reads the fields of `Item`.
pub mod Cached
pub mod Row
use image_descriptor.Prelude.{
  ℕ, String, Bool, Option, none, some, List, [], ◌∷◌, ltb, or_else, if◌then◌else◌,
}
use image_descriptor.Prelude.Text.{str_eq, join, is_truthy, contains}
use image_descriptor.Prelude.Number.{Number}
use image_descriptor.Errors.{Error, Result, ok, err}
use image_descriptor.Schemas
use image_descriptor.Cache.{Cache, Fault, get, set}

-- `instruments` is empty where it is absent, and `bands` is the length of `eo:bands`.
pub record Item : Type 0 where
  pub collection : Option String
  pub platform : Option String
  pub instruments : List String
  pub constellation : Option String
  pub processing_level : Option String
  pub cloud_cover : Option Number
  pub gsd : Option Number
  pub bands : Option ℕ

abbrev pub guess_collection : (String → String) → String → String
guess_collection upper stac_id =
    if contains "_L2A" (upper stac_id)
    then "sentinel-2-c1-l2a"
    else if contains "_L1C" (upper stac_id)
    then "sentinel-2-l1c"
    else "sentinel-2-c1-l2a"

-- `_COLLECTION_PROCESSING_LEVEL.get(collection_id, default_level)`
abbrev pub level_of : String → Option String → Option String
level_of collection default_level =
    if str_eq collection "sentinel-2-l1c"
    then some "L1C"
    else if str_eq collection "sentinel-2-l2a"
    then some "L2A"
    else if str_eq collection "sentinel-2-c1-l2a"
    then some "L2A"
    else default_level

-- `", ".join(instruments)`, where `instruments` may be empty
unfoldable pub joined : List String → String
joined [] = "unknown"
joined (s ∷ []) = s
joined (s ∷ t ∷ rest) = join s (join ", " (joined (t ∷ rest)))

-- `len(eo_bands) if eo_bands else None`
abbrev band_count : Option ℕ → Option ℕ
band_count none = none
band_count (some n) = if ltb 0 n then some n else none

unfoldable pub parse_mission : Item → Schemas.Mission
unfolding joined
parse_mission item = record {
  platform = or_else item.platform "unknown";
  instrument = joined item.instruments;
  constellation = item.constellation;
  processing_level = level_of (or_else item.collection "") item.processing_level;
  cloud_cover = item.cloud_cover;
  gsd = item.gsd;
  spectral_bands = band_count item.bands;
}

-- What one call meets outside.
pub record Call : Type 0 where
  pub select_error : Option Error
  pub delete_fault : Fault
  pub get_at : ℕ
  pub set_fault : Fault
  pub set_at : ℕ
  pub respond : String → Result (Option Item)

abbrev pub address : (String → String) → String → String
address upper stac_id =
    join "https://earth-search.aws.element84.com/v1/collections/"
      (join (guess_collection upper stac_id) (join "/items/" stac_id))

module _ (loads : String → Option Schemas.Mission) (dumps : Schemas.Mission → String)
    (upper : String → String) where
  abbrev stored :
      Schemas.Mission → Result (Unit {0}) × Cache → Result (Option Schemas.Mission) × Cache
  stored m (ok u, c) = (ok (some m), c)
  stored m (err e, c) = (err e, c)

  abbrev answered :
      Call → String → Result (Option Item) → Cache → Result (Option Schemas.Mission) × Cache
  answered call key (err e) c = (err e, c)
  answered call key (ok none) c = (ok none, c)
  answered call key (ok (some item)) c =
      stored (parse_mission item)
        (set dumps call.set_fault call.set_at key (parse_mission item) (some 365) none c)

  abbrev pub looked_up :
      Call
      → String
      → String
      → Result (Option Schemas.Mission) × Cache
      → Result (Option Schemas.Mission) × Cache
  looked_up call stac_id key (err e, c) = (err e, c)
  looked_up call stac_id key (ok (some cached), c) = (ok (some cached), c)
  looked_up call stac_id key (ok none, c) =
      answered call key (call.respond (address upper stac_id)) c

  abbrev pub given : Call → String → Cache → Result (Option Schemas.Mission) × Cache
  given call stac_id c =
      let key = join "mission:" stac_id in
      if is_truthy stac_id
      then looked_up call stac_id key
          (get loads call.select_error call.delete_fault call.get_at key c)
      else (ok none, c)

  unfoldable pub get_mission_metadata :
      Call → Option String → Cache → Result (Option Schemas.Mission) × Cache
  unfolding get set parse_mission
  get_mission_metadata call none c = (ok none, c)
  get_mission_metadata call (some stac_id) c = given call stac_id c
