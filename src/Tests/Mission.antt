-- ===== src/Tests/Mission.antt =====
-- The mission metadata of an item, fetched and then asked for without a network.
use image_descriptor.Prelude.{◌≡◌, refl, String, Option, none, some, [], ◌∷◌, arith}
use image_descriptor.Errors.{Error, ok, err, transport_error}
use image_descriptor.Schemas
use image_descriptor.Cache.{fine, empty, get, found}
use image_descriptor.Cache.Rows.{select}
use image_descriptor.Mission.{Item, Call, parse_mission, get_mission_metadata}
use image_descriptor.Mission.Cached.{get_mission_metadata_again}

abbrev scene : Item
scene = record {
  collection = some "sentinel-2-c1-l2a";
  platform = some "sentinel-2b";
  instruments = "msi" ∷ [];
  constellation = some "sentinel-2";
  processing_level = none;
  cloud_cover = none;
  gsd = none;
  bands = some 15;
}

abbrev loads : String → Option Schemas.Mission
loads s = some (parse_mission scene)

abbrev dumps : Schemas.Mission → String
dumps m = "{}"

abbrev upper : String → String
upper s = s

abbrev online : Call
online = record {
  select_error = none;
  delete_fault = fine;
  get_at = 5;
  set_fault = fine;
  set_at = 6;
  respond = λ url. ok (some scene);
}

abbrev gone : Error
gone = record { kind = transport_error; text = "gone" }

abbrev offline : Call
offline = record online { get_at = 86400000000; respond = λ url. err gone }

get_mission_metadata_again_example :
    let c' = (get_mission_metadata loads dumps upper online (some "S2B_52SDG_L2A") empty).1 in
    (get_mission_metadata loads dumps upper offline (some "S2B_52SDG_L2A") c').0
    ≡ ok (some (parse_mission scene))
unfolding get select found
get_mission_metadata_again_example =
    get_mission_metadata_again loads dumps upper online offline "S2B_52SDG_L2A" scene empty refl
      refl refl refl refl refl (omega arith)
