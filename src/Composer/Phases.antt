-- ===== src/Composer/Phases.antt =====
-- app/services/composer.py: the two phases of `compose_description`.
--
-- The tasks of a phase run in the order in which they are created, one of the orders that the event loop
-- may choose.
use image_descriptor.Prelude.{String, Bool, false, Option, none, some, List, [], ◌∷◌, if◌then◌else◌}
use image_descriptor.Prelude.Text.{join, is_truthy}
use image_descriptor.Prelude.Number.{Number}
use image_descriptor.Errors.{Result, ok, err, value_error}
use image_descriptor.Schemas.{
  DescribeRequest, DescribeResponse, Location, LandCover, Context, Mission, Warned,
}
use image_descriptor.Composer.{
  safe_call, Clock, Service, State, context, describer, geocoder, landcover, mission,
}

-- The coroutines of app/modules, with their arguments.
pub record Services (W : Type 0) : Type 0 where
  pub geocode : Number → Number → W → Result Location × W
  pub get_land_cover : Number → Number → W → Result LandCover × W
  pub get_mission_metadata : Option String → W → Result (Option Mission) × W
  pub describe_image :
      String
      → String
      → Option String
      → String
      → Option String
      → Option (List Number)
      → W
      → Result (String × Bool) × W
  pub research_context : String → Option String → String → Option String → W → Result Context × W

-- `description, cached = desc_result`
abbrev pub description_of : Option (String × Bool) → Option String
description_of none = none
description_of (some (description, cached)) = some description

abbrev pub cached_of : Option (String × Bool) → Bool
cached_of none = false
cached_of (some (description, cached)) = cached

abbrev pub mission_of : Option (Option Mission) → Option Mission
mission_of none = none
mission_of (some m) = m

-- `if description`
abbrev pub status_of : Option String → String
status_of none = "error"
status_of (some description) = if is_truthy description then "success" else "error"

pub record Phase1 (W : Type 0) : Type 0 where
  pub location : Option Location
  pub land_cover : Option LandCover
  pub metadata : Option (Option Mission)
  pub warnings : List Warned
  pub state : State W

pub record Phase2 (W : Type 0) : Type 0 where
  pub described : Option (String × Bool)
  pub context : Option Context
  pub warnings : List Warned
  pub state : State W

-- `show` is Python's `str` of a float
module _ {W : Type 0} (show : Number → String) (services : Services W)
    (clocks : Service → Clock) where
  abbrev pub place_name_of : Number → Number → Option Location → String
  place_name_of lon lat none = join (show lat) (join ", " (show lon))
  place_name_of lon lat (some l) = l.place_name

  abbrev pub summary_of : Option LandCover → String
  summary_of none = "정보 없음"
  summary_of (some l) = l.summary

  abbrev pub region_of : Option Location → String
  region_of none = ""
  region_of (some l) = l.region

  abbrev pub city_of : Option Location → Option String
  city_of none = none
  city_of (some l) = l.city

  -- geocoder, land cover and mission
  unfoldable pub phase1 : DescribeRequest → Number → Number → State W → Phase1 W
  unfolding safe_call
  phase1 request lon lat s =
      let (location, ws_g, s_g) =
        safe_call geocoder (clocks geocoder) (services.geocode lon lat) [] s in
      let (land_cover, ws_l, s_l) =
        safe_call landcover (clocks landcover) (services.get_land_cover lon lat) ws_g s_g in
      let (metadata, ws_m, s_m) =
        safe_call mission (clocks mission) (services.get_mission_metadata request.stac_id) ws_l
          s_l in
      record {
        location = location;
        land_cover = land_cover;
        metadata = metadata;
        warnings = ws_m;
        state = s_m;
      }

  -- describer and context, from the results of the first phase
  unfoldable pub phase2 : DescribeRequest → Number → Number → Phase1 W → Phase2 W
  unfolding safe_call
  phase2 request lon lat p =
      let place_name = place_name_of lon lat p.location in
      let (described, ws_d, s_d) =
        safe_call describer (clocks describer)
          (services.describe_image request.thumbnail place_name request.captured_at
            (summary_of p.land_cover) request.cog_image_id request.bbox)
          p.warnings p.state in
      let (context_result, ws_c, s_c) =
        safe_call context (clocks context)
          (services.research_context place_name request.captured_at (region_of p.location)
            (city_of p.location))
          ws_d s_d in
      record { described = described; context = context_result; warnings = ws_c; state = s_c }

  unfoldable pub compose : DescribeRequest → Number → Number → State W → DescribeResponse × State W
  unfolding phase1 phase2
  compose request lon lat s =
      let p = phase1 request lon lat s in
      let q = phase2 request lon lat p in
      (
        record {
          description = description_of q.described;
          location = p.location;
          land_cover = p.land_cover;
          context = q.context;
          mission = mission_of p.metadata;
          warnings = q.warnings;
          cached = cached_of q.described;
          saved = none;
        },
        record q.state { requests = status_of (description_of q.described) ∷ q.state.requests },
      )

  abbrev pub unpacked : DescribeRequest → List Number → State W → Result DescribeResponse × State W
  unpacked request (lon ∷ lat ∷ []) s =
      let (response, s') = compose request lon lat s in (ok response, s')
  unpacked request coordinates s =
      (err (record { kind = value_error; text = "wrong number of values to unpack" }), s)

  -- `lon, lat = request.coordinates` stands before the `try`
  unfoldable pub compose_description : DescribeRequest → State W → Result DescribeResponse × State W
  unfolding compose
  compose_description request s = unpacked request request.coordinates s
