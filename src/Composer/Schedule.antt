-- ===== src/Composer/Schedule.antt =====
-- app/services/composer.py: a composition whose tasks run in another order. The event loop may start and
-- end the tasks of a phase in any order; here each of them runs as a whole.
pub mod Created
pub mod Same
pub mod Swap
pub mod Orders
use image_descriptor.Prelude.{String, Bool, Option, none, List, [], ◌∷◌}
use image_descriptor.Prelude.Number.{Number}
use image_descriptor.Errors.{Result}
use image_descriptor.Schemas.{
  DescribeRequest, DescribeResponse, Location, LandCover, Context, Mission, Warned,
}
use image_descriptor.Composer.{
  Service, geocoder, landcover, describer, context, mission, Clock, State, safe_call,
}
use image_descriptor.Composer.Phases.{
  Services, place_name_of, summary_of, region_of, city_of, description_of, cached_of, mission_of,
  status_of,
}

-- what a service answers
abbrev pub Out : Service → Type 0
Out geocoder = Location
Out landcover = LandCover
Out describer = String × Bool
Out context = Context
Out mission = Option Mission

-- the results of the tasks that have ended
pub record Slots : Type 0 where
  pub location : Option Location
  pub land_cover : Option LandCover
  pub described : Option (String × Bool)
  pub context : Option Context
  pub metadata : Option (Option Mission)

abbrev pub put_slot : (n : Service) → Option (Out n) → Slots → Slots
put_slot geocoder o slots = record slots { location = o }
put_slot landcover o slots = record slots { land_cover = o }
put_slot describer o slots = record slots { described = o }
put_slot context o slots = record slots { context = o }
put_slot mission o slots = record slots { metadata = o }

abbrev pub vacant : Slots
vacant = record {
  location = none;
  land_cover = none;
  described = none;
  context = none;
  metadata = none;
}

-- what the second phase takes from the first
pub record Inputs : Type 0 where
  pub place_name : String
  pub summary : String
  pub region : String
  pub city : Option String

pub record Track (W : Type 0) : Type 0 where
  pub slots : Slots
  pub warnings : List Warned
  pub state : State W

module _ {W : Type 0} (services : Services W) (request : DescribeRequest) (lon lat : Number)
    (inputs : Inputs) where
  -- the coroutine of a task
  abbrev pub task : (n : Service) → W → Result (Out n) × W
  task geocoder = services.geocode lon lat
  task landcover = services.get_land_cover lon lat
  task mission = services.get_mission_metadata request.stac_id
  task describer =
      services.describe_image request.thumbnail inputs.place_name request.captured_at inputs.summary
        request.cog_image_id request.bbox
  task context =
      services.research_context inputs.place_name request.captured_at inputs.region inputs.city

module _ {W : Type 0} (tasks : (n : Service) → W → Result (Out n) × W)
    (clocks : Service → Clock) where
  abbrev pub ended : (n : Service) → Slots → Option (Out n) × List Warned × State W → Track W
  ended n slots (o, warnings, s) = record {
    slots = put_slot n o slots;
    warnings = warnings;
    state = s;
  }

  unfoldable pub ran : Service → Track W → Track W
  unfolding safe_call
  ran n t = ended n t.slots (safe_call n (clocks n) (tasks n) t.warnings t.state)

  -- the tasks of a phase, in the order of the list
  unfoldable pub ran_all : List Service → Track W → Track W
  unfolding ran
  ran_all [] t = t
  ran_all (n ∷ ns) t = ran_all ns (ran n t)

module _ {W : Type 0} (show : Number → String) (services : Services W)
    (clocks : Service → Clock) where
  abbrev pub inputs_of : Number → Number → Slots → Inputs
  inputs_of lon lat slots = record {
    place_name = place_name_of show services clocks lon lat slots.location;
    summary = summary_of show services clocks slots.land_cover;
    region = region_of show services clocks slots.location;
    city = city_of show services clocks slots.location;
  }

  abbrev pub response_of : Track W → DescribeResponse × State W
  response_of t = (
    record {
      description = description_of t.slots.described;
      location = t.slots.location;
      land_cover = t.slots.land_cover;
      context = t.slots.context;
      mission = mission_of t.slots.metadata;
      warnings = t.warnings;
      cached = cached_of t.slots.described;
      saved = none;
    },
    record t.state { requests = status_of (description_of t.slots.described) ∷ t.state.requests },
  )

  abbrev pub first_track : List Service → DescribeRequest → Number → Number → State W → Track W
  unfolding ran_all
  first_track first request lon lat s =
      ran_all (task services request lon lat (inputs_of lon lat vacant)) clocks first
        (record { slots = vacant; warnings = []; state = s })

  -- `first` is the order of the three tasks of the first phase, and `second` of the other two.
  unfoldable pub compose_in :
      List Service
      → List Service
      → DescribeRequest
      → Number
      → Number
      → State W
      → DescribeResponse × State W
  unfolding ran_all
  compose_in first second request lon lat s =
      let t = first_track first request lon lat s in
      response_of
        (ran_all (task services request lon lat (inputs_of lon lat t.slots)) clocks second t)
