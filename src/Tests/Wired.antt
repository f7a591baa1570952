-- ===== src/Tests/Wired.antt =====
-- A whole composition over the five modules, in another order of its tasks, and again for its image.
use image_descriptor.Prelude.{◌-◌, ◌≡◌, refl, String, true, none, some, [], ◌∷◌}
use image_descriptor.Prelude.Number.{Number, whole, round_number}
use mathlib.Core.List.{Permᴰ}
use image_descriptor.Errors.{Error, ok, err, transport_error}
use image_descriptor.Schemas.{DescribeRequest, DescribeResponse}
use image_descriptor.Cache.{fine, empty, get, set, found, write}
use image_descriptor.Cache.Rows.{select, replace, delete}
use image_descriptor.Breaker.{is_open, record_success, record_failure}
use image_descriptor.Thumbnail.{raises, image_of}
use image_descriptor.Composer.{
  Service, geocoder, landcover, describer, context, mission, Clock, State, all_closed, safe_call,
}
use image_descriptor.Composer.Phases.{compose}
use image_descriptor.Composer.Schedule.{compose_in}
use image_descriptor.Composer.Schedule.Orders.{IsReordered}
use image_descriptor.Geocoder.{geocode}
use image_descriptor.Landcover.{get_land_cover}
use image_descriptor.Mission.{get_mission_metadata}
use image_descriptor.Describer.{describe_image, described}
use image_descriptor.Research.{research_context}
use image_descriptor.Wired.{World, Setup, Calls, wired}
use image_descriptor.Wired.Free.{IsAlike, compose_in-wired}
use image_descriptor.Wired.Again.{compose_again}

abbrev gone : Error
gone = record { kind = transport_error; text = "gone" }

abbrev setup : Setup
setup = record {
  loads_location = λ s. none;
  dumps_location = λ l. "{}";
  loads_land_cover = λ s. none;
  dumps_land_cover = λ l. "{}";
  loads_mission = λ s. none;
  dumps_mission = λ m. "{}";
  loads_description = λ s. some s;
  dumps_description = λ s. s;
  loads_context = λ s. none;
  dumps_context = λ c. "{}";
  show = λ x. "1.0";
  share = λ count all. 0;
  without_postcode = λ s. s;
  upper = λ s. s;
  cache_ttl_seconds = 60;
  network = record {
    hostname = λ url. none;
    resolve = λ host. none;
    max_download = 10;
    retries = λ n outcomes. n - 1;
    max_redirects = 5;
    after_comma = λ uri. none;
    decode = λ thumbnail. ok (1 ∷ []);
  };
}

abbrev calls : Calls
calls = record {
  geocoder = record {
    select_error = none;
    delete_fault = fine;
    get_at = 5;
    now = 6;
    took = 7;
    answer = ok none;
    set_fault = fine;
    set_at = 8;
  };
  landcover = record {
    select_error = none;
    delete_fault = fine;
    get_at = 5;
    set_fault = fine;
    set_at = 6;
    answer = ok (some []);
  };
  mission = record {
    select_error = none;
    delete_fault = fine;
    get_at = 5;
    set_fault = fine;
    set_at = 6;
    respond = λ url. err gone;
  };
  describer = record {
    select_error = none;
    delete_fault = fine;
    get_at = 15;
    set_fault = fine;
    set_at = 16;
    respond = λ attempt url. raises gone;
    resize = λ image. ok image;
    today = "2024-05-01";
    span = λ bbox. ("1.0", "2.0");
    generate = λ image prompt. ok "A harbour.";
  };
  context = record {
    select_error = none;
    delete_fault = fine;
    get_at = 15;
    set_fault = fine;
    set_at = 16;
    respond = λ query. ok [];
  };
}

-- the cache fails the other services with an error that they do not catch
abbrev broken : Calls
broken = record calls {
  geocoder = record calls.geocoder { select_error = some gone };
  landcover = record calls.landcover { select_error = some gone };
  context = record calls.context { select_error = some gone };
  mission = record calls.mission { select_error = some gone };
}

abbrev forest : Calls
forest = record calls {
  describer = record calls.describer { generate = λ image prompt. ok "A forest." };
}

abbrev request : DescribeRequest
request = record {
  thumbnail = "aGFyYm91cg==";
  coordinates = whole 127 ∷ whole 37 ∷ [];
  bbox = none;
  captured_at = none;
  cog_image_id = some "id-1";
  stac_id = some "S2B_52SDG_L2A";
}

abbrev clocks : Service → Clock
clocks n = record { now = 5; later = 6; failed_at = 7 }

abbrev show : Number → String
show x = "127.0"

abbrev state : State World
state = record {
  breakers = all_closed;
  api_requests = [];
  requests = [];
  world = record { cache = empty; last_request_time = 0; sent = []; images = [] };
}

compose_in-wired_example :
    IsReordered IsAlike
      (compose_in show
        (wired setup calls)
        clocks
        (landcover ∷ geocoder ∷ mission ∷ [])
        (context ∷ describer ∷ [])
        request
        (whole 127)
        (whole 37)
        state)
      (compose show (wired setup calls) clocks request (whole 127) (whole 37) state)
compose_in-wired_example =
    compose_in-wired setup calls request (whole 127) (whole 37) show clocks
      (landcover ∷ geocoder ∷ mission ∷ []) (context ∷ describer ∷ []) state (Permᴰ.swap refl refl)
      (Permᴰ.swap refl refl)

abbrev first : DescribeResponse × State World
first = compose show (wired setup broken) clocks request (whole 127) (whole 37) state

compose_again_example :
    let (r, s) =
      compose show
        (wired setup forest)
        clocks
        (record request { thumbnail = "Zm9yZXN0" })
        (whole 128)
        (whole 38)
        first.1 in
    (r.description ≡ some "A harbour.")
    × (r.cached ≡ true)
    × (s.world.images ≡ first.1.world.images)
unfolding compose safe_call all_closed wired geocode get_land_cover get_mission_metadata
    describe_image research_context get set found write select replace delete is_open record_success
    record_failure round_number image_of described
compose_again_example =
    compose_again setup show broken forest request (record request { thumbnail = "Zm9yZXN0" })
      (whole 127) (whole 37) (whole 128) (whole 38) clocks clocks "id-1" "A harbour." state first.1
      first.0 refl refl refl refl refl refl refl refl refl
