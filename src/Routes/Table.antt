-- ===== src/Routes/Table.antt =====
-- app/api/routes.py: the routes that the decorators declare, with their dependencies and limits; and how
-- app/main.py finds the one for a request, with the redirect of legacy paths behind them.
--
-- A path is the list of what stands between its slashes. The routes of FastAPI itself (its
-- documentation), /metrics, which a library adds, and the redirects between a path with a slash at its end
-- and one without are left out.
pub mod Unique
use image_descriptor.Prelude.{
  ℕ, String, Bool, true, false, ◌&&◌, Option, none, some, List, [], ◌∷◌, if◌then◌else◌,
}
use image_descriptor.Prelude.Text.{str_eq, is_truthy}

pub data Method : Type 0 where
  get post put delete patch other_method : Method

abbrev pub same_method : Method → Method → Bool
same_method get get = true
same_method post post = true
same_method put put = true
same_method delete delete = true
same_method patch patch = true
same_method other_method other_method = true
same_method _ _ = false

-- the endpoints, by the names of their functions
pub data Endpoint : Type 0 where
  at_cache_stats at_circuit_breaker_status at_health at_readiness at_liveness : Endpoint
  at_describe at_describe_batch at_geocode at_landcover at_context : Endpoint
  at_list_descriptions at_get_description at_delete_description : Endpoint

-- a part of a route's path: a text, or a parameter such as {cog_image_id}
pub data Part : Type 0 where
  fixed : String → Part
  parameter : Part

-- `limit` names the setting that `limiter.limit` reads, and `is_guarded` says whether the endpoint
-- depends on `authenticate`; `documented` are the errors under `responses`.
pub record Route : Type 0 where
  pub method : Method
  pub path : List Part
  pub endpoint : Endpoint
  pub tag : String
  pub limit : Option String
  pub is_guarded : Bool
  pub documented : List ℕ

abbrev probe_route : List Part → Endpoint → List ℕ → Route
probe_route path endpoint documented = record {
  method = get;
  path = path;
  endpoint = endpoint;
  tag = "system";
  limit = none;
  is_guarded = false;
  documented = documented;
}

abbrev pub cache_stats_route : Route
cache_stats_route = probe_route (fixed "cache" ∷ fixed "stats" ∷ []) at_cache_stats []

abbrev pub circuits_route : Route
circuits_route = probe_route (fixed "circuits" ∷ []) at_circuit_breaker_status []

abbrev pub health_route : Route
health_route = probe_route (fixed "health" ∷ []) at_health (503 ∷ [])

abbrev pub readiness_route : Route
readiness_route = probe_route (fixed "health" ∷ fixed "ready" ∷ []) at_readiness (503 ∷ [])

abbrev pub liveness_route : Route
liveness_route = probe_route (fixed "health" ∷ fixed "live" ∷ []) at_liveness []

abbrev pub describe_route : Route
describe_route = record {
  method = post;
  path = fixed "describe" ∷ [];
  endpoint = at_describe;
  tag = "analysis";
  limit = some "rate_limit_describe";
  is_guarded = true;
  documented = 304 ∷ 422 ∷ 429 ∷ [];
}

abbrev pub batch_route : Route
batch_route = record {
  method = post;
  path = fixed "describe" ∷ fixed "batch" ∷ [];
  endpoint = at_describe_batch;
  tag = "analysis";
  limit = some "rate_limit_batch";
  is_guarded = true;
  documented = 422 ∷ 429 ∷ [];
}

abbrev data_route : String → Endpoint → Route
data_route name endpoint = record {
  method = post;
  path = fixed name ∷ [];
  endpoint = endpoint;
  tag = "data";
  limit = some "rate_limit_data";
  is_guarded = true;
  documented = 422 ∷ 429 ∷ [];
}

abbrev pub geocode_route : Route
geocode_route = data_route "geocode" at_geocode

abbrev pub landcover_route : Route
landcover_route = data_route "landcover" at_landcover

abbrev pub context_route : Route
context_route = data_route "context" at_context

abbrev stored_route : Method → List Part → Endpoint → List ℕ → Route
stored_route method path endpoint documented = record {
  method = method;
  path = fixed "descriptions" ∷ path;
  endpoint = endpoint;
  tag = "analysis";
  limit = some "rate_limit_read";
  is_guarded = true;
  documented = documented;
}

abbrev pub list_route : Route
list_route = stored_route get [] at_list_descriptions (422 ∷ 429 ∷ [])

abbrev pub get_route : Route
get_route = stored_route get (parameter ∷ []) at_get_description (404 ∷ 429 ∷ [])

abbrev pub delete_route : Route
delete_route = stored_route delete (parameter ∷ []) at_delete_description (404 ∷ 429 ∷ 500 ∷ [])

-- `router`, in the order of the file
abbrev pub router : List Route
router =
    cache_stats_route ∷ circuits_route ∷ health_route ∷ readiness_route ∷ liveness_route
    ∷ describe_route ∷ batch_route ∷ geocode_route ∷ landcover_route ∷ context_route ∷ list_route
    ∷ get_route ∷ delete_route ∷ []

-- whether a text is one that a part stands for; a parameter is not empty
abbrev pub fits : Part → String → Bool
fits (fixed t) s = str_eq t s
fits parameter s = is_truthy s

unfoldable pub fits_path : List Part → List String → Bool
fits_path [] [] = true
fits_path [] (s ∷ path) = false
fits_path (p ∷ parts) [] = false
fits_path (p ∷ parts) (s ∷ path) = fits p s && fits_path parts path

abbrev pub takes : Route → Method → List String → Bool
unfolding fits_path
takes r m path = same_method r.method m && fits_path r.path path

-- the first route that takes the request
unfoldable pub find_route : Method → List String → List Route → Option Route
unfolding fits_path
find_route m path [] = none
find_route m path (r ∷ rs) =
    let rest = find_route m path rs in if takes r m path then some r else rest

-- What answers a request: an endpoint, the redirect of legacy paths, or starlette's own errors.
pub data Target : Type 0 where
  to_route : Route → Target
  to_redirect : String → List String → Target
  method_not_allowed not_found : Target

-- the methods of `legacy_api_redirect`
abbrev pub is_redirected : Method → Bool
is_redirected other_method = false
is_redirected _ = true

-- A path under /api/ that no route takes, by whatever method, is one of the redirect.
abbrev pub else_redirect : Method → List String → Target
else_redirect m [] = not_found
else_redirect m (api ∷ []) = not_found
else_redirect m (api ∷ s ∷ path) =
    if str_eq api "api"
    then (if is_redirected m then to_redirect s path else method_not_allowed)
    else not_found

abbrev pub or_redirect : Method → List String → Option Route → Target
or_redirect m path (some r) = to_route r
or_redirect m path none = else_redirect m path

-- `app.include_router(router, prefix="/api/v1")`
abbrev pub under_prefix : List String → Option (List String)
under_prefix (api ∷ v1 ∷ path) = if str_eq api "api" && str_eq v1 "v1" then some path else none
under_prefix _ = none

abbrev pub found_route : Method → Option (List String) → Option Route
unfolding find_route
found_route m none = none
found_route m (some path) = find_route m path router

unfoldable pub route : Method → List String → Target
unfolding find_route
route m path = or_redirect m path (found_route m (under_prefix path))
