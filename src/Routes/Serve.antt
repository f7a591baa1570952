-- ===== src/Routes/Serve.antt =====
-- app/api/routes.py: what stands before an endpoint. FastAPI resolves its dependencies, `authenticate`
-- among them, before it calls the endpoint, which `limiter.limit` wraps.
--
-- `limited` is slowapi's limiter: for the name of the setting that holds the limit, whether the request
-- is over it, and the limiter's counts afterwards. `run` is the endpoint itself, over the state S of the
-- application. The reading and the validation of a request are left out.
pub mod Guarded
use image_descriptor.Prelude.{ℕ, String, Bool, true, false, Option, none, some, List}
use image_descriptor.Errors.{Error, Result, ok, err}
use image_descriptor.Auth.{Jwks, Principal, Outside, authenticate}
use image_descriptor.Server.RateLimit.{Exceeded}
use image_descriptor.Routes.Table.{
  Method, Endpoint, Route, Target, to_route, to_redirect, method_not_allowed, not_found, route,
}

pub record Request : Type 0 where
  pub method : Method
  pub path : List String
  pub api_key : Option String
  pub credentials : Option String

pub data Served (A : Type 0) : Type 0 where
  answered : Route → Result A → Served A
  over_limit : Exceeded → Served A
  refused : Error → Served A
  moved : String → List String → Served A
  no_method no_route : Served A

-- the state of the application, the counts of the limiter and the cached signing keys
pub record Process (S L K : Type 0) : Type 0 where
  pub app : S
  pub counts : L
  pub keys : Jwks K

module _ {S L K A : Type 0} (limited : String → L → Option Exceeded × L)
    (run : Endpoint → S → Result A × S) where
  abbrev ran : Route → Process S L K → Served A × Process S L K
  ran r p = let (a, app) = run r.endpoint p.app in (answered r a, record p { app = app })

  abbrev within_limit : Route → Process S L K → Option Exceeded × L → Served A × Process S L K
  within_limit r p (none, counts) = ran r (record p { counts = counts })
  within_limit r p (some e, counts) = (over_limit e, record p { counts = counts })

  -- `@limiter.limit(…)`, where there is one
  abbrev called : Route → Option String → Process S L K → Served A × Process S L K
  called r none p = ran r p
  called r (some name) p = within_limit r p (limited name p.counts)

  abbrev let_in : Route → Process S L K → Result Principal × Jwks K → Served A × Process S L K
  let_in r p (ok principal, keys) = called r r.limit (record p { keys = keys })
  let_in r p (err e, keys) = (refused e, record p { keys = keys })

  module _ (auth : Option String → Option String → Jwks K → Result Principal × Jwks K) where
    -- `Depends(authenticate)`, where there is one
    abbrev entered : Route → Bool → Request → Process S L K → Served A × Process S L K
    entered r true request p = let_in r p (auth request.api_key request.credentials p.keys)
    entered r false request p = called r r.limit p

    abbrev reached : Target → Request → Process S L K → Served A × Process S L K
    reached (to_route r) request p = entered r r.is_guarded request p
    reached (to_redirect s path) request p = (moved s path, p)
    reached method_not_allowed request p = (no_method, p)
    reached not_found request p = (no_route, p)

    unfoldable pub serve : Request → Process S L K → Served A × Process S L K
    unfolding route
    serve request p = reached (route request.method request.path) request p
