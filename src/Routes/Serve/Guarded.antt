-- ===== src/Routes/Serve/Guarded.antt =====
-- Who gets as far as the code of an endpoint.
use image_descriptor.Prelude.{
  ℕ, ◌≡◌, refl, ◌⊎◌, inl, inr, String, Bool, true, false, Option, none, some, List, [], ◌∷◌, arith,
  All, Bool-cases,
}
use image_descriptor.Errors.{Result, ok, err}
use image_descriptor.Auth.{Jwks, Principal, Outside, authenticate}
use image_descriptor.Auth.Sound.{IsAuthentic, authenticate-IsAuthentic}
use image_descriptor.Server.RateLimit.{Exceeded}
use image_descriptor.Routes.Table.{
  Method, Endpoint, at_cache_stats, at_circuit_breaker_status, at_health, at_readiness, at_liveness,
  Route, Target, to_route, to_redirect, method_not_allowed, not_found, takes, find_route, router,
  route, found_route, under_prefix, or_redirect, else_redirect,
}
use image_descriptor.Routes.Serve.{
  Request, Served, answered, over_limit, refused, moved, no_method, no_route, Process, within_limit,
  called, let_in, entered, reached, serve,
}

-- the endpoints on the state of the service
abbrev pub IsProbe : Endpoint → Type 0
IsProbe at_cache_stats = Unit
IsProbe at_circuit_breaker_status = Unit
IsProbe at_health = Unit
IsProbe at_readiness = Unit
IsProbe at_liveness = Unit
IsProbe _ = ⊥

abbrev IsOpen : Route → Type 0
IsOpen r = (r.is_guarded ≡ true) ⊎ IsProbe r.endpoint

find_route-All :
    (P : Route → Type 0) (m : Method) (path : List String) (rs : List Route) (r : Route)
    → All P rs
    → find_route m path rs ≡ some r
    → P r
unfolding find_route
find_route-All P m path [] r h e = absurd (ground arith)
find_route-All P m path (x ∷ xs) r h e = elim (Bool-cases (takes x m path)) [
  | inl t ↦ let same : x ≡ r = ground (arith, e, t) in rw (← same) h.0
  | inr f ↦ find_route-All P m path xs r h.1 (rw f at e)
]

router-IsOpen : All IsOpen router
router-IsOpen = (
  inr tt,
  (
    inr tt,
    (
      inr tt,
      (
        inr tt,
        (
          inr tt,
          (
            inl refl,
            (inl refl, (inl refl, (inl refl, (inl refl, (inl refl, (inl refl, (inl refl, tt))))))),
          ),
        ),
      ),
    ),
  ),
)

unrouted : (m : Method) (path : List String) (r : Route) → else_redirect m path ≡ to_route r → ⊥
unrouted m [] r e = absurd (ground arith)
unrouted m (api ∷ []) r e = absurd (ground arith)
unrouted m (api ∷ s ∷ path) r e = absurd (ground arith)

or_redirect_only :
    (m : Method) (path : List String) (o : Option Route) (r : Route)
    → or_redirect m path o ≡ to_route r
    → o ≡ some r
or_redirect_only m path none r e = absurd (unrouted m path r e)
or_redirect_only m path (some q) r e = ground arith

found_route-IsOpen :
    (m : Method) (o : Option (List String)) (r : Route) → found_route m o ≡ some r → IsOpen r
unfolding find_route
found_route-IsOpen m none r e = absurd (ground arith)
found_route-IsOpen m (some path) r e = find_route-All IsOpen m path router r router-IsOpen e

route-IsOpen : (m : Method) (path : List String) (r : Route) → route m path ≡ to_route r → IsOpen r
unfolding route
route-IsOpen m path r e =
    found_route-IsOpen m (under_prefix path) r
      (or_redirect_only m path (found_route m (under_prefix path)) r e)

module _ {S L K A : Type 0} (limited : String → L → Option Exceeded × L)
    (run : Endpoint → S → Result A × S) (is_given : K → Bool) (jwks_ttl : ℕ)
    (compare_digest : String → String → Result Bool) (decode : String → K → Result (Option String))
    (api_key_setting : String) (out : Outside is_given jwks_ttl) where
  abbrev pub auth : Option String → Option String → Jwks K → Result Principal × Jwks K
  auth = authenticate is_given jwks_ttl compare_digest decode api_key_setting out

  -- the right of a request to reach the code of an endpoint
  abbrev pub IsEntitled : Request → Jwks K → Route → Type 0
  IsEntitled request keys r =
      IsProbe r.endpoint
      ⊎ ((principal : Principal) × IsAuthentic is_given jwks_ttl compare_digest decode
            api_key_setting out request.api_key request.credentials keys principal)

  abbrev pub IsAllowed : Request → Process S L K → Served A × Process S L K → Type 0
  IsAllowed request p (answered r a, q) =
      (route request.method request.path ≡ to_route r) × IsEntitled request p.keys r
  IsAllowed request p (over_limit e, q) = q.app ≡ p.app
  IsAllowed request p (refused e, q) = (q.app ≡ p.app) × (q.counts ≡ p.counts)
  IsAllowed request p (moved s path, q) = q ≡ p
  IsAllowed request p (no_method, q) = q ≡ p
  IsAllowed request p (no_route, q) = q ≡ p

  module _ (request : Request) (p : Process S L K) (r : Route)
      (at : route request.method request.path ≡ to_route r) where
    within_limit-IsAllowed :
        (q : Process S L K) (o : Option Exceeded × L)
        → q.app ≡ p.app
        → IsEntitled request p.keys r
        → IsAllowed request p (within_limit limited run r q o)
    within_limit-IsAllowed q (none, counts) same h = (at, h)
    within_limit-IsAllowed q (some e, counts) same h = same

    called-IsAllowed :
        (limit : Option String) (q : Process S L K)
        → q.app ≡ p.app
        → IsEntitled request p.keys r
        → IsAllowed request p (called limited run r limit q)
    called-IsAllowed none q same h = (at, h)
    called-IsAllowed (some name) q same h = within_limit-IsAllowed q (limited name q.counts) same h

    let_in-IsAllowed :
        (o : Result Principal × Jwks K)
        → auth request.api_key request.credentials p.keys ≡ o
        → IsAllowed request p (let_in limited run r p o)
    let_in-IsAllowed (ok principal, keys) e =
        called-IsAllowed r.limit (record p { keys = keys }) refl
          (inr (
            principal,
            authenticate-IsAuthentic is_given jwks_ttl compare_digest decode api_key_setting out
                request.api_key request.credentials p.keys principal (rw e refl),
          ))
    let_in-IsAllowed (err x, keys) e = (refl, refl)

    entered-IsAllowed :
        (b : Bool)
        → (b ≡ true) ⊎ IsProbe r.endpoint
        → IsAllowed request p (entered limited run auth r b request p)
    entered-IsAllowed true h =
        let_in-IsAllowed (auth request.api_key request.credentials p.keys) refl
    entered-IsAllowed false (inl e) = absurd (ground arith)
    entered-IsAllowed false (inr h) = called-IsAllowed r.limit p refl (inl h)

  reached-IsAllowed :
      (request : Request) (p : Process S L K) (target : Target)
      → route request.method request.path ≡ target
      → IsAllowed request p (reached limited run auth target request p)
  reached-IsAllowed request p (to_route r) e =
      entered-IsAllowed request p r e r.is_guarded (route-IsOpen request.method request.path r e)
  reached-IsAllowed request p (to_redirect s path) e = refl
  reached-IsAllowed request p method_not_allowed e = refl
  reached-IsAllowed request p not_found e = refl

  -- Whatever its method and path, a request reaches the code of an endpoint only where it holds the API
  -- key or a valid token, or where the endpoint is one of the five on the state of the service. Any
  -- other request leaves the application's state as it was, and one that is refused is not
  -- counted by the limiter either.
  pub serve-IsAllowed :
      (request : Request) (p : Process S L K)
      → IsAllowed request p (serve limited run auth request p)
  unfolding serve
  serve-IsAllowed request p = reached-IsAllowed request p (route request.method request.path) refl
