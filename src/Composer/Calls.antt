-- ===== src/Composer/Calls.antt =====
-- One guarded call: what it answers, what it warns of, and what it leaves alone.
use image_descriptor.Prelude.{
  ℕ, ◌+◌, ◌≡◌, refl, String, Bool, true, false, Option, none, some, List, [], ◌∷◌, ◌++◌, arith,
  count_if, count_if-append, if◌then◌else◌,
}
use image_descriptor.Prelude.Text.{str_eq}
use image_descriptor.Errors.{Result, ok, err}
use image_descriptor.Schemas.{Warned}
use image_descriptor.Breaker.{Breaker, is_open}
use image_descriptor.Composer.{
  Service, geocoder, landcover, describer, context, mission, name, breaker, Clock, State, safe_call,
  warning, await, guarded, with_breaker,
}

-- how many of the warnings name a service
abbrev pub warned : Service → List Warned → ℕ
warned n = count_if (λ w. str_eq w.service (name n))

abbrev pub absent : {A : Type 0} → Option A → ℕ
absent none = 1
absent (some a) = 0

abbrev pub same : Service → Service → Bool
same geocoder geocoder = true
same landcover landcover = true
same describer describer = true
same context context = true
same mission mission = true
same _ _ = false

warned_one :
    (n m : Service) (text : String) → warned m (warning n text ∷ []) ≡ (if same n m then 1 else 0)
warned_one geocoder geocoder text = refl
warned_one geocoder _ text = refl
warned_one landcover landcover text = refl
warned_one landcover _ text = refl
warned_one describer describer text = refl
warned_one describer _ text = refl
warned_one context context text = refl
warned_one context _ text = refl
warned_one mission mission text = refl
warned_one mission _ text = refl

warned_more :
    (n m : Service) (ws : List Warned) (text : String)
    → warned m (ws ++ warning n text ∷ []) ≡ warned m ws + (if same n m then 1 else 0)
warned_more n m ws text = cc (
  count_if-append (λ (w : Warned). str_eq w.service (name m)) ws (warning n text ∷ []),
  warned_one n m text,
)

module _ {W A : Type 0} (n m : Service) (clock : Clock) (ws : List Warned) where
  warned-await :
      (r : Result A × W) (s : State W)
      → let (r, ws', s') = await n clock r ws s in
        warned m ws' ≡ warned m ws + (if same n m then absent r else 0)
  warned-await (ok a, w) s = ground arith
  warned-await (err e, w) s = warned_more n m ws e.text

  warned-guarded :
      (coro : W → Result A × W) (b : Bool × Breaker) (s : State W)
      → let (r, ws', s') = guarded n clock coro ws b s in
        warned m ws' ≡ warned m ws + (if same n m then absent r else 0)
  warned-guarded coro (true, cb) s = warned_more n m ws "Circuit breaker open"
  warned-guarded coro (false, cb) s = warned-await (coro s.world) (with_breaker n cb s)

module _ {W A : Type 0} (n : Service) (clock : Clock) (coro : W → Result A × W) (ws : List Warned)
    (s : State W) where
  -- A call warns once of its own service if it has no result, and not at all if it has one.
  pub warned-safe_call :
      (m : Service)
      → let (r, ws', s') = safe_call n clock coro ws s in
        warned m ws' ≡ warned m ws + (if same n m then absent r else 0)
  unfolding safe_call
  warned-safe_call m =
      warned-guarded n m clock ws coro (is_open clock.now clock.later (breaker n s.breakers)) s

  -- No other service's breaker is touched.
  pub breaker-safe_call_ne :
      (m : Service)
      → same n m ≡ false
      → let (r, ws', s') = safe_call n clock coro ws s in
        breaker m s'.breakers ≡ breaker m s.breakers
  unfolding safe_call
  breaker-safe_call_ne m h = ground arith
