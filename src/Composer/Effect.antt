-- ===== src/Composer/Effect.antt =====
-- A guarded call by what it adds to the state.
use image_descriptor.Prelude.{
  ◌≡◌, refl, String, Bool, true, false, Option, none, some, List, [], ◌∷◌, ◌++◌, arith,
}
use mathlib.Core.List.{append-nil}
use image_descriptor.Errors.{Result, ok, err}
use image_descriptor.Schemas.{Warned}
use image_descriptor.Breaker.{Breaker, is_open, record_failure, record_success}
use image_descriptor.Composer.{
  Service, geocoder, landcover, describer, context, mission, Breakers, breaker, put_breaker, Clock,
  State, safe_call, warning, await, guarded,
}
use image_descriptor.Composer.Calls.{same}

-- What one call adds: its answer, its warnings, its own breaker, its labels, and the world.
pub record Effect (A W : Type 0) : Type 0 where
  pub result : Option A
  pub warned : List Warned
  pub breaker : Breaker
  pub labels : List (Service × String)
  pub world : W

module _ {A W : Type 0} (n : Service) (clock : Clock) where
  abbrev pub of_result : Breaker → Result A × W → Effect A W
  of_result cb (ok a, w) = record {
    result = some a;
    warned = [];
    breaker = record_success cb;
    labels = (n, "success") ∷ [];
    world = w;
  }
  of_result cb (err e, w) = record {
    result = none;
    warned = warning n e.text ∷ [];
    breaker = record_failure clock.failed_at cb;
    labels = (n, "error") ∷ [];
    world = w;
  }

  abbrev pub of_open : (W → Result A × W) → W → Bool × Breaker → Effect A W
  of_open coro w (true, cb) = record {
    result = none;
    warned = warning n "Circuit breaker open" ∷ [];
    breaker = cb;
    labels = [];
    world = w;
  }
  of_open coro w (false, cb) = of_result cb (coro w)

  abbrev pub effect : (W → Result A × W) → Breaker → W → Effect A W
  effect coro cb w = of_open coro w (is_open clock.now clock.later cb)

  abbrev pub applied : List Warned → State W → Effect A W → Option A × List Warned × State W
  applied ws s e = (
    e.result,
    ws ++ e.warned,
    record s {
      breakers = put_breaker n e.breaker s.breakers;
      api_requests = e.labels ++ s.api_requests;
      world = e.world;
    },
  )

pub breaker-put_breaker :
    (n : Service) (cb : Breaker) (b : Breakers) → breaker n (put_breaker n cb b) ≡ cb
breaker-put_breaker geocoder cb b = refl
breaker-put_breaker landcover cb b = refl
breaker-put_breaker describer cb b = refl
breaker-put_breaker context cb b = refl
breaker-put_breaker mission cb b = refl

put_breaker_twice :
    (n : Service) (x y : Breaker) (b : Breakers)
    → put_breaker n x (put_breaker n y b) ≡ put_breaker n x b
put_breaker_twice geocoder x y b = refl
put_breaker_twice landcover x y b = refl
put_breaker_twice describer x y b = refl
put_breaker_twice context x y b = refl
put_breaker_twice mission x y b = refl

module _ {A W : Type 0} (n : Service) (clock : Clock) (coro : W → Result A × W) (ws : List Warned)
    (s : State W) where
  await-applied :
      (cb : Breaker) (p : Result A × W)
      → await n clock p ws (record s { breakers = put_breaker n cb s.breakers })
        ≡ applied n clock ws s (of_result n clock cb p)
  await-applied cb (ok a, w) =
      rw
        (
          append-nil ws,
          breaker-put_breaker n cb s.breakers,
          put_breaker_twice n (record_success cb) cb s.breakers,
        )
        refl
  await-applied cb (err e, w) =
      rw
        (
          breaker-put_breaker n cb s.breakers,
          put_breaker_twice n (record_failure clock.failed_at cb) cb s.breakers,
        )
        refl

  guarded-applied :
      (o : Bool × Breaker)
      → guarded n clock coro ws o s ≡ applied n clock ws s (of_open n clock coro s.world o)
  guarded-applied (true, cb) = refl
  guarded-applied (false, cb) = await-applied cb (coro s.world)

  pub safe_call-applied :
      safe_call n clock coro ws s
      ≡ applied n clock ws s (effect n clock coro (breaker n s.breakers) s.world)
  unfolding safe_call
  safe_call-applied = guarded-applied (is_open clock.now clock.later (breaker n s.breakers))

pub breaker-put_breaker_ne :
    (n m : Service) (cb : Breaker) (b : Breakers)
    → same n m ≡ false
    → breaker m (put_breaker n cb b) ≡ breaker m b
breaker-put_breaker_ne n m cb b h = ground arith

pub same_swap : (n m : Service) → same n m ≡ false → same m n ≡ false
same_swap n m h = ground arith

pub put_breaker_swap :
    (n m : Service) (x y : Breaker) (b : Breakers)
    → same n m ≡ false
    → put_breaker n x (put_breaker m y b) ≡ put_breaker m y (put_breaker n x b)
put_breaker_swap n m x y b h = ground arith

-- what an effect holds besides the world
abbrev pub Parts : Type 0 → Type 0
Parts A = Option A × List Warned × Breaker × List (Service × String)

abbrev pub parts : {A W : Type 0} → Effect A W → Parts A
parts e = (e.result, e.warned, e.breaker, e.labels)

module _ {A W : Type 0} (n : Service) (clock : Clock) where
  of_result-parts :
      (cb : Breaker) (p q : Result A × W)
      → p.0 ≡ q.0
      → parts (of_result n clock cb p) ≡ parts (of_result n clock cb q)
  of_result-parts cb (ok a, w) (r, w') e = rw (← e) refl
  of_result-parts cb (err x, w) (r, w') e = rw (← e) refl

  pub of_open-parts :
      (coro : W → Result A × W) (w w' : W) (o : Bool × Breaker)
      → (coro w).0 ≡ (coro w').0
      → parts (of_open n clock coro w o) ≡ parts (of_open n clock coro w' o)
  of_open-parts coro w w' (true, cb) e = refl
  of_open-parts coro w w' (false, cb) e = of_result-parts cb (coro w) (coro w') e

  pub of_result-world : (cb : Breaker) (p : Result A × W) → (of_result n clock cb p).world ≡ p.1
  of_result-world cb (ok a, w) = refl
  of_result-world cb (err x, w) = refl
