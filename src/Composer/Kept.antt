-- ===== src/Composer/Kept.antt =====
-- What a guarded call leaves of the world, and what it leaves when its service answers.
use image_descriptor.Prelude.{ℕ, ◌≡◌, refl, Bool, true, false, some, List, arith}
use image_descriptor.Errors.{Result, ok, err}
use image_descriptor.Schemas.{Warned}
use image_descriptor.Breaker.{Breaker, is_open, record_success}
use image_descriptor.Composer.{Service, breaker, Clock, State, safe_call}
use image_descriptor.Composer.Effect.{
  Effect, of_open, of_result, effect, safe_call-applied, of_result-world, breaker-put_breaker,
}

is_open_closed :
    (now later : ℕ) (cb : Breaker) → cb.open_until ≡ 0 → is_open now later cb ≡ (false, cb)
unfolding is_open
is_open_closed now later cb h = ground arith

module _ {A W : Type 0} (n : Service) (clock : Clock) (coro : W → Result A × W) where
  view-of_open :
      {X : Type 0} (view : W → X) (w : W) (o : Bool × Breaker)
      → ((w : W) → view (coro w).1 ≡ view w)
      → view (of_open n clock coro w o).world ≡ view w
  view-of_open view w (true, cb) h = refl
  view-of_open view w (false, cb) h = rw (of_result-world n clock cb (coro w)) (h w)

  -- What the coroutine leaves alone, the guarded call leaves alone.
  pub view-safe_call :
      {X : Type 0} (view : W → X) (ws : List Warned) (s : State W)
      → ((w : W) → view (coro w).1 ≡ view w)
      → view (safe_call n clock coro ws s).2.world ≡ view s.world
  view-safe_call view ws s h =
      rw (safe_call-applied n clock coro ws s)
        (view-of_open view s.world (is_open clock.now clock.later (breaker n s.breakers)) h)

  -- An answer of the guarded call is one of the coroutine, and closes the breaker.
  pub IsAnswer : A → W → Effect A W → Type 0
  IsAnswer a w e = ((coro w).0 ≡ ok a) × (e.world ≡ (coro w).1) × (e.breaker.open_until ≡ 0)

  of_result-IsAnswer :
      (a : A) (w : W) (cb : Breaker) (p : Result A × W)
      → coro w ≡ p
      → (of_result n clock cb p).result ≡ some a
      → IsAnswer a w (of_result n clock cb p)
  unfolding IsAnswer record_success
  of_result-IsAnswer a w cb (ok x, v) e h = rw e (ground (arith, h), refl, refl)
  of_result-IsAnswer a w cb (err x, v) e h = absurd (ground arith)

  of_open-IsAnswer :
      (a : A) (w : W) (o : Bool × Breaker)
      → (of_open n clock coro w o).result ≡ some a
      → IsAnswer a w (of_open n clock coro w o)
  of_open-IsAnswer a w (true, cb) h = absurd (ground arith)
  of_open-IsAnswer a w (false, cb) h = of_result-IsAnswer a w cb (coro w) refl h

  pub safe_call-some :
      (a : A) (ws : List Warned) (s : State W)
      → (safe_call n clock coro ws s).0 ≡ some a
      → let s' = (safe_call n clock coro ws s).2 in
        ((coro s.world).0 ≡ ok a)
        × (s'.world ≡ (coro s.world).1)
        × ((breaker n s'.breakers).open_until ≡ 0)
  unfolding IsAnswer
  safe_call-some a ws s h =
      let e = effect n clock coro (breaker n s.breakers) s.world in
      rw (safe_call-applied n clock coro ws s) (
        rw (breaker-put_breaker n e.breaker s.breakers) (
          of_open-IsAnswer a s.world (is_open clock.now clock.later (breaker n s.breakers))
            (rw (safe_call-applied n clock coro ws s) at h)))

  -- A breaker that has not been opened lets the call through.
  of_result-some :
      (a : A) (cb : Breaker) (p : Result A × W)
      → p.0 ≡ ok a
      → ((of_result n clock cb p).result ≡ some a) × ((of_result n clock cb p).world ≡ p.1)
  of_result-some a cb (r, v) h = rw h (refl, refl)

  effect_closed :
      (a : A) (w : W) (cb : Breaker)
      → cb.open_until ≡ 0
      → (coro w).0 ≡ ok a
      → ((effect n clock coro cb w).result ≡ some a)
        × ((effect n clock coro cb w).world ≡ (coro w).1)
  effect_closed a w cb closed h =
      rw (is_open_closed clock.now clock.later cb closed) (of_result-some a cb (coro w) h)

  pub safe_call_closed :
      (a : A) (ws : List Warned) (s : State W)
      → (breaker n s.breakers).open_until ≡ 0
      → (coro s.world).0 ≡ ok a
      → let (r, ws', s') = safe_call n clock coro ws s in
        (r ≡ some a) × (s'.world ≡ (coro s.world).1)
  safe_call_closed a ws s closed h =
      rw (safe_call-applied n clock coro ws s)
        (effect_closed a s.world (breaker n s.breakers) closed h)
