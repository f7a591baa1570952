-- ===== src/Composer/Order.antt =====
-- Two guarded calls in either order, as the event loop may run them.
use image_descriptor.Prelude.{◌≡◌, refl, sym, ap, String, Bool, true, false, Option, List, ◌++◌}
use mathlib.Core.List.{append_assoc}
use image_descriptor.Errors.{Result}
use image_descriptor.Schemas.{Warned}
use image_descriptor.Breaker.{Breaker, is_open}
use image_descriptor.Composer.{Service, breaker, Clock, State, safe_call}
use image_descriptor.Composer.Effect.{
  Effect, of_result, of_open, effect, applied, Parts, parts, safe_call-applied,
  breaker-put_breaker_ne, same_swap, put_breaker_swap, of_open-parts, of_result-world,
}
use image_descriptor.Composer.Calls.{same}

-- Two services that do not read what the other one writes: each answers alike before and after the
-- other, and the two orders leave worlds that R relates.
pub record IsIndependent {W A B : Type 0} (R : W → W → Type 0) (a : W → Result A × W)
    (b : W → Result B × W) : Type 0 where
  pub left : (w : W) → (a (b w).1).0 ≡ (a w).0
  pub right : (w : W) → (b (a w).1).0 ≡ (b w).0
  pub both : (w : W) → R (b (a w).1).1 (a (b w).1).1
  pub reflexive : (w : W) → R w w

-- Two calls in one order, p and then q, and in the other, q' and then p', from warnings ws and a state s.
pub record IsSwapped {W A B : Type 0} (R : W → W → Type 0) (ws : List Warned) (s : State W)
    (p : Option A × List Warned × State W) (q : Option B × List Warned × State W)
    (q' : Option B × List Warned × State W) (p' : Option A × List Warned × State W) : Type 0 where
  pub first : p'.0 ≡ p.0
  pub second : q'.0 ≡ q.0
  pub breakers : p'.2.breakers ≡ q.2.breakers
  pub requests : p'.2.requests ≡ q.2.requests
  pub worlds : R q.2.world p'.2.world
  pub warnings : (x y : List Warned) × (q.1 ≡ ws ++ (x ++ y)) × (p'.1 ≡ ws ++ (y ++ x))
  pub labels :
      (x y : List (Service × String)) × (q.2.api_requests ≡ y ++ (x ++ s.api_requests))
      × (p'.2.api_requests ≡ x ++ (y ++ s.api_requests))

module _ {W A B : Type 0} (R : W → W → Type 0) (n m : Service) (c d : Clock) (a : W → Result A × W)
    (b : W → Result B × W) (ind : IsIndependent R a b) where
  answer-after : (w : W) (o : Bool × Breaker) → (a (of_open m d b w o).world).0 ≡ (a w).0
  answer-after w (true, cb) = refl
  answer-after w (false, cb) = rw (of_result-world m d cb (b w)) (ind.left w)

  answer-before : (w : W) (o : Bool × Breaker) → (b (of_open n c a w o).world).0 ≡ (b w).0
  answer-before w (true, cb) = refl
  answer-before w (false, cb) = rw (of_result-world n c cb (a w)) (ind.right w)

  both-worlds :
      (w : W) (o o' : Bool × Breaker)
      → R
          (of_open m d b (of_open n c a w o).world o').world
          (of_open n c a (of_open m d b w o').world o).world
  both-worlds w (true, x) (true, y) = ind.reflexive w
  both-worlds w (true, x) (false, y) = ind.reflexive (of_result m d y (b w)).world
  both-worlds w (false, x) (true, y) = ind.reflexive (of_result n c x (a w)).world
  both-worlds w (false, x) (false, y) =
      rw (of_result-world n c x (a w), of_result-world m d y (b w))
        (rw (of_result-world m d y (b (a w).1), of_result-world n c x (a (b w).1)) (ind.both w))

  module _ (ws : List Warned) (s : State W) (differ : same n m ≡ false) where
    applied-IsSwapped :
        (e e1 : Effect A W) (f f1 : Effect B W)
        → parts e1 ≡ parts e
        → parts f1 ≡ parts f
        → R f1.world e1.world
        → IsSwapped R ws s
            (applied n c ws s e)
            (applied m d (ws ++ e.warned) (applied n c ws s e).2 f1)
            (applied m d ws s f)
            (applied n c (ws ++ f.warned) (applied m d ws s f).2 e1)
    applied-IsSwapped e e1 f f1 pe pf r =
        let breaker_e : e1.breaker ≡ e.breaker = ap (λ (t : Parts A). t.2) pe in
        let breaker_f : f1.breaker ≡ f.breaker = ap (λ (t : Parts B). t.2) pf in
        let warned_e : e1.warned ≡ e.warned = ap (λ (t : Parts A). t.1) pe in
        let warned_f : f1.warned ≡ f.warned = ap (λ (t : Parts B). t.1) pf in
        let labels_e : e1.labels ≡ e.labels = ap (λ (t : Parts A). t.3) pe in
        let labels_f : f1.labels ≡ f.labels = ap (λ (t : Parts B). t.3) pf in
        record {
          first = ap (λ (t : Parts A). t.0) pe;
          second = ap (λ (t : Parts B). t.0) (sym pf);
          breakers =
              rw (breaker_e, breaker_f)
                (put_breaker_swap n m e.breaker f.breaker s.breakers differ);
          requests = refl;
          worlds = r;
          warnings = (
            e.warned,
            f.warned,
            rw warned_f (append_assoc ws e.warned f.warned),
            rw warned_e (append_assoc ws f.warned e.warned),
          );
          labels = (e.labels, f.labels, rw labels_f refl, rw labels_e refl);
        }

    -- Two guarded calls of different services that are independent may run in either order: each gives
    -- the same answer, every breaker and the counters of requests end alike, the warnings and the labels
    -- of the calls are the same but for the order of the two calls, and the worlds are related as those
    -- of the services.
    pub safe_call-IsSwapped :
        let p = safe_call n c a ws s in
        let q = safe_call m d b p.1 p.2 in
        let q' = safe_call m d b ws s in
        let p' = safe_call n c a q'.1 q'.2 in IsSwapped R ws s p q q' p'
    safe_call-IsSwapped =
        let e = effect n c a (breaker n s.breakers) s.world in
        let f = effect m d b (breaker m s.breakers) s.world in
        let o = is_open c.now c.later (breaker n s.breakers) in
        let o' = is_open d.now d.later (breaker m s.breakers) in
        let be = breaker-put_breaker_ne m n f.breaker s.breakers (same_swap n m differ) in
        let bf = breaker-put_breaker_ne n m e.breaker s.breakers differ in
        let s_e = (applied n c ws s e).2 in
        let s_f = (applied m d ws s f).2 in
        let e1 = effect n c a (breaker n s_f.breakers) s_f.world in
        let f1 = effect m d b (breaker m s_e.breakers) s_e.world in
        rw (safe_call-applied n c a ws s, safe_call-applied m d b ws s)
          (rw
            (
              safe_call-applied m d b (ws ++ e.warned) s_e,
              safe_call-applied n c a (ws ++ f.warned) s_f,
            )
            (applied-IsSwapped e e1 f f1
              (rw be (of_open-parts n c a f.world s.world o (answer-after s.world o')))
              (rw bf (of_open-parts m d b e.world s.world o' (answer-before s.world o)))
              (rw (be, bf) (both-worlds s.world o o'))))
