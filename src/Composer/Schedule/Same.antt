-- ===== src/Composer/Schedule/Same.antt =====
-- Two courses of the tasks of a phase that come to the same, and a task on top of them.
use image_descriptor.Prelude.{◌≡◌, refl, sym, ◌∙◌, ap, Bool, true, false}
use mathlib.Core.List.Perm
use mathlib.Core.List.{Perm}
use image_descriptor.Errors.{Result}
use image_descriptor.Breaker.{Breaker, is_open}
use image_descriptor.Composer.{Service, breaker, Clock}
use image_descriptor.Composer.Calls.{same}
use image_descriptor.Composer.Effect.{
  Effect, of_open, effect, applied, Parts, parts, safe_call-applied, of_open-parts, of_result-world,
}
use image_descriptor.Composer.Order.{IsIndependent}
use image_descriptor.Composer.Schedule.{Out, Track, ended, ran}

-- Worlds that no task can tell apart, by R, and tasks that do not touch what another one reads.
pub record IsFree {W : Type 0} (R : W → W → Type 0) (tasks : (n : Service) → W → Result (Out n) × W)
    : Type 0 where
  pub alike : (n : Service) (w v : W) → R w v → (tasks n w).0 ≡ (tasks n v).0
  pub kept : (n : Service) (w v : W) → R w v → R (tasks n w).1 (tasks n v).1
  pub apart : (n m : Service) → same n m ≡ false → IsIndependent R (tasks n) (tasks m)
  pub transitive : (u v w : W) → R u v → R v w → R u w
  pub reflexive : (w : W) → R w w

-- The same results, breakers and counted requests; the same warnings and labels of calls in some order;
-- and worlds that R relates.
pub record IsSame {W : Type 0} (R : W → W → Type 0) (t u : Track W) : Type 0 where
  pub slots : t.slots ≡ u.slots
  pub breakers : t.state.breakers ≡ u.state.breakers
  pub requests : t.state.requests ≡ u.state.requests
  pub worlds : R t.state.world u.state.world
  pub warnings : Perm t.warnings u.warnings
  pub labels : Perm t.state.api_requests u.state.api_requests

module _ {W : Type 0} (R : W → W → Type 0) (tasks : (n : Service) → W → Result (Out n) × W)
    (clocks : Service → Clock) (free : IsFree R tasks) where
  pub IsSame-refl : (t : Track W) → IsSame R t t
  IsSame-refl t = record {
    slots = refl;
    breakers = refl;
    requests = refl;
    worlds = free.reflexive t.state.world;
    warnings = Perm.refl t.warnings;
    labels = Perm.refl t.state.api_requests;
  }

  pub IsSame-trans : (t u v : Track W) → IsSame R t u → IsSame R u v → IsSame R t v
  IsSame-trans t u v p q = record {
    slots = p.slots ∙ q.slots;
    breakers = p.breakers ∙ q.breakers;
    requests = p.requests ∙ q.requests;
    worlds = free.transitive t.state.world u.state.world v.state.world p.worlds q.worlds;
    warnings = Perm.trans p.warnings q.warnings;
    labels = Perm.trans p.labels q.labels;
  }

  worlds-of_open :
      (n : Service) (w v : W) (o : Bool × Breaker)
      → R w v
      → R (of_open n (clocks n) (tasks n) w o).world (of_open n (clocks n) (tasks n) v o).world
  worlds-of_open n w v (true, cb) h = h
  worlds-of_open n w v (false, cb) h =
      rw (of_result-world n (clocks n) cb (tasks n w), of_result-world n (clocks n) cb (tasks n v))
        (free.kept n w v h)

  applied-IsSame :
      (n : Service) (t u : Track W) (e f : Effect (Out n) W)
      → IsSame R t u
      → parts e ≡ parts f
      → R e.world f.world
      → IsSame R
          (ended tasks clocks n t.slots (applied n (clocks n) t.warnings t.state e))
          (ended tasks clocks n u.slots (applied n (clocks n) u.warnings u.state f))
  applied-IsSame n t u e f h p r =
      let result_e : e.result ≡ f.result = ap (λ (x : Parts (Out n)). x.0) p in
      let warned_e : e.warned ≡ f.warned = ap (λ (x : Parts (Out n)). x.1) p in
      let breaker_e : e.breaker ≡ f.breaker = ap (λ (x : Parts (Out n)). x.2) p in
      let labels_e : e.labels ≡ f.labels = ap (λ (x : Parts (Out n)). x.3) p in
      record {
        slots = rw (result_e, h.slots) refl;
        breakers = rw (breaker_e, h.breakers) refl;
        requests = h.requests;
        worlds = r;
        warnings = rw warned_e (Perm.append_right f.warned h.warnings);
        labels = rw labels_e (Perm.append_left f.labels h.labels);
      }

  -- Tracks that come to the same still do so after one more task.
  pub ran-IsSame :
      (n : Service) (t u : Track W)
      → IsSame R t u
      → IsSame R (ran tasks clocks n t) (ran tasks clocks n u)
  unfolding ran
  ran-IsSame n t u h =
      let o = is_open (clocks n).now (clocks n).later (breaker n t.state.breakers) in
      let w = t.state.world in
      let v = u.state.world in
      rw
        (
          safe_call-applied n (clocks n) (tasks n) t.warnings t.state,
          safe_call-applied n (clocks n) (tasks n) u.warnings u.state,
        )
        (applied-IsSame n t u (effect n (clocks n) (tasks n) (breaker n t.state.breakers) w)
          (effect n (clocks n) (tasks n) (breaker n u.state.breakers) v) h
          (rw (sym h.breakers)
            (of_open-parts n (clocks n) (tasks n) w v o (free.alike n w v h.worlds)))
          (rw (sym h.breakers) (worlds-of_open n w v o h.worlds)))
