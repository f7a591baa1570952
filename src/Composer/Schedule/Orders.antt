-- ===== src/Composer/Schedule/Orders.antt =====
-- Every order of the tasks of a phase.
use image_descriptor.Prelude.{◌≡◌, refl, String, List, [], ◌∷◌}
use image_descriptor.Prelude.Number.{Number}
use mathlib.Core.List.{Perm, Permᴰ}
use image_descriptor.Errors.{Result}
use image_descriptor.Schemas.{DescribeRequest, DescribeResponse}
use image_descriptor.Composer.{
  Service, geocoder, landcover, describer, context, mission, Clock, State,
}
use image_descriptor.Composer.Phases.{Services, compose}
use image_descriptor.Composer.Schedule.{
  Out, Inputs, Track, task, ran, ran_all, inputs_of, response_of, compose_in, first_track, vacant,
}
use image_descriptor.Composer.Schedule.Created.{compose_in-created}
use image_descriptor.Composer.Schedule.Same.{IsFree, IsSame, IsSame-refl, IsSame-trans, ran-IsSame}
use image_descriptor.Composer.Schedule.Swap.{ran_swap}

module _ {W : Type 0} (R : W → W → Type 0) (tasks : (n : Service) → W → Result (Out n) × W)
    (clocks : Service → Clock) (free : IsFree R tasks) where
  ran_all-IsSame :
      (ns : List Service) (t u : Track W)
      → IsSame R t u
      → IsSame R (ran_all tasks clocks ns t) (ran_all tasks clocks ns u)
  unfolding ran_all
  ran_all-IsSame [] t u h = h
  ran_all-IsSame (n ∷ ns) t u h =
      ran_all-IsSame ns (ran tasks clocks n t) (ran tasks clocks n u)
        (ran-IsSame R tasks clocks free n t u h)

  ran_all_perm :
      (ns ms : List Service) (t : Track W)
      → Permᴰ ns ms
      → IsSame R (ran_all tasks clocks ns t) (ran_all tasks clocks ms t)
  unfolding ran_all
  ran_all_perm ns ms t Permᴰ.nil = IsSame-refl R tasks clocks free t
  ran_all_perm (n ∷ ns) (m ∷ ms) t (Permᴰ.cons e p) =
      rw e (ran_all_perm ns ms (ran tasks clocks m t) p)
  ran_all_perm (n ∷ m ∷ ns) (m' ∷ n' ∷ _) t (Permᴰ.swap e e') =
      rw (e, e')
        (ran_all-IsSame ns (ran tasks clocks m' (ran tasks clocks n' t))
          (ran tasks clocks n' (ran tasks clocks m' t)) (ran_swap R tasks clocks free n' m' t))
  ran_all_perm ns ms t (Permᴰ.trans {l₂ = ks} p q) =
      IsSame-trans R tasks clocks free (ran_all tasks clocks ns t) (ran_all tasks clocks ks t)
        (ran_all tasks clocks ms t) (ran_all_perm ns ks t p) (ran_all_perm ks ms t q)

-- Two outcomes of a composition that differ in the order of what is listed only, and in worlds that R
-- relates.
pub record IsReordered {W : Type 0} (R : W → W → Type 0) (p q : DescribeResponse × State W)
    : Type 0 where
  pub response : p.0 ≡ record q.0 { warnings = p.0.warnings }
  pub warnings : Perm p.0.warnings q.0.warnings
  pub breakers : p.1.breakers ≡ q.1.breakers
  pub requests : p.1.requests ≡ q.1.requests
  pub labels : Perm p.1.api_requests q.1.api_requests
  pub worlds : R p.1.world q.1.world

module _ {W : Type 0} (R : W → W → Type 0) (show : Number → String) (services : Services W)
    (clocks : Service → Clock) where
  response-IsReordered :
      (t u : Track W)
      → IsSame R t u
      → IsReordered R (response_of show services clocks t) (response_of show services clocks u)
  response-IsReordered t u h = record {
    response = rw h.slots refl;
    warnings = h.warnings;
    breakers = h.breakers;
    requests = rw (h.slots, h.requests) refl;
    labels = h.labels;
    worlds = h.worlds;
  }

  module _ (request : DescribeRequest) (lon lat : Number)
      (free : (inputs : Inputs) → IsFree R (task services request lon lat inputs)) where
    -- Whatever the order in which the tasks of each phase run, provided that no two of them touch what
    -- the other reads: the response is that of the order in which the source creates them, but for the
    -- order of its warnings; the breakers and the counted requests are the same, and so are the
    -- labels of the calls but for their order; and the worlds that are left are related.
    pub compose_in-IsReordered :
        (first second : List Service) (s : State W)
        → Permᴰ first (geocoder ∷ landcover ∷ mission ∷ [])
        → Permᴰ second (describer ∷ context ∷ [])
        → IsReordered R
            (compose_in show services clocks first second request lon lat s)
            (compose show services clocks request lon lat s)
    unfolding compose_in
    compose_in-IsReordered first second s p q =
        let start : Track W = record { slots = vacant; warnings = []; state = s } in
        let t = first_track show services clocks first request lon lat s in
        let u =
          first_track show services clocks (geocoder ∷ landcover ∷ mission ∷ []) request lon lat
            s in
        let tasks = task services request lon lat (inputs_of show services clocks lon lat vacant) in
        let later =
          task services request lon lat (inputs_of show services clocks lon lat u.slots) in
        let earlier =
          task services request lon lat (inputs_of show services clocks lon lat t.slots) in
        let h = ran_all_perm R tasks clocks (free _) first _ start p in
        rw (← compose_in-created show services clocks request lon lat s) (
          response-IsReordered (ran_all earlier clocks second t)
            (ran_all later clocks (describer ∷ context ∷ []) u)
            (rw h.slots (
              IsSame-trans R later clocks (free _) (ran_all later clocks second t)
                (ran_all later clocks second u) (ran_all later clocks (describer ∷ context ∷ []) u)
                (ran_all-IsSame R later clocks (free _) second t u h)
                (ran_all_perm R later clocks (free _) second _ u q))))
