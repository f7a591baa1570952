-- ===== src/Wired/Again.antt =====
-- A second composition for an image that has been described.
use image_descriptor.Prelude.{◌≡◌, refl, ◌∙◌, String, true, false, none, some, [], ◌∷◌}
use image_descriptor.Prelude.Text.{is_truthy}
use image_descriptor.Prelude.Number.{Number}
use image_descriptor.Schemas.{DescribeRequest, DescribeResponse}
use image_descriptor.Cache.{fine}
use image_descriptor.Composer.{
  Service, geocoder, landcover, describer, context, mission, Clock, State,
}
use image_descriptor.Composer.Kept.{view-safe_call}
use image_descriptor.Composer.Phases.{compose}
use image_descriptor.Composer.Schedule.{
  Track, task, ran, ran_all, inputs_of, vacant, compose_in, first_track,
}
use image_descriptor.Composer.Schedule.Created.{compose_in-created}
use image_descriptor.Wired.{World, Setup, Calls, wired}
use image_descriptor.Wired.Described.{Has, images-task, ran-Has, found_again, phase-Has}

module _ (setup : Setup) (show : Number → String) where
  abbrev created :
      Calls
      → (Service → Clock)
      → DescribeRequest
      → Number
      → Number
      → State World
      → DescribeResponse × State World
  created calls clocks =
      compose_in show (wired setup calls) clocks (geocoder ∷ landcover ∷ mission ∷ [])
        (describer ∷ context ∷ [])

  made-created :
      (calls : Calls) (clocks : Service → Clock) (request : DescribeRequest) (lon lat : Number)
      (id d : String) (s : State World)
      → request.cog_image_id ≡ some id
      → is_truthy id ≡ true
      → calls.describer.set_fault ≡ fine
      → let (r, s') = created calls clocks request lon lat s in
        r.description ≡ some d
        → r.cached ≡ false
        → Has setup.dumps_description id d s'.world.images s'
  unfolding compose_in ran_all
  made-created calls clocks request lon lat id d s given nonempty f e c =
      let t =
        first_track show (wired setup calls) clocks (geocoder ∷ landcover ∷ mission ∷ []) request
          lon lat s in
      let inputs = inputs_of show (wired setup calls) clocks lon lat t.slots in
      let h = phase-Has setup calls request lon lat inputs clocks id given d t nonempty f e c in
      record { row = h.row; closed = h.closed; quiet = refl }

  found_created :
      (calls : Calls) (clocks : Service → Clock) (request : DescribeRequest) (lon lat : Number)
      (id d : String) (s : State World)
      → request.cog_image_id ≡ some id
      → is_truthy id ≡ true
      → setup.loads_description (setup.dumps_description d) ≡ some d
      → calls.describer.select_error ≡ none
      → Has setup.dumps_description id d s.world.images s
      → let (r, s') = created calls clocks request lon lat s in
        (r.description ≡ some d) × (r.cached ≡ true) × (s'.world.images ≡ s.world.images)
  unfolding compose_in ran_all ran
  found_created calls clocks request lon lat id d s given nonempty codec e h =
      let images = s.world.images in
      let early = inputs_of show (wired setup calls) clocks lon lat vacant in
      let t0 : Track World = record { slots = vacant; warnings = []; state = s } in
      let run = ran (task (wired setup calls) request lon lat early) clocks in
      let keep = ran-Has setup calls request lon lat early clocks id given in
      let h3 =
        keep mission d images (run landcover (run geocoder t0)) refl
          (keep landcover d images (run geocoder t0) refl (keep geocoder d images t0 refl h)) in
      let t3 = run mission (run landcover (run geocoder t0)) in
      let inputs = inputs_of show (wired setup calls) clocks lon lat t3.slots in
      let t4 = ran (task (wired setup calls) request lon lat inputs) clocks describer t3 in
      let (found, quiet) =
        found_again setup calls request lon lat inputs clocks id given d images t3 nonempty codec e
          h3 in
      (
        rw found refl,
        rw found refl,
        view-safe_call context (clocks context)
              (task (wired setup calls) request lon lat inputs context) (λ w. w.images) t4.warnings
              t4.state
              (λ w. images-task setup calls request lon lat inputs clocks id given context w refl)
            ∙ quiet,
      )

  -- Where a description is made for an image, and stored in the cache, the next composition, if it is for
  -- the same image and its read of the describer's row does not fail, gives that description back, marked
  -- as cached, whatever else that request holds, whatever the services answer then and whenever it
  -- comes; the breaker does not refuse it, and no address is requested for its thumbnail. The image's
  -- id is not empty, and the JSON codec is taken to give the description back.
  pub compose_again :
      (calls again : Calls) (request other : DescribeRequest) (lon lat lon' lat' : Number)
      (clocks later : Service → Clock) (id d : String) (s s' : State World) (r : DescribeResponse)
      → request.cog_image_id ≡ some id
      → other.cog_image_id ≡ some id
      → is_truthy id ≡ true
      → setup.loads_description (setup.dumps_description d) ≡ some d
      → calls.describer.set_fault ≡ fine
      → again.describer.select_error ≡ none
      → compose show (wired setup calls) clocks request lon lat s ≡ (r, s')
      → r.description ≡ some d
      → r.cached ≡ false
      → let (r2, s2) = compose show (wired setup again) later other lon' lat' s' in
        (r2.description ≡ some d) × (r2.cached ≡ true) × (s2.world.images ≡ s'.world.images)
  compose_again calls again request other lon lat lon' lat' clocks later id d s s' r given given'
        nonempty codec f e first made fresh =
      let same = compose_in-created show (wired setup calls) clocks request lon lat s ∙ first in
      let h : Has setup.dumps_description id d s'.world.images s' = rw same at (
        made-created calls clocks request lon lat id d s given nonempty f (rw same made)
          (rw same fresh)) in
      rw (← compose_in-created show (wired setup again) later other lon' lat' s')
        (found_created again later other lon' lat' id d s' given' nonempty codec e h)
