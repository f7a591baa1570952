-- ===== src/Wired/Described.antt =====
-- The task that describes an image, and what leaves its description in the cache.
use image_descriptor.Prelude.{
  ◌≡◌, arith, refl, ap, ◌∙◌, String, Bool, true, false, Option, none, some, List,
}
use image_descriptor.Prelude.Text.{is_truthy}
use image_descriptor.Prelude.Number.{Number}
use image_descriptor.Errors.{Result}
use image_descriptor.Schemas.{DescribeRequest}
use image_descriptor.Cache.{fine}
use image_descriptor.Cache.Rows.{select}
use image_descriptor.Composer.{
  Service, geocoder, landcover, describer, context, mission, breaker, Clock, State,
}
use image_descriptor.Composer.Calls.{same, breaker-safe_call_ne}
use image_descriptor.Composer.Kept.{view-safe_call, safe_call-some, safe_call_closed}
use image_descriptor.Composer.Phases.{description_of, cached_of}
use image_descriptor.Composer.Schedule.{Out, Inputs, Track, task, ran}
use image_descriptor.Describer
use image_descriptor.Describer.Again.{row_of, describe_image-row, describe_image_found}
use image_descriptor.Wired.{World, Setup, Calls, wired, subject_of}
use image_descriptor.Wired.Rows.{rows, key, task-IsLocal, key_ne}

-- A state in which a description stands in its row and the describer's breaker has been closed; images are
-- the addresses that have been requested.
pub record Has (dumps : String → String) (id d : String) (images : List String) (s : State World)
    : Type 0 where
  pub row : select (Describer.cache_key id) (rows s.world) ≡ some (row_of dumps id d)
  pub closed : (breaker describer s.breakers).open_until ≡ 0
  pub quiet : s.world.images ≡ images

module _ (setup : Setup) (calls : Calls) (request : DescribeRequest) (lon lat : Number)
    (inputs : Inputs) (clocks : Service → Clock) (id : String)
    (given : request.cog_image_id ≡ some id) where
  abbrev tasks : (n : Service) → World → Result (Out n) × World
  tasks = task (wired setup calls) request lon lat inputs

  pub images-task :
      (n : Service) (w : World) → same n describer ≡ false → (tasks n w).1.images ≡ w.images
  unfolding wired
  images-task geocoder w h = refl
  images-task landcover w h = refl
  images-task describer w h = absurd (ground arith)
  images-task context w h = refl
  images-task mission w h = refl

  key-describer : key setup calls request lon lat inputs describer ≡ Describer.cache_key id
  key-describer = rw given refl

  -- Another task leaves the description, the breaker and the log of addresses as they are.
  pub ran-Has :
      (n : Service) (d : String) (images : List String) (t : Track World)
      → same n describer ≡ false
      → Has setup.dumps_description id d images t.state
      → Has setup.dumps_description id d images (ran tasks clocks n t).state
  unfolding ran
  ran-Has n d images t other h =
      let k = key setup calls request lon lat inputs in
      record {
        row = rw (← key-describer) (
            view-safe_call n (clocks n) (tasks n) (λ w. select (k describer) (rows w)) t.warnings
              t.state
              (λ w.
                (task-IsLocal setup calls request lon lat inputs n).others (k describer) w
                  (key_ne setup calls request lon lat inputs n describer other))
            ∙ rw key-describer h.row);
        closed =
            ap (λ cb. cb.open_until)
              (breaker-safe_call_ne n (clocks n) (tasks n) t.warnings t.state describer other)
            ∙ h.closed;
        quiet =
            view-safe_call n (clocks n) (tasks n) (λ w. w.images) t.warnings t.state
              (λ w. images-task n w other)
            ∙ h.quiet;
      }

  -- The task that makes a description leaves it so.
  made-Has :
      (d : String) (t : Track World)
      → is_truthy id ≡ true
      → calls.describer.set_fault ≡ fine
      → (ran tasks clocks describer t).slots.described ≡ some (d, false)
      → let s = (ran tasks clocks describer t).state in
        Has setup.dumps_description id d s.world.images s
  unfolding ran wired
  made-Has d t nonempty f e =
      let (answer, left, closed) =
        safe_call-some describer (clocks describer) (tasks describer) (d, false) t.warnings t.state
          e in
      record {
        row = rw left (
            rw given (
              describe_image-row setup.loads_description setup.dumps_description setup.network
                calls.describer id d
                (subject_of request.thumbnail inputs.place_name request.captured_at inputs.summary
                  request.bbox)
                t.state.world.cache nonempty f (rw given at answer)));
        closed = closed;
        quiet = refl;
      }

  -- The task finds the description.
  pub found_again :
      (d : String) (images : List String) (t : Track World)
      → is_truthy id ≡ true
      → setup.loads_description (setup.dumps_description d) ≡ some d
      → calls.describer.select_error ≡ none
      → Has setup.dumps_description id d images t.state
      → let u = ran tasks clocks describer t in
        (u.slots.described ≡ some (d, true)) × (u.state.world.images ≡ images)
  unfolding ran wired
  found_again d images t nonempty codec e h =
      let subject =
        subject_of request.thumbnail inputs.place_name request.captured_at inputs.summary
          request.bbox in
      let (found, no_urls) =
        describe_image_found setup.loads_description setup.dumps_description setup.network
          calls.describer id d subject t.state.world.cache nonempty codec e h.row in
      let (answer, left) =
        safe_call_closed describer (clocks describer) (tasks describer) (d, true) t.warnings t.state
          h.closed (rw given found) in
      (answer, rw left (rw given (rw no_urls h.quiet)))

  described_of :
      (o : Option (String × Bool)) (d : String)
      → description_of o ≡ some d
      → cached_of o ≡ false
      → o ≡ some (d, false)
  described_of none d e c = absurd (ground arith)
  described_of (some (x, b)) d e c = ground arith

  -- The second phase, where it makes the description, leaves it.
  pub phase-Has :
      (d : String) (t : Track World)
      → is_truthy id ≡ true
      → calls.describer.set_fault ≡ fine
      → let u = ran tasks clocks context (ran tasks clocks describer t) in
        description_of u.slots.described ≡ some d
        → cached_of u.slots.described ≡ false
        → Has setup.dumps_description id d u.state.world.images u.state
  unfolding ran
  phase-Has d t nonempty f e c =
      let v = ran tasks clocks describer t in
      let h =
        ran-Has context d v.state.world.images v refl
          (made-Has d t nonempty f (described_of v.slots.described d e c)) in
      record { row = h.row; closed = h.closed; quiet = refl }
