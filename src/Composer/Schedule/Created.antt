-- ===== src/Composer/Schedule/Created.antt =====
-- The order in which the source creates the tasks is one of the orders.
use image_descriptor.Prelude.{◌≡◌, refl, String, [], ◌∷◌}
use image_descriptor.Prelude.Number.{Number}
use image_descriptor.Schemas.{DescribeRequest}
use image_descriptor.Composer.{
  Service, geocoder, landcover, describer, context, mission, Clock, State,
}
use image_descriptor.Composer.Phases.{Services, compose}
use image_descriptor.Composer.Schedule.{compose_in}

module _ {W : Type 0} (show : Number → String) (services : Services W) (clocks : Service → Clock)
    (request : DescribeRequest) (lon lat : Number) where
  pub compose_in-created :
      (s : State W)
      → compose_in show services clocks
          (geocoder ∷ landcover ∷ mission ∷ [])
          (describer ∷ context ∷ [])
          request
          lon
          lat
          s
        ≡ compose show services clocks request lon lat s
  unfolding compose compose_in
  compose_in-created s = refl
