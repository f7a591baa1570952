-- ===== src/Composer/Fresh.antt =====
-- A composed response has not been saved.
use image_descriptor.Prelude.{◌≡◌, refl, String, none, List, [], ◌∷◌, arith}
use image_descriptor.Prelude.Number.{Number}
use image_descriptor.Errors.{ok}
use image_descriptor.Schemas.{DescribeRequest, DescribeResponse}
use image_descriptor.Composer.{Service, Clock, State}
use image_descriptor.Composer.Phases.{Services, compose, unpacked, compose_description}

-- a response in whose place another may stand
saved_of : (a x : DescribeResponse) → a.saved ≡ none → ok a ≡ ok x → x.saved ≡ none
saved_of a x h e = let same : a ≡ x = ground arith in rw (← same) h

module _ {W : Type 0} (show : Number → String) (services : Services W) (clocks : Service → Clock)
    (request : DescribeRequest) where
  compose-saved :
      (lon lat : Number) (s : State W)
      → (compose show services clocks request lon lat s).0.saved ≡ none
  unfolding compose
  compose-saved lon lat s = refl

  unpacked-saved :
      (coordinates : List Number) (s : State W) (x : DescribeResponse)
      → (unpacked show services clocks request coordinates s).0 ≡ ok x
      → x.saved ≡ none
  unpacked-saved [] s x e = absurd (ground arith)
  unpacked-saved (lon ∷ []) s x e = absurd (ground arith)
  unpacked-saved (lon ∷ lat ∷ []) s x e =
      saved_of (compose show services clocks request lon lat s).0 x (compose-saved lon lat s) e
  unpacked-saved (lon ∷ lat ∷ alt ∷ rest) s x e = absurd (ground arith)

  pub compose_description-saved :
      (s : State W) (x : DescribeResponse)
      → (compose_description show services clocks request s).0 ≡ ok x
      → x.saved ≡ none
  unfolding compose_description
  compose_description-saved s x e = unpacked-saved request.coordinates s x e
