-- ===== src/Routes/Describe.antt =====
-- app/api/routes.py: `_describe_and_save`.
pub mod Recorded
use image_descriptor.Prelude.{
  String, Bool, false, ◌&&◌, Option, none, some, [], ◌∷◌, ◌++◌, if◌then◌else◌,
}
use image_descriptor.Prelude.Text.{is_truthy}
use image_descriptor.Prelude.Number.{Number}
use image_descriptor.Errors.{Result, ok, err}
use image_descriptor.Schemas.{DescribeRequest, DescribeResponse, Warned}
use image_descriptor.Composer.{Service, Clock, State}
use image_descriptor.Composer.Phases.{Services, compose_description}
use image_descriptor.Supabase.{
  Client, Settings, Outside, DescriptionRow, description_row, save_description,
}

pub record App (W : Type 0) : Type 0 where
  pub state : State W
  pub client : Client

-- What one request meets outside the process.
pub record Env (W : Type 0) : Type 0 where
  pub show : Number → String
  pub services : Services W
  pub clocks : Service → Clock
  pub settings : Settings
  pub outside : Outside
  pub execute : DescriptionRow → Result (Unit {0})

-- `if x` for an optional text
abbrev pub is_given : Option String → Bool
is_given none = false
is_given (some s) = is_truthy s

abbrev pub save_warning : Warned
save_warning = record { service = "supabase"; error = "Failed to save description to database" }

module _ {W : Type 0} where
  abbrev saved : DescribeResponse → State W → Result Bool × Client → Result DescribeResponse × App W
  saved response s (ok b, client) = (
    ok (record response {
      saved = some b;
      warnings = if b then response.warnings else response.warnings ++ save_warning ∷ [];
    }),
    record { state = s; client = client },
  )
  saved response s (err e, client) = (err e, record { state = s; client = client })

  -- `if item.cog_image_id and result.description`
  abbrev save_if_given :
      Env W
      → DescribeRequest
      → DescribeResponse
      → State W
      → Client
      → Option String
      → Result DescribeResponse × App W
  save_if_given env item response s client none =
      (ok response, record { state = s; client = client })
  save_if_given env item response s client (some id) =
      if is_truthy id && is_given response.description
      then saved response s (
          save_description env.settings env.outside env.execute
            (description_row id item.coordinates item.captured_at response.location
              response.land_cover response.description response.context)
            client)
      else (ok response, record { state = s; client = client })

  abbrev composed :
      Env W
      → DescribeRequest
      → Client
      → Result DescribeResponse × State W
      → Result DescribeResponse × App W
  composed env item client (err e, s) = (err e, record { state = s; client = client })
  composed env item client (ok response, s) =
      save_if_given env item response s client item.cog_image_id

  unfoldable pub describe_and_save :
      Env W → DescribeRequest → App W → Result DescribeResponse × App W
  unfolding compose_description save_description description_row
  describe_and_save env item app =
      composed env item app.client
        (compose_description env.show env.services env.clocks item app.state)
