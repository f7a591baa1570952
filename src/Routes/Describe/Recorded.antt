-- ===== src/Routes/Describe/Recorded.antt =====
-- What `saved` tells of the database.
use image_descriptor.Prelude.{
  ◌≡◌, refl, String, Bool, true, false, ◌&&◌, Option, none, some, List, [], ◌∷◌, ◌++◌, arith,
  Bool-cases, inl, inr,
}
use image_descriptor.Prelude.Text.{is_truthy}
use image_descriptor.Errors.{Result, ok, err}
use image_descriptor.Schemas.{DescribeRequest, DescribeResponse, Warned}
use image_descriptor.Composer.{State}
use image_descriptor.Composer.Phases.{compose_description}
use image_descriptor.Composer.Fresh.{compose_description-saved}
use image_descriptor.Supabase.{Client, DescriptionRow, description_row, save_description}
use image_descriptor.Supabase.Saved.{save_description-true}
use image_descriptor.Routes.Describe.{
  App, Env, is_given, save_warning, saved, save_if_given, composed, describe_and_save,
}

abbrev pub row_of : String → DescribeRequest → DescribeResponse → DescriptionRow
unfolding description_row
row_of id item r =
    description_row id item.coordinates item.captured_at r.location r.land_cover r.description
      r.context

-- `if item.cog_image_id and result.description`
abbrev pub to_save : DescribeRequest → DescribeResponse → Bool
to_save item r = is_given item.cog_image_id && is_given r.description

module _ {W : Type 0} where
  -- what a value of `saved` says, for the database's client before and after
  abbrev pub IsRecorded :
      Env W → DescribeRequest → DescribeResponse → Client → Client → Option Bool → Type 0
  IsRecorded env item r before after none = (after ≡ before) × (to_save item r ≡ false)
  IsRecorded env item r before after (some true) =
      (id : String) × (item.cog_image_id ≡ some id) × (env.execute (row_of id item r) ≡ ok tt)
  IsRecorded env item r before after (some false) =
      (ws : List Warned) × (r.warnings ≡ ws ++ (save_warning ∷ []))

  -- what a request answers that is not saved
  abbrev kept : DescribeResponse → State W → Client → Result DescribeResponse × App W
  kept response s client = (ok response, record { state = s; client = client })

  saved-IsRecorded :
      (env : Env W) (item : DescribeRequest) (id : String) (response r : DescribeResponse)
      (s : State W) (before : Client) (q : Result Bool × Client) (app' : App W)
      → item.cog_image_id ≡ some id
      → (q.0 ≡ ok true → env.execute (row_of id item response) ≡ ok tt)
      → saved response s q ≡ (ok r, app')
      → IsRecorded env item r before app'.client r.saved
  unfolding row_of
  saved-IsRecorded env item id response r s before (ok true, c) app' given h e =
      rw (← same) (id, given, h refl)
    where
      same : record response { saved = some true } ≡ r
      same = ground arith
  saved-IsRecorded env item id response r s before (ok false, c) app' given h e =
      rw (← same) (response.warnings, refl)
    where
      same :
          record response {
            saved = some false;
            warnings = response.warnings ++ (save_warning ∷ []);
          }
          ≡ r
      same = ground arith
  saved-IsRecorded env item id response r s before (err x, c) app' given h e = absurd (ground arith)

  kept-IsRecorded :
      (env : Env W) (item : DescribeRequest) (r : DescribeResponse) (before after : Client)
      (o : Option Bool)
      → o ≡ none
      → to_save item r ≡ false
      → after ≡ before
      → IsRecorded env item r before after o
  kept-IsRecorded env item r before after none e h same = (same, h)
  kept-IsRecorded env item r before after (some b) e h same = absurd (ground arith)

  unsaved-IsRecorded :
      (env : Env W) (item : DescribeRequest) (response r : DescribeResponse) (s : State W)
      (client : Client) (app' : App W)
      → response.saved ≡ none
      → to_save item response ≡ false
      → kept response s client ≡ (ok r, app')
      → IsRecorded env item r client app'.client r.saved
  unsaved-IsRecorded env item response r s client app' fresh h e =
      let same : response ≡ r = ground arith in
      rw (← same)
        (kept-IsRecorded env item response client app'.client response.saved fresh h (ground arith))

  save_if_given-IsRecorded :
      (env : Env W) (item : DescribeRequest) (response r : DescribeResponse) (s : State W)
      (client : Client) (o : Option String) (app' : App W)
      → response.saved ≡ none
      → item.cog_image_id ≡ o
      → save_if_given env item response s client o ≡ (ok r, app')
      → IsRecorded env item r client app'.client r.saved
  unfolding row_of description_row
  save_if_given-IsRecorded env item response r s client none app' fresh given e =
      unsaved-IsRecorded env item response r s client app' fresh (rw given refl) e
  save_if_given-IsRecorded env item response r s client (some id) app' fresh given e =
      elim (Bool-cases (is_truthy id && is_given response.description)) [
        | inr h ↦
            unsaved-IsRecorded env item response r s client app' fresh (rw given h) (rw h at e)
        | inl h ↦
            saved-IsRecorded env item id response r s client
              (save_description env.settings env.outside env.execute (row_of id item response)
                client)
              app' given
              (save_description-true env.settings env.outside env.execute (row_of id item response)
                client)
              (rw h at e)
      ]

  composed-IsRecorded :
      (env : Env W) (item : DescribeRequest) (r : DescribeResponse) (client : Client)
      (q : Result DescribeResponse × State W) (app' : App W)
      → ((x : DescribeResponse) → q.0 ≡ ok x → x.saved ≡ none)
      → composed env item client q ≡ (ok r, app')
      → IsRecorded env item r client app'.client r.saved
  composed-IsRecorded env item r client (err x, s) app' fresh e = absurd (ground arith)
  composed-IsRecorded env item r client (ok response, s) app' fresh e =
      save_if_given-IsRecorded env item response r s client item.cog_image_id app'
        (fresh response refl) refl e

  -- A described request tells the truth of the database. Where `saved` is not set, the request has no
  -- image id or the response no description, and the database's client is as it was; where it is true,
  -- the row of this request and this response was written without an error; where it is false, a
  -- warning of supabase ends the response's warnings.
  pub describe_and_save-IsRecorded :
      (env : Env W) (item : DescribeRequest) (app app' : App W) (r : DescribeResponse)
      → describe_and_save env item app ≡ (ok r, app')
      → IsRecorded env item r app.client app'.client r.saved
  unfolding describe_and_save
  describe_and_save-IsRecorded env item app app' r e =
      composed-IsRecorded env item r app.client
        (compose_description env.show env.services env.clocks item app.state) app'
        (compose_description-saved env.show env.services env.clocks item app.state) e
