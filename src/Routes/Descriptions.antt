-- ===== src/Routes/Descriptions.antt =====
-- app/api/routes.py: the endpoints over the stored descriptions.
use image_descriptor.Prelude.{
  ℕ, ◌≡◌, ◌⊎◌, String, Bool, true, false, Option, none, some, List, arith, if◌then◌else◌,
}
use image_descriptor.Prelude.Text.{join}
use image_descriptor.Errors.{
  Error, Result, ok, err, descriptor_error, is_os_error, is_connection_error,
}
use image_descriptor.Supabase.{Client, Settings, Outside}
use image_descriptor.Supabase.Queries.{
  Page, Answer, ListQuery, list_descriptions, get_description, delete_description,
}

abbrev pub not_found : String → Error
not_found id = record {
  kind = descriptor_error 404 "NOT_FOUND";
  text = join "Description not found for cog_image_id: " id;
}

abbrev pub internal_error : Error
internal_error = record {
  kind = descriptor_error 500 "INTERNAL_ERROR";
  text = "Failed to delete description due to a database error";
}

-- `DescriptionListResponse`
pub record ListResponse (Item : Type 0) : Type 0 where
  pub items : List Item
  pub total : ℕ
  pub offset : ℕ
  pub limit : ℕ

-- `except (ConnectionError, TimeoutError, OSError)`
abbrev deleted : String → Result Bool × Client → Result (Unit {0}) × Client
deleted id (ok true, s) = (ok tt, s)
deleted id (ok false, s) = (err (not_found id), s)
deleted id (err e, s) = if is_os_error e.kind then (err internal_error, s) else (err e, s)

module _ {Item : Type 0} where
  abbrev listed : ℕ → ℕ → Result (Page Item) × Client → Result (ListResponse Item) × Client
  listed offset limit (ok p, s) =
      (ok (record { items = p.items; total = p.total; offset = offset; limit = limit }), s)
  listed offset limit (err e, s) = (err e, s)

  unfoldable pub list_endpoint :
      Settings
      → Outside
      → (ListQuery → Result (Answer Item))
      → ℕ
      → ℕ
      → Option String
      → Option String
      → Client
      → Result (ListResponse Item) × Client
  unfolding list_descriptions
  list_endpoint cfg out execute offset limit after before s =
      listed offset limit (list_descriptions cfg out execute offset limit after before s)

  abbrev found : String → Result (Option Item) × Client → Result Item × Client
  found id (ok none, s) = (err (not_found id), s)
  found id (ok (some item), s) = (ok item, s)
  found id (err e, s) = (err e, s)

  unfoldable pub get_endpoint :
      Settings → Outside → (String → Result (List Item)) → String → Client → Result Item × Client
  unfolding get_description
  get_endpoint cfg out execute id s = found id (get_description cfg out execute id s)

  unfoldable pub delete_endpoint :
      Settings
      → Outside
      → (String → Result (List Item))
      → String
      → Client
      → Result (Unit {0}) × Client
  unfolding delete_description
  delete_endpoint cfg out execute id s = deleted id (delete_description cfg out execute id s)

  -- With a connected client, a deletion that the database refuses with any error but a
  -- `ConnectionError` is answered by 404 NOT_FOUND, as if there were no such description, and not
  -- by the 500 of a database error.
  pub delete_error_not_found :
      (cfg : Settings) (out : Outside) (execute : String → Result (List Item)) (id : String)
      (s : Client) (e : Error)
      → s.connected ≡ true
      → execute id ≡ err e
      → is_connection_error e.kind ≡ false
      → (delete_endpoint cfg out execute id s).0 ≡ err (not_found id)
  unfolding delete_endpoint
  delete_error_not_found cfg out execute id s e c h k = ground arith

  -- A deletion answers 204, 404 or 500, and nothing else.
  pub delete_endpoint_errors :
      (cfg : Settings) (out : Outside) (execute : String → Result (List Item)) (id : String)
      (s : Client)
      → ((delete_endpoint cfg out execute id s).0 ≡ ok tt)
        ⊎ ((delete_endpoint cfg out execute id s).0 ≡ err (not_found id))
        ⊎ ((delete_endpoint cfg out execute id s).0 ≡ err internal_error)
  unfolding delete_endpoint
  delete_endpoint_errors cfg out execute id s = ground arith
