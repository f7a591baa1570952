-- ===== src/Supabase/Queries.antt =====
-- app/db/supabase.py: the queries over stored descriptions.
use image_descriptor.Prelude.{
  ℕ, ◌+◌, ◌-◌, String, Bool, true, false, Option, none, some, List, [], ◌∷◌, or_else, if◌then◌else◌,
}
use image_descriptor.Prelude.Text.{is_truthy}
use image_descriptor.Errors.{Result, ok, err, is_connection_error}
use image_descriptor.Supabase.{Client, Outside, Settings, get_client, query, reset_client}

-- `except ConnectionError: raise`, `except Exception: reset and return the default`
abbrev pub read_handler : {A : Type 0} → A → ℕ → Result A × Client → Result A × Client
read_handler default failed_at (ok a, s) = (ok a, s)
read_handler default failed_at (err e, s) =
    if is_connection_error e.kind then (err e, s) else (ok default, reset_client failed_at s)

-- the request of `list_descriptions`: rows `first` to `last` of those in the range of creation times
pub record ListQuery : Type 0 where
  pub created_after : Option String
  pub created_before : Option String
  pub first : ℕ
  pub last : ℕ

-- `data` and `count` of the library's answer
pub record Answer (Item : Type 0) : Type 0 where
  pub rows : List Item
  pub count : Option ℕ

pub record Page (Item : Type 0) : Type 0 where
  pub items : List Item
  pub total : ℕ

-- `if created_after:`
abbrev pub non_empty : Option String → Option String
non_empty none = none
non_empty (some s) = if is_truthy s then some s else none

module _ {Item : Type 0} where
  abbrev pub no_items : Page Item
  no_items = record { items = []; total = 0 }

  -- `result.count or 0`
  abbrev pub page : Result (Answer Item) → Result (Page Item)
  page (ok a) = ok (record { items = a.rows; total = or_else a.count 0 })
  page (err e) = err e

  unfoldable pub list_descriptions :
      Settings
      → Outside
      → (ListQuery → Result (Answer Item))
      → ℕ
      → ℕ
      → Option String
      → Option String
      → Client
      → Result (Page Item) × Client
  unfolding get_client
  list_descriptions cfg out execute offset limit created_after created_before s =
      read_handler no_items out.failed_at (
        query
          (page (
            execute (record {
              created_after = non_empty created_after;
              created_before = non_empty created_before;
              first = offset;
              last = offset + limit - 1;
            })))
          (get_client cfg out s))

  abbrev pub head : Result (List Item) → Result (Option Item)
  head (ok []) = ok none
  head (ok (item ∷ items)) = ok (some item)
  head (err e) = err e

  abbrev pub is_nonempty : Result (List Item) → Result Bool
  is_nonempty (ok []) = ok false
  is_nonempty (ok (item ∷ items)) = ok true
  is_nonempty (err e) = err e

  unfoldable pub get_description :
      Settings
      → Outside
      → (String → Result (List Item))
      → String
      → Client
      → Result (Option Item) × Client
  unfolding get_client
  get_description cfg out execute cog_image_id s =
      read_handler none out.failed_at (query (head (execute cog_image_id)) (get_client cfg out s))

  -- the deleted rows come back as `data`
  unfoldable pub delete_description :
      Settings → Outside → (String → Result (List Item)) → String → Client → Result Bool × Client
  unfolding get_client
  delete_description cfg out execute cog_image_id s =
      read_handler false out.failed_at
        (query (is_nonempty (execute cog_image_id)) (get_client cfg out s))
