-- ===== src/Supabase/Raises.antt =====
-- Which errors leave the module, and what a failed query leaves behind.
use image_descriptor.Prelude.{ℕ, ◌≡◌, String, true, Option, List, arith}
use image_descriptor.Errors.{Result, ok, err, is_connection_error}
use image_descriptor.Supabase.{Client, Settings, Outside, save_description, DescriptionRow}
use image_descriptor.Supabase.Queries.{
  ListQuery, Answer, list_descriptions, get_description, delete_description,
}

-- A value, or a `ConnectionError`.
abbrev pub IsReached : {A : Type 0} → Result A → Type 0
IsReached (ok a) = Unit
IsReached (err e) = is_connection_error e.kind ≡ true

-- Every error that leaves one of the four queries is a `ConnectionError`.
pub raises_only_connection :
    {Item : Type 0} (cfg : Settings) (out : Outside) (s : Client)
    (save : DescriptionRow → Result (Unit {0})) (row : DescriptionRow)
    (list : ListQuery → Result (Answer Item)) (offset limit : ℕ) (after before : Option String)
    (select : String → Result (List Item)) (delete : String → Result (List Item)) (id : String)
    → IsReached (save_description cfg out save row s).0
      × IsReached (list_descriptions cfg out list offset limit after before s).0
      × IsReached (get_description cfg out select id s).0
      × IsReached (delete_description cfg out delete id s).0
raises_only_connection cfg out s save row list offset limit after before select delete id = (
  unfold save_description in ground arith,
  unfold list_descriptions in ground arith,
  unfold get_description in ground arith,
  unfold delete_description in ground arith,
)
