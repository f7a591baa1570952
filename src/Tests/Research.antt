-- ===== src/Tests/Research.antt =====
-- A search without a network, and the same search a day later with one.
use image_descriptor.Prelude.{◌≡◌, refl, String, Option, none, some, [], ◌∷◌, arith}
use image_descriptor.Errors.{Error, ok, err, timeout_error}
use image_descriptor.Schemas.{Context}
use image_descriptor.Cache.{fine, empty, get, found}
use image_descriptor.Cache.Rows.{select}
use image_descriptor.Research.{Topic, Call, month_of, search_name_of, context_of, research_context}
use image_descriptor.Research.Kept.{failed_search_kept}

abbrev nothing : Context
nothing = context_of (search_name_of "37, 127" "Seoul" none) (month_of none) []

abbrev loads : String → Option Context
loads s = some nothing

abbrev dumps : Context → String
dumps c = "{}"

abbrev slow : Error
slow = record { kind = timeout_error; text = "timed out" }

abbrev offline : Call
offline = record {
  select_error = none;
  delete_fault = fine;
  get_at = 5;
  set_fault = fine;
  set_at = 6;
  respond = λ query. err slow;
}

abbrev festival : Topic
festival = record { text = some "A festival"; url = some "https://example.com" }

abbrev online : Call
online = record offline { get_at = 86400000000; respond = λ query. ok (festival ∷ []) }

failed_search_kept_example :
    let c' = (research_context loads dumps offline "37, 127" none "Seoul" none empty).1 in
    (research_context loads dumps online "37.5, 127" none "Seoul" none c').0 ≡ ok nothing
unfolding get select found search_name_of
failed_search_kept_example =
    failed_search_kept loads dumps offline online "37, 127" "37.5, 127" none none "Seoul" "Seoul"
      none none empty slow refl refl refl refl refl refl refl refl (omega arith)
