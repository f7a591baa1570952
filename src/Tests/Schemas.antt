-- ===== src/Tests/Schemas.antt =====
-- The validators' theorems at concrete requests, and some dates.
use image_descriptor.Prelude.{
  ◌≡◌, ◌≤◌, ◌↔◌, refl, String, Bool, true, false, none, some, List, [], ◌∷◌, All, length,
}
use image_descriptor.Prelude.Number.{Number, whole, nan}
use image_descriptor.Tests.Ascii.{ascii}
use image_descriptor.Prelude.Text.{codes}
use image_descriptor.Schemas.Date.Stamp.{IsDate, matches_iso8601_iff}
use image_descriptor.Schemas.{BatchDescribeItem}
use image_descriptor.Schemas.Validate.{validate_coordinates, validate_bbox, validate_cog_image_id}
use image_descriptor.Schemas.Request.{is_valid_item, are_valid, is_valid_batch}
use image_descriptor.Schemas.Request.Deferred.{IsDeferred, is_valid_batch-IsDeferred}
use image_descriptor.Schemas.Date.{
  matches_iso8601, digits, zone, drop_digits, fraction, seconds, time, validate_captured_at,
}

abbrev seoul : List Number
seoul = whole 127 ∷ whole 37 ∷ []

abbrev over_seoul : String → BatchDescribeItem
over_seoul thumbnail = record {
  thumbnail = thumbnail;
  coordinates = seoul;
  bbox = none;
  captured_at = some "2025-01-31";
  cog_image_id = some "abc-123";
  stac_id = none;
}

abbrev two_items : List BatchDescribeItem
two_items = over_seoul "https://example.com/a.png" ∷ over_seoul "iVBORw0KGgo=" ∷ []

abbrev reads_all : String → Bool
reads_all s = true

abbrev invalid : BatchDescribeItem → String
invalid i = "1 validation error for DescribeRequest"

two_items-is_valid : is_valid_batch reads_all two_items ≡ true
unfolding is_valid_batch are_valid is_valid_item validate_coordinates validate_bbox
    validate_captured_at validate_cog_image_id matches_iso8601 digits zone drop_digits fraction
    seconds time
two_items-is_valid = refl

is_valid_batch-IsDeferred_example :
    (1 ≤ length two_items) × (length two_items ≤ 10) × All (IsDeferred reads_all invalid) two_items
is_valid_batch-IsDeferred_example =
    is_valid_batch-IsDeferred reads_all invalid two_items two_items-is_valid

matches_iso8601_iff_example :
    (matches_iso8601 "2025-01-31T10:20:30.5Z" ≡ true) ↔ IsDate (codes "2025-01-31T10:20:30.5Z")
matches_iso8601_iff_example = matches_iso8601_iff "2025-01-31T10:20:30.5Z"

date_runs :
    (matches_iso8601 "2025-01-31" ≡ true)
    × (matches_iso8601 "2025-01-31T10:20:30.5Z" ≡ true)
    × (matches_iso8601 "2025-01-31T10:20+09:00" ≡ true)
    × (matches_iso8601 "2025-01-31Z" ≡ false)
    × (matches_iso8601 "31-01-2025" ≡ false)
unfolding matches_iso8601 digits zone drop_digits fraction seconds time
date_runs = (refl, refl, refl, refl, refl)

nan_refused : validate_coordinates (nan ∷ whole 37 ∷ []) ≡ false
unfolding validate_coordinates
nan_refused = refl
