-- ===== src/Schemas/Request.antt =====
-- app/api/schemas.py: the validation of a whole request, of the body of a batch, and of a batch's item
-- as `DescribeRequest.model_validate` reads it again.
pub mod Deferred
use image_descriptor.Prelude.{String, Bool, true, ◌&&◌, List, [], ◌∷◌, length, leb, if◌then◌else◌}
use image_descriptor.Errors.{Result, ok, err, validation_error}
use image_descriptor.Schemas.{DescribeRequest, BatchDescribeItem, max_batch_size}
use image_descriptor.Schemas.Validate.{
  validate_coordinates, validate_bbox, validate_thumbnail_size, validate_cog_image_id,
}
use image_descriptor.Prelude.Unicode.{Decimals}
use image_descriptor.Schemas.Date.{validate_captured_at}

-- `raw_item.model_dump()` read as a request
abbrev pub request_of : BatchDescribeItem → DescribeRequest
request_of i = record {
  thumbnail = i.thumbnail;
  coordinates = i.coordinates;
  bbox = i.bbox;
  captured_at = i.captured_at;
  cog_image_id = i.cog_image_id;
  stac_id = i.stac_id;
}

module _ ⦃unicode : Decimals⦄ where
  unfoldable pub is_valid : (String → Bool) → DescribeRequest → Bool
  unfolding validate_coordinates validate_bbox validate_thumbnail_size validate_cog_image_id
      validate_captured_at
  is_valid fromisoformat r =
      validate_thumbnail_size r.thumbnail
      && validate_coordinates r.coordinates
      && validate_bbox r.bbox
      && validate_captured_at fromisoformat r.captured_at
      && validate_cog_image_id r.cog_image_id

  -- `explain` is the text of pydantic's error
  unfoldable pub model_validate :
      (String → Bool) → (BatchDescribeItem → String) → BatchDescribeItem → Result DescribeRequest
  unfolding is_valid
  model_validate fromisoformat explain i =
      if is_valid fromisoformat (request_of i)
      then ok (request_of i)
      else err (record { kind = validation_error; text = explain i })

  -- `BatchDescribeItem`, which leaves the size of the thumbnail open
  unfoldable pub is_valid_item : (String → Bool) → BatchDescribeItem → Bool
  unfolding validate_coordinates validate_bbox validate_cog_image_id validate_captured_at
  is_valid_item fromisoformat i =
      validate_coordinates i.coordinates
      && validate_bbox i.bbox
      && validate_captured_at fromisoformat i.captured_at
      && validate_cog_image_id i.cog_image_id

  unfoldable pub are_valid : (String → Bool) → List BatchDescribeItem → Bool
  unfolding is_valid_item
  are_valid fromisoformat [] = true
  are_valid fromisoformat (i ∷ items) =
      is_valid_item fromisoformat i && are_valid fromisoformat items

  -- `BatchDescribeRequest`
  unfoldable pub is_valid_batch : (String → Bool) → List BatchDescribeItem → Bool
  unfolding are_valid
  is_valid_batch fromisoformat items =
      leb 1 (length items) && leb (length items) max_batch_size && are_valid fromisoformat items
