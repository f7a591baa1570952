-- ===== src/Schemas/Validate.antt =====
-- app/api/schemas.py: the validators of a request's coordinates, bounding box, thumbnail and image id.
use image_descriptor.Prelude.{
  ℕ, ◌*◌, String, Bool, true, false, not, ◌&&◌, ◌||◌, Option, none, some, List, [], ◌∷◌, ltb, leb,
  if◌then◌else◌,
}
use image_descriptor.Prelude.Number.{Number, le_number, whole, minus_whole}
use Prim.Native.String.{count}
use text.Mathlib.Text.{starts_with}

-- `-bound <= x <= bound`
abbrev pub within : ℕ → Number → Bool
within bound x = le_number (minus_whole bound) x && le_number x (whole bound)

-- `validate_coordinates`, with the field's length constraint
unfoldable pub validate_coordinates : List Number → Bool
validate_coordinates (lon ∷ lat ∷ []) = not (not (within 180 lon) || not (within 90 lat))
validate_coordinates _ = false

-- `validate_bbox`, with the field's length constraint
unfoldable pub validate_bbox : Option (List Number) → Bool
validate_bbox none = true
validate_bbox (some (west ∷ south ∷ east ∷ north ∷ [])) =
    if not (within 180 west) || not (within 180 east)
    then false
    else if not (within 90 south) || not (within 90 north)
    then false
    else if le_number east west
    then false
    else if le_number north south
    then false
    else true
validate_bbox (some _) = false

abbrev pub max_thumbnail : ℕ
max_thumbnail = 5 * 1024 * 1024

-- `validate_thumbnail_size`; a URL is not measured
unfoldable pub validate_thumbnail_size : String → Bool
validate_thumbnail_size v = not (not (starts_with v "http") && ltb max_thumbnail (count v))

abbrev pub cog_image_id_max_length : ℕ
cog_image_id_max_length = 128

unfoldable pub validate_cog_image_id : Option String → Bool
validate_cog_image_id none = true
validate_cog_image_id (some v) = leb (count v) cog_image_id_max_length
