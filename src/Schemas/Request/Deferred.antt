-- ===== src/Schemas/Request/Deferred.antt =====
-- The two validations of a batch's item.
use image_descriptor.Prelude.{
  ◌≡◌, ◌≤◌, refl, ◌⊎◌, inl, inr, String, Bool, true, false, List, [], ◌∷◌, All, length, arith,
  Bool-cases, ltb,
}
use image_descriptor.Errors.{ok, err, validation_error}
use image_descriptor.Schemas.{BatchDescribeItem}
use image_descriptor.Schemas.Validate.{validate_thumbnail_size, max_thumbnail}
use image_descriptor.Schemas.Bounds.{IsPlace, validate_coordinates_iff}
use image_descriptor.Schemas.Request.{
  is_valid, is_valid_item, are_valid, is_valid_batch, request_of, model_validate,
}
use Prim.Native.String.{count}
use image_descriptor.Prelude.Unicode.{Decimals}
use text.Mathlib.Text.{starts_with}

-- a URL, or no more characters than 5 MB has bytes
abbrev pub Fits : String → Type 0
Fits v = (starts_with v "http" ≡ true) ⊎ (count v ≤ max_thumbnail)

size_cases :
    (v : String)
    → ((validate_thumbnail_size v ≡ true) × Fits v)
      ⊎ ((validate_thumbnail_size v ≡ false) × ¬ Fits v)
unfolding validate_thumbnail_size
size_cases v = elim (Bool-cases (starts_with v "http")) [
  | inl url ↦ inl (rw url refl, inl url)
  | inr bytes ↦ elim (Bool-cases (ltb max_thumbnail (count v))) [
    | inl big ↦ inr (rw bytes (rw big refl), λ f. ground (arith, f, bytes, big))
    | inr small ↦ inl (rw bytes (rw small refl), inr (ground (arith, small)))
  ]
]

module _ ⦃unicode : Decimals⦄ where
  module _ (fromisoformat : String → Bool) (explain : BatchDescribeItem → String) where
    abbrev pub IsDeferred : BatchDescribeItem → Type 0
    IsDeferred i =
        IsPlace i.coordinates
        × ((Fits i.thumbnail × (model_validate fromisoformat explain i ≡ ok (request_of i)))
            ⊎ (¬ Fits i.thumbnail
                × (model_validate fromisoformat explain i
                    ≡ err (record { kind = validation_error; text = explain i }))))

    place_of :
        (i : BatchDescribeItem) → is_valid_item fromisoformat i ≡ true → IsPlace i.coordinates
    unfolding is_valid_item
    place_of i h = (validate_coordinates_iff i.coordinates).0 (ground (arith, h))

    is_valid-item :
        (i : BatchDescribeItem)
        → is_valid_item fromisoformat i ≡ true
        → is_valid fromisoformat (request_of i) ≡ validate_thumbnail_size i.thumbnail
    unfolding is_valid is_valid_item
    is_valid-item i h = ground (arith, h)

    item-IsDeferred : (i : BatchDescribeItem) → is_valid_item fromisoformat i ≡ true → IsDeferred i
    unfolding model_validate
    item-IsDeferred i h = (
      place_of i h,
      rw (is_valid-item i h) (elim (size_cases i.thumbnail) [
        | inl (good, fits) ↦ inl (fits, rw good refl)
        | inr (bad, large) ↦ inr (large, rw bad refl)
      ]),
    )

    are_valid-IsDeferred :
        (items : List BatchDescribeItem)
        → are_valid fromisoformat items ≡ true
        → All IsDeferred items
    unfolding are_valid
    are_valid-IsDeferred [] h = tt
    are_valid-IsDeferred (i ∷ items) h =
        (item-IsDeferred i (ground (arith, h)), are_valid-IsDeferred items (ground (arith, h)))

    -- The body of a batch that is accepted has from one to ten items, the coordinates of each of them two
    -- finite numbers within their bounds; and whether an item of it is refused when it is validated again
    -- hangs on its thumbnail alone: it is read as the request with the same fields where the thumbnail
    -- begins with http or has at most 5 * 1024 * 1024 characters, and is refused with a validation error
    -- otherwise.
    pub is_valid_batch-IsDeferred :
        (items : List BatchDescribeItem)
        → is_valid_batch fromisoformat items ≡ true
        → (1 ≤ length items) × (length items ≤ 10) × All IsDeferred items
    unfolding is_valid_batch
    is_valid_batch-IsDeferred items h =
        (ground (arith, h), ground (arith, h), are_valid-IsDeferred items (ground (arith, h)))
