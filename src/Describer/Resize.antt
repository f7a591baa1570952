-- ===== src/Describer/Resize.antt =====
-- app/modules/describer.py: `_resize_for_gemini_sync`. Pillow is an argument, with images of a type I.
pub mod Fitted
use image_descriptor.Prelude.{ℕ, String, Bool, not, List, ltb, leb, if◌then◌else◌}
use image_descriptor.Prelude.Text.{str_eq}
use image_descriptor.Errors.{Result, ok, err}

-- `Image.open`, `size`, `mode`, `thumbnail` with the filter LANCZOS, `convert`, and `save` with the format
-- and the quality, which gives the bytes that are written. `Image.open` does not decode the image yet:
-- `thumbnail`, `convert` and `save` do, and raise where the data are broken.
pub record Pillow (I : Type 0) : Type 0 where
  pub open_image : List ℕ → Result I
  pub width : I → ℕ
  pub height : I → ℕ
  pub mode : I → String
  pub thumbnail : I → ℕ → ℕ → Result I
  pub convert : I → String → Result I
  pub save : I → String → ℕ → Result (List ℕ)

infixl 5 ◌>>=◌
abbrev pub ◌>>=◌ : {A B : Type 0} → Result A → (A → Result B) → Result B
err e >>= k = err e
ok a >>= k = k a

module _ {I : Type 0} (pillow : Pillow I) (max_size : ℕ) where
  -- `max(img.size)`
  abbrev pub longest_edge : I → ℕ
  longest_edge img =
      if leb (pillow.width img) (pillow.height img) then pillow.height img else pillow.width img

  unfoldable pub shrunk : I → Result I
  shrunk img =
      if ltb max_size (longest_edge img) then pillow.thumbnail img max_size max_size else ok img

  unfoldable pub as_rgb : I → Result I
  as_rgb img = if not (str_eq (pillow.mode img) "RGB") then pillow.convert img "RGB" else ok img

  unfoldable pub resize_for_gemini : List ℕ → Result (List ℕ)
  unfolding shrunk as_rgb
  resize_for_gemini image_bytes = do
    img ← pillow.open_image image_bytes
    img ← shrunk img
    img ← as_rgb img
    pillow.save img "JPEG" 85
