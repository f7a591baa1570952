-- ===== src/Describer/Resize/Fitted.antt =====
-- What Gemini is sent.
use image_descriptor.Prelude.{◌⊎◌, ℕ, ◌≡◌, ◌≤◌, inl, inr, String, List, arith, Bool-cases, ltb}
use image_descriptor.Prelude.Text.{str_eq, eq_iff}
use image_descriptor.Errors.{Error, Result, ok, err, Result-cases}
use image_descriptor.Describer.Resize.{Pillow, longest_edge, shrunk, as_rgb, resize_for_gemini}

-- What Pillow documents: `thumbnail` gives an image no larger than the size it is given, where that is
-- no empty one, and `convert` the mode it is asked for, without a change of the size.
pub record IsPillow {I : Type 0} (pillow : Pillow I) : Type 0 where
  pub thumbnail_width :
      (img out : I) (w h : ℕ)
      → 1 ≤ w
      → 1 ≤ h
      → pillow.thumbnail img w h ≡ ok out
      → pillow.width out ≤ w
  pub thumbnail_height :
      (img out : I) (w h : ℕ)
      → 1 ≤ w
      → 1 ≤ h
      → pillow.thumbnail img w h ≡ ok out
      → pillow.height out ≤ h
  pub convert_mode :
      (img out : I) (mode : String) → pillow.convert img mode ≡ ok out → pillow.mode out ≡ mode
  pub convert_width :
      (img out : I) (mode : String)
      → pillow.convert img mode ≡ ok out
      → pillow.width out ≡ pillow.width img
  pub convert_height :
      (img out : I) (mode : String)
      → pillow.convert img mode ≡ ok out
      → pillow.height out ≡ pillow.height img

module _ {I : Type 0} (pillow : Pillow I) (documented : IsPillow pillow) (max_size : ℕ)
    (positive : 1 ≤ max_size) where
  abbrev pub IsWithin : I → Type 0
  IsWithin img = (pillow.width img ≤ max_size) × (pillow.height img ≤ max_size)

  -- the error of one of Pillow's calls
  abbrev pub IsRaised : List ℕ → Error → Type 0
  IsRaised image_bytes e =
      (pillow.open_image image_bytes ≡ err e)
      ⊎ ((img : I) × (pillow.thumbnail img max_size max_size ≡ err e))
      ⊎ ((img : I) × (pillow.convert img "RGB" ≡ err e))
      ⊎ ((img : I) × (pillow.save img "JPEG" 85 ≡ err e))

  -- the bytes of an image that fits, as JPEG, or an error of Pillow's
  abbrev pub IsSent : List ℕ → Result (List ℕ) → Type 0
  IsSent image_bytes (err e) = IsRaised image_bytes e
  IsSent image_bytes (ok sent_bytes) =
      (sent : I) × (pillow.save sent "JPEG" 85 ≡ ok sent_bytes)
      × IsWithin sent
      × (pillow.mode sent ≡ "RGB")

  shrunk-IsWithin : (img out : I) → shrunk pillow max_size img ≡ ok out → IsWithin out
  unfolding shrunk
  shrunk-IsWithin img out h = elim (Bool-cases (ltb max_size (longest_edge pillow max_size img))) [
    | inl big ↦
        let e : pillow.thumbnail img max_size max_size ≡ ok out = rw big at h in
        (
          documented.thumbnail_width img out max_size max_size positive positive e,
          documented.thumbnail_height img out max_size max_size positive positive e,
        )
    | inr small ↦
        let e : img ≡ out = ground (arith, rw small at h) in rw (← e) (ground (arith, small))
  ]

  as_rgb-fits :
      (img out : I)
      → as_rgb pillow max_size img ≡ ok out
      → IsWithin img
      → IsWithin out × (pillow.mode out ≡ "RGB")
  unfolding as_rgb
  as_rgb-fits img out h (w, k) = elim (Bool-cases (str_eq (pillow.mode img) "RGB")) [
    | inl same ↦
        let e : img ≡ out = ground (arith, rw same at h) in
        rw (← e) ((w, k), (eq_iff (pillow.mode img) "RGB").0 same)
    | inr other ↦
        let e : pillow.convert img "RGB" ≡ ok out = rw other at h in
        (
          rw (documented.convert_width img out "RGB" e, documented.convert_height img out "RGB" e)
              (w, k),
          documented.convert_mode img out "RGB" e,
        )
  ]

  shrunk_error :
      (img : I) (e : Error)
      → shrunk pillow max_size img ≡ err e
      → pillow.thumbnail img max_size max_size ≡ err e
  unfolding shrunk
  shrunk_error img e h = elim (Bool-cases (ltb max_size (longest_edge pillow max_size img))) [
    | inl big ↦ rw big at h
    | inr small ↦ absurd (ground (arith, rw small at h))
  ]

  as_rgb_error :
      (img : I) (e : Error) → as_rgb pillow max_size img ≡ err e → pillow.convert img "RGB" ≡ err e
  unfolding as_rgb
  as_rgb_error img e h = elim (Bool-cases (str_eq (pillow.mode img) "RGB")) [
    | inl same ↦ absurd (ground (arith, rw same at h))
    | inr other ↦ rw other at h
  ]

  -- Where Pillow does what it documents, and `max_size` is positive: what is returned is the JPEG data
  -- of an image of the mode RGB with both edges within `max_size`, whatever the size and the mode of the
  -- image given; and an error is one that Pillow raises where it opens, shrinks, converts or saves.
  pub resize_for_gemini-IsSent :
      (image_bytes : List ℕ) → IsSent image_bytes (resize_for_gemini pillow max_size image_bytes)
  unfolding resize_for_gemini
  resize_for_gemini-IsSent image_bytes = elim (Result-cases (pillow.open_image image_bytes)) [
    | inr (e, opened) ↦ rw opened (inl opened)
    | inl (img, opened) ↦ elim (Result-cases (shrunk pillow max_size img)) [
      | inr (e, small) ↦ rw (opened, small) (inr (inl (img, shrunk_error img e small)))
      | inl (shrunk_img, small) ↦ elim (Result-cases (as_rgb pillow max_size shrunk_img)) [
        | inr (e, rgb) ↦
            rw (opened, small, rgb) (inr (inr (inl (shrunk_img, as_rgb_error shrunk_img e rgb))))
        | inl (rgb_img, rgb) ↦
            let (fits, mode) =
              as_rgb-fits shrunk_img rgb_img rgb (shrunk-IsWithin img shrunk_img small) in
            elim (Result-cases (pillow.save rgb_img "JPEG" 85)) [
              | inr (e, saved) ↦ rw (opened, small, rgb, saved) (inr (inr (inr (rgb_img, saved))))
              | inl (sent_bytes, saved) ↦
                  rw (opened, small, rgb, saved) (rgb_img, saved, fits, mode)
            ]
      ]
    ]
  ]
