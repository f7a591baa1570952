-- ===== src/Schemas/Bounds.antt =====
-- What an accepted request guarantees to the code behind the validators.
use image_descriptor.Prelude.{
  ℕ, ◌+◌, ◌*◌, ◌≤◌, ◌≡◌, refl, ◌↔◌, true, some, List, [], ◌∷◌, arith, Bool, false, not, ◌||◌,
  if◌then◌else◌,
}
use image_descriptor.Prelude.Number.{
  Number, finite, infinity, minus_infinity, nan, ℤ, pos, negsuc, pos_part, neg_part, millionths,
  ◌<ℤ◌, le_number,
}
use image_descriptor.Schemas.Validate.{within, validate_coordinates, validate_bbox}

-- at most `bound` degrees from zero, in millionths of a degree
abbrev pub IsDegrees : ℕ → ℤ → Type 0
IsDegrees bound a = pos_part a + neg_part a ≤ bound * millionths

within_finite :
    (bound : ℕ) (x : Number) → within bound x ≡ true → (a : ℤ) × (x ≡ finite a) × IsDegrees bound a
within_finite bound (finite (pos n)) h = (pos n, refl, ground arith)
within_finite bound (finite (negsuc n)) h = (negsuc n, refl, ground arith)
within_finite bound infinity h = ground arith
within_finite bound minus_infinity h = ground arith
within_finite bound nan h = ground arith

finite_within : (bound : ℕ) (a : ℤ) → IsDegrees bound a → within bound (finite a) ≡ true
finite_within bound (pos n) h = ground arith
finite_within bound (negsuc n) h = ground arith

both_pass : (a b : Bool) → not (not a || not b) ≡ true → (a ≡ true) × (b ≡ true)
both_pass a b h = ground arith

abbrev pub IsPlace : List Number → Type 0
IsPlace v =
    (lon : ℤ) × (lat : ℤ) × (v ≡ finite lon ∷ finite lat ∷ [])
    × IsDegrees 180 lon
    × IsDegrees 90 lat

accepted : (v : List Number) → validate_coordinates v ≡ true → IsPlace v
unfolding validate_coordinates
accepted (lon ∷ lat ∷ []) h =
    let (lon_ok, lat_ok) = both_pass (within 180 lon) (within 90 lat) h in
    let (a, ea, ba) = within_finite 180 lon lon_ok in
    let (b, eb, bb) = within_finite 90 lat lat_ok in (a, b, cc, ba, bb)
accepted [] h = ground arith
accepted (lon ∷ []) h = ground arith
accepted (lon ∷ lat ∷ x ∷ v) h = ground arith

-- Accepted coordinates are exactly two finite numbers, a longitude within 180 and a latitude within
-- 90 degrees of zero: no infinity and no nan passes.
pub validate_coordinates_iff : (v : List Number) → (validate_coordinates v ≡ true) ↔ IsPlace v
unfolding validate_coordinates
validate_coordinates_iff v = (
  accepted v,
  λ (lon, lat, e, hlon, hlat). rw e (rw (finite_within 180 lon hlon, finite_within 90 lat hlat)),
)

abbrev pub IsBox : List Number → Type 0
IsBox v =
    (west : ℤ) × (south : ℤ) × (east : ℤ) × (north : ℤ) × (v
      ≡ finite west ∷ finite south ∷ finite east ∷ finite north ∷ [])
    × IsDegrees 180 west
    × IsDegrees 180 east
    × IsDegrees 90 south
    × IsDegrees 90 north
    × (west <ℤ east)
    × (south <ℤ north)

boxed :
    (west south east north : Number)
    → validate_bbox (some (west ∷ south ∷ east ∷ north ∷ [])) ≡ true
    → (within 180 west ≡ true)
      × (within 180 east ≡ true)
      × (within 90 south ≡ true)
      × (within 90 north ≡ true)
      × (le_number east west ≡ false)
      × (le_number north south ≡ false)
unfolding validate_bbox
boxed west south east north h =
    tests (within 180 west) (within 180 east) (within 90 south) (within 90 north)
      (le_number east west) (le_number north south) h
  where
    tests :
        (a b c d e f : Bool)
        → (if not a || not b
            then false
            else if not c || not d
            then false
            else if e
            then false
            else if f
            then false
            else true)
          ≡ true
        → (a ≡ true) × (b ≡ true) × (c ≡ true) × (d ≡ true) × (e ≡ false) × (f ≡ false)
    tests a b c d e f k = ground arith

lt_of_le-false :
    (a b : ℤ) (x y : Number) → x ≡ finite a → y ≡ finite b → le_number x y ≡ false → b <ℤ a
lt_of_le-false a b x y ex ey h = ground arith

-- A bounding box that is accepted is four finite numbers within the globe, with its west edge
-- strictly left of its east edge and its south edge strictly below its north edge.
pub validate_bbox-IsBox : (v : List Number) → validate_bbox (some v) ≡ true → IsBox v
validate_bbox-IsBox (w ∷ s ∷ e ∷ n ∷ []) h =
    let (w_ok, e_ok, s_ok, n_ok, we, sn) = boxed w s e n h in
    let (west, ew, bw) = within_finite 180 w w_ok in
    let (east, ee, be) = within_finite 180 e e_ok in
    let (south, es, bs) = within_finite 90 s s_ok in
    let (north, en, bn) = within_finite 90 n n_ok in
    (
      west,
      south,
      east,
      north,
      cc,
      bw,
      be,
      bs,
      bn,
      lt_of_le-false east west e w ee ew we,
      lt_of_le-false north south n s en es sn,
    )
validate_bbox-IsBox [] h = unfold validate_bbox in ground arith
validate_bbox-IsBox (w ∷ []) h = unfold validate_bbox in ground arith
validate_bbox-IsBox (w ∷ s ∷ []) h = unfold validate_bbox in ground arith
validate_bbox-IsBox (w ∷ s ∷ e ∷ []) h = unfold validate_bbox in ground arith
validate_bbox-IsBox (w ∷ s ∷ e ∷ n ∷ x ∷ v) h = unfold validate_bbox in ground arith
