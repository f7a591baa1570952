-- ===== src/Landcover/Shares.antt =====
-- The classes of a land cover: their order and their percentages.
use image_descriptor.Prelude.{
  ℕ, suc, ◌+◌, ◌*◌, ◌≤◌, ◌<◌, ◌≡◌, refl, String, Option, none, some, List, [], ◌∷◌, arith, length,
  or_else, if◌then◌else◌,
}
use image_descriptor.Prelude.Text.{is_truthy}
use image_descriptor.Prelude.Counts.{total, total-bump}
use native.Mathlib.Decide.{dec_le}
use image_descriptor.Schemas.{LandCoverClass}
use image_descriptor.Landcover.{
  Element, tag_counts, count_element, count_tag, insert_count, by_count, at_least_one, classes_of,
  land_cover_of,
}

abbrev pub percent : LandCoverClass → ℕ
percent c = or_else c.percentage 0

-- every class has at most the percentage before it
abbrev pub IsDescending : List LandCoverClass → Type 0
IsDescending [] = Unit
IsDescending (c ∷ []) = Unit
IsDescending (c ∷ d ∷ cs) = (percent d ≤ percent c) × IsDescending (d ∷ cs)

abbrev pub sum : List LandCoverClass → ℕ
sum [] = 0
sum (c ∷ cs) = percent c + sum cs

-- how many of the tags of an element are given and not empty
abbrev given : Option String → ℕ
given none = 0
given (some val) = if is_truthy val then 1 else 0

abbrev pub tags : List Element → ℕ
tags [] = 0
tags (el ∷ els) = given el.landuse + given el.natural + given el.leisure + tags els

abbrev IsSorted : List (String × ℕ) → Type 0
IsSorted [] = Unit
IsSorted (c ∷ []) = Unit
IsSorted (c ∷ d ∷ cs) = (d.1 ≤ c.1) × IsSorted (d ∷ cs)

total-count_tag :
    (o : Option String) (counts : List (String × ℕ))
    → total (count_tag o counts) ≡ total counts + given o
total-count_tag none counts = omega arith
total-count_tag (some val) counts = ground (arith, total-bump val counts)

total-tag_counts :
    (els : List Element) (counts : List (String × ℕ))
    → total (tag_counts els counts) ≡ total counts + tags els
unfolding tag_counts
total-tag_counts [] counts = omega arith
total-tag_counts (el ∷ els) counts =
    let a = count_tag el.landuse counts in
    let b = count_tag el.natural a in
    omega (
      arith,
      total-tag_counts els (count_element el counts),
      total-count_tag el.landuse counts,
      total-count_tag el.natural a,
      total-count_tag el.leisure b,
    )

total-insert_count :
    (c : String × ℕ) (counts : List (String × ℕ))
    → total (insert_count c counts) ≡ c.1 + total counts
unfolding insert_count total
total-insert_count c [] = omega arith
total-insert_count c (d ∷ counts) = ground (arith, total-insert_count c counts)

total-by_count : (counts : List (String × ℕ)) → total (by_count counts) ≡ total counts
unfolding by_count total
total-by_count [] = refl
total-by_count (c ∷ counts) =
    omega (arith, total-insert_count c (by_count counts), total-by_count counts)

length-insert_count :
    (c : String × ℕ) (counts : List (String × ℕ))
    → length (insert_count c counts) ≡ suc (length counts)
unfolding insert_count
length-insert_count c [] = refl
length-insert_count c (d ∷ counts) = ground (arith, length-insert_count c counts)

insert_count-IsSorted :
    (c : String × ℕ) (counts : List (String × ℕ))
    → IsSorted counts
    → IsSorted (insert_count c counts)
unfolding insert_count
insert_count-IsSorted c [] h = tt
insert_count-IsSorted c (d ∷ []) h = ground arith
insert_count-IsSorted c (d ∷ e ∷ counts) (k, h) =
    ground (arith, insert_count-IsSorted c (e ∷ counts) h)

by_count-IsSorted : (counts : List (String × ℕ)) → IsSorted (by_count counts)
unfolding by_count
by_count-IsSorted [] = tt
by_count-IsSorted (c ∷ counts) =
    insert_count-IsSorted c (by_count counts) (by_count-IsSorted counts)

-- What the arithmetic of doubles gives, for a total so small (such as any below 2 ^ 45) that it separates
-- every quotient from the half of a point next to it: a share is at most half a point away from the
-- exact one, and a smaller count has no larger share.
pub record IsShare (share : ℕ → ℕ → ℕ) (all : ℕ) : Type 0 where
  pub above : (count : ℕ) → count ≤ all → 2 * (share count all * all) ≤ 200 * count + all
  pub below : (count : ℕ) → count ≤ all → 200 * count ≤ 2 * (share count all * all) + all
  pub mono : (count more : ℕ) → count ≤ more → more ≤ all → share count all ≤ share more all

classes_of-IsDescending :
    (share : ℕ → ℕ → ℕ) (all : ℕ) (counts : List (String × ℕ))
    → IsShare share all
    → total counts ≤ all
    → IsSorted counts
    → IsDescending (classes_of share all counts)
unfolding classes_of total
classes_of-IsDescending share all [] p few h = tt
classes_of-IsDescending share all (c ∷ []) p few h = tt
classes_of-IsDescending share all (c ∷ d ∷ counts) p few (k, h) = (
  p.mono d.1 c.1 k (omega (arith, few)),
  classes_of-IsDescending share all (d ∷ counts) p (omega (arith, few)) h,
)

-- the rounding errors add up to at most half a unit for each class
sum-near :
    (share : ℕ → ℕ → ℕ) (all : ℕ) (counts : List (String × ℕ))
    → IsShare share all
    → total counts ≤ all
    → (2 * (sum (classes_of share all counts) * all) ≤ 200 * total counts + length counts * all)
      × (200 * total counts ≤ 2 * (sum (classes_of share all counts) * all) + length counts * all)
unfolding classes_of total
sum-near share all [] p few = omega arith
sum-near share all ((tag, count) ∷ counts) p few = grind (
  arith,
  p.above count (omega (arith, few)),
  p.below count (omega (arith, few)),
  sum-near share all counts p (omega (arith, few)),
)

length-by_count : (counts : List (String × ℕ)) → length (by_count counts) ≡ length counts
unfolding by_count
length-by_count [] = refl
length-by_count (c ∷ counts) =
    omega (arith, length-insert_count c (by_count counts), length-by_count counts)

length-classes_of :
    (share : ℕ → ℕ → ℕ) (all : ℕ) (counts : List (String × ℕ))
    → length (classes_of share all counts) ≡ length counts
unfolding classes_of
length-classes_of share all [] = refl
length-classes_of share all (c ∷ counts) = omega (arith, length-classes_of share all counts)

cancel : (a b d : ℕ) → 0 < d → a * d ≤ b * d → a ≤ b
cancel a b d p h = elim (dec_le a b) [
  | yes fits ↦ fits
  | no over ↦ absurd (grind (arith, past b a d (omega arith)))
]
  where
    past : (r m d : ℕ) → r < m → r * d + d ≤ m * d
    past r m d h = grind arith

shares :
    (share : ℕ → ℕ → ℕ) (all : ℕ) (counts : List (String × ℕ))
    → IsShare share all
    → 0 < all
    → total counts ≡ all
    → let cs = classes_of share all counts in
      (2 * sum cs ≤ 200 + length cs) × (200 ≤ 2 * sum cs + length cs)
shares share all counts rounds p e =
    let cs = classes_of share all counts in
    let (above, below) = sum-near share all counts rounds (omega (arith, e)) in
    (
      cancel (2 * sum cs) (200 + length cs) all p
          (grind (arith, length-classes_of share all counts)),
      cancel 200 (2 * sum cs + length cs) all p (grind (arith, length-classes_of share all counts)),
    )

-- The classes of an answer that has any tag come in descending order of their percentages, and these add
-- up to 100 within half a point for each class. The division and the rounding of doubles are taken to be
-- right to half a point at the number of the answer's tags, and to keep the order.
pub land_cover_shares :
    (share : ℕ → ℕ → ℕ) (els : List Element)
    → IsShare share (tags els)
    → 0 < tags els
    → let cs = (land_cover_of share els).classes in
      IsDescending cs × (2 * sum cs ≤ 200 + length cs) × (200 ≤ 2 * sum cs + length cs)
unfolding land_cover_of
land_cover_shares share els rounds p =
    let counts = tag_counts els [] in
    let counted : total counts ≡ tags els =
      unfold total in omega (arith, total-tag_counts els []) in
    let all = at_least_one (total counts) in
    let positive : 0 < all = ground arith in
    let same : tags els ≡ all = ground arith in
    let rounded : IsShare share all = rw (← same) rounds in
    let few : total (by_count counts) ≤ all = ground (arith, total-by_count counts) in
    let (below, above) =
      shares share all (by_count counts) rounded positive (ground (arith, total-by_count counts)) in
    (
      classes_of-IsDescending share all (by_count counts) rounded few (by_count-IsSorted counts),
      below,
      above,
    )
