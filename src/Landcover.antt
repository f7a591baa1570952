-- ===== src/Landcover.antt =====
-- app/modules/landcover.py: the shares of the OpenStreetMap tags around a place, behind the cache.
--
-- `share` is `round(count / total * 100)` of a count and a total, in the arithmetic of doubles.
-- The Overpass answer is an argument: an error of the request, or a body, whose decoding may fail. Of
-- an element the source reads three tags only.
pub mod Shares
pub mod Cached
pub mod Row
use image_descriptor.Prelude.{
  ℕ, ◌+◌, ◌*◌, String, Bool, Option, none, some, List, [], ◌∷◌, leb, ltb, take, map, if◌then◌else◌,
}
use image_descriptor.Prelude.Text.{str_eq, join, is_truthy}
use image_descriptor.Prelude.Counts.{bump, total}
use image_descriptor.Prelude.Decimal.{show}
use image_descriptor.Prelude.Number.{Number, round_number}
use image_descriptor.Errors.{Error, Result, ok, err}
use image_descriptor.Schemas.{LandCover, LandCoverClass}
use image_descriptor.Cache.{Cache, Fault, get, set}

-- the tags of an element, as far as they are read
pub record Element : Type 0 where
  pub landuse : Option String
  pub natural : Option String
  pub leisure : Option String

-- `TAG_LABELS`
tag_labels : List (String × String)
tag_labels =
    ("residential", "주거지역")
    ∷ ("commercial", "상업지역")
    ∷ ("industrial", "산업지역")
    ∷ ("retail", "상업지역")
    ∷ ("farmland", "농경지")
    ∷ ("farm", "농경지")
    ∷ ("orchard", "과수원")
    ∷ ("vineyard", "포도밭")
    ∷ ("forest", "산림")
    ∷ ("wood", "산림")
    ∷ ("grass", "초지")
    ∷ ("meadow", "초지")
    ∷ ("scrub", "관목지")
    ∷ ("heath", "황무지")
    ∷ ("water", "수역")
    ∷ ("wetland", "습지")
    ∷ ("bare_rock", "나지")
    ∷ ("sand", "모래")
    ∷ ("beach", "해변")
    ∷ ("quarry", "채석장")
    ∷ ("landfill", "매립지")
    ∷ ("cemetery", "묘지")
    ∷ ("park", "공원")
    ∷ ("recreation_ground", "운동장")
    ∷ ("garden", "정원")
    ∷ ("military", "군사지역")
    ∷ ("construction", "건설현장")
    ∷ ("railway", "철도")
    ∷ ("allotments", "텃밭")
    ∷ []

label_in : List (String × String) → String → String
label_in [] tag = tag
label_in ((t, label) ∷ labels) tag = if str_eq t tag then label else label_in labels tag

-- `TAG_LABELS.get(tag, tag)`
unfoldable pub label_of : String → String
unfolding label_in tag_labels
label_of tag = label_in tag_labels tag

-- `if val: tag_counts[val] = tag_counts.get(val, 0) + 1`
abbrev pub count_tag : Option String → List (String × ℕ) → List (String × ℕ)
count_tag none counts = counts
count_tag (some val) counts = if is_truthy val then bump val counts else counts

abbrev pub count_element : Element → List (String × ℕ) → List (String × ℕ)
count_element el counts = count_tag el.leisure (count_tag el.natural (count_tag el.landuse counts))

unfoldable pub tag_counts : List Element → List (String × ℕ) → List (String × ℕ)
unfolding bump
tag_counts [] counts = counts
tag_counts (el ∷ elements) counts = tag_counts elements (count_element el counts)

-- `sorted(…, key=lambda x: -x[1])`, which keeps the order of equal counts
unfoldable pub insert_count : String × ℕ → List (String × ℕ) → List (String × ℕ)
insert_count c [] = c ∷ []
insert_count c (d ∷ counts) = if leb d.1 c.1 then c ∷ d ∷ counts else d ∷ insert_count c counts

unfoldable pub by_count : List (String × ℕ) → List (String × ℕ)
unfolding insert_count
by_count [] = []
by_count (c ∷ counts) = insert_count c (by_count counts)

-- `sum(tag_counts.values()) or 1`
abbrev pub at_least_one : ℕ → ℕ
at_least_one n = if ltb 0 n then n else 1

-- one class for each tag, with its rounded percentage
unfoldable pub classes_of : (ℕ → ℕ → ℕ) → ℕ → List (String × ℕ) → List LandCoverClass
unfolding label_of
classes_of share all [] = []
classes_of share all ((tag, count) ∷ counts) =
    record { tag = tag; label = label_of tag; percentage = some (share count all) }
    ∷ classes_of share all counts

-- `f"{c.label} {c.percentage}%"`
abbrev percent_text : Option ℕ → String
percent_text none = "None"
percent_text (some p) = show p

abbrev class_text : LandCoverClass → String
class_text c = join c.label (join " " (join (percent_text c.percentage) "%"))

-- `", ".join(parts)`
joined : List String → String
joined [] = ""
joined (s ∷ []) = s
joined (s ∷ t ∷ parts) = join s (join ", " (joined (t ∷ parts)))

abbrev or_nothing : List String → String
or_nothing [] = "정보 없음"
or_nothing (s ∷ parts) = joined (s ∷ parts)

unfoldable pub summary_text : List LandCoverClass → String
unfolding joined show
summary_text classes = or_nothing (map class_text (take 5 classes))

unfoldable pub land_cover_of : (ℕ → ℕ → ℕ) → List Element → LandCover
unfolding tag_counts by_count classes_of total summary_text
land_cover_of share elements =
    let counts = tag_counts elements [] in
    let classes = classes_of share (at_least_one (total counts)) (by_count counts) in
    record { classes = classes; summary = summary_text classes }

abbrev pub no_land_cover : LandCover
no_land_cover = record { classes = []; summary = "정보 없음" }

-- What one call meets outside: the faults and instants of its two calls of the cache, and the answer.
pub record Call : Type 0 where
  pub select_error : Option Error
  pub delete_fault : Fault
  pub get_at : ℕ
  pub set_fault : Fault
  pub set_at : ℕ
  pub answer : Result (Option (List Element))

module _ (loads : String → Option LandCover) (dumps : LandCover → String) (show : Number → String)
    (share : ℕ → ℕ → ℕ) (cache_ttl_seconds : ℕ) where
  abbrev pub cache_key : Number → Number → String
  unfolding round_number
  cache_key lon lat =
      join "landcover:"
        (join (show (round_number 10000 lon)) (join ":" (show (round_number 10000 lat))))

  abbrev stored : LandCover → Result (Unit {0}) × Cache → Result LandCover × Cache
  stored result (ok u, c) = (ok result, c)
  stored result (err e, c) = (err e, c)

  abbrev answered :
      Call → String → Result (Option (List Element)) → Cache → Result LandCover × Cache
  answered call key (err e) c = (err e, c)
  answered call key (ok none) c = (ok no_land_cover, c)
  answered call key (ok (some elements)) c = stored (land_cover_of share elements) (
      set dumps call.set_fault call.set_at key (land_cover_of share elements) none
        (some cache_ttl_seconds) c)

  abbrev looked_up : Call → String → Result (Option LandCover) × Cache → Result LandCover × Cache
  looked_up call key (err e, c) = (err e, c)
  looked_up call key (ok (some cached), c) = (ok cached, c)
  looked_up call key (ok none, c) = answered call key call.answer c

  unfoldable pub get_land_cover : Call → Number → Number → Cache → Result LandCover × Cache
  unfolding get set land_cover_of
  get_land_cover call lon lat c =
      looked_up call (cache_key lon lat)
        (get loads call.select_error call.delete_fault call.get_at (cache_key lon lat) c)
