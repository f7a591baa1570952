-- ===== src/Describer.antt =====
-- app/modules/describer.py: the description of an image, behind the cache. The image itself is that of
-- Thumbnail.antt.
--
-- `resize` is `_resize_for_gemini_sync`, of Describer/Resize, with Pillow in it, `generate` the answer
-- of Gemini to an image and a prompt, retries included, and `span` the width and the height that `_bbox_to_km` gives, as they are
-- printed. `today` is the date in ISO format.
pub mod Again
pub mod Row
pub mod Resize
use image_descriptor.Prelude.{
  ℕ, String, Bool, true, false, Option, none, some, List, [], ◌∷◌, if◌then◌else◌,
}
use image_descriptor.Prelude.Text.{join, is_truthy}
use image_descriptor.Errors.{Error, Result, ok, err}
use image_descriptor.Cache.{Cache, Fault, get, set}
use image_descriptor.Thumbnail.{Ip, Response, image_of}

-- the line of the prompt for a bounding box that is given
abbrev coverage_of : Option (String × String) → String
coverage_of none = ""
coverage_of (some (w_km, h_km)) = join "\n영상 범위: 약 " (join w_km (join "km × " (join h_km "km")))

-- `captured_at or "정보 없음"`
abbrev date_or_none : String → String
date_or_none captured_at = if is_truthy captured_at then captured_at else "정보 없음"

-- the text that ends every prompt
abbrev instructions : String
instructions = join "\n\n다음을 포함하여 2-3문장으로 설명해주세요:\n" (
    join "1. 영상에서 관찰되는 주요 지형/지물\n" (
      join "2. 영상의 특이사항이나 주목할 점\n" (
        join "3. 이 영상이 흥미로운 이유\n" (
          join "\n" (
            join "영상 전체 범위를 고려하여 설명해주세요.\n" (
              join "중심 지점뿐 아니라 영상에 보이는 전체 지역을 아우르는 관점으로 작성해주세요.\n"
                (join "촬영일자는 과거 또는 현재의 실제 날짜입니다. 미래 시점으로 해석하지 마세요.\n" ("한국어로 작성해주세요."))))))))

unfoldable pub make_prompt : String → String → String → String → Option (String × String) → String
make_prompt today place_name captured_at land_cover_summary bbox_km =
    join "이 위성영상을 분석해주세요.\n오늘 날짜: " (
      join today (
        join "\n위치(중심점): " (
          join place_name (
            join (coverage_of bbox_km) (
              join "\n촬영일자: " (
                join (date_or_none captured_at)
                  (join "\n피복분류: " (join land_cover_summary instructions))))))))

-- What one call is given besides the image's id.
pub record Subject (B : Type 0) : Type 0 where
  pub thumbnail : String
  pub place_name : String
  pub captured_at : String
  pub land_cover_summary : String
  pub bbox : Option B

-- What one call meets outside.
pub record Call (B : Type 0) : Type 0 where
  pub select_error : Option Error
  pub delete_fault : Fault
  pub get_at : ℕ
  pub set_fault : Fault
  pub set_at : ℕ
  pub respond : ℕ → String → Response
  pub resize : List ℕ → Result (List ℕ)
  pub today : String
  pub span : B → String × String
  pub generate : List ℕ → String → Result String

abbrev pub cache_key : String → String
cache_key id = join "describe:" id

-- the description, with whether it is from the cache
abbrev pub Described : Type 0
Described = Result (String × Bool)

abbrev pub stored : String → Result (Unit {0}) × Cache → Described × Cache
stored description (ok u, c) = (ok (description, false), c)
stored description (err e, c) = (err e, c)

module _ {B : Type 0} where
  abbrev km_of : (B → String × String) → Option B → Option (String × String)
  km_of span none = none
  km_of span (some bbox) = some (span bbox)

  unfoldable pub prompt_of : Call B → Subject B → String
  unfolding make_prompt
  prompt_of call s =
      make_prompt call.today s.place_name s.captured_at s.land_cover_summary
        (km_of call.span s.bbox)

  abbrev resized : Call B → Subject B → Result (List ℕ) → Result String
  resized call s (err e) = err e
  resized call s (ok image) = call.generate image (prompt_of call s)

  abbrev pub prepared : Call B → Subject B → Result (List ℕ) → Result String
  prepared call s (err e) = err e
  prepared call s (ok image) = resized call s (call.resize image)

-- What a download goes through, besides the answers of the servers.
pub record Network : Type 0 where
  pub hostname : String → Option String
  pub resolve : String → Option (List Ip)
  pub max_download : ℕ
  pub retries : ℕ → (ℕ → Result (List ℕ)) → ℕ
  pub max_redirects : ℕ
  pub after_comma : String → Option String
  pub decode : String → Result (List ℕ)

module _ {B : Type 0} where
  -- the image, and the addresses that were requested for it
  abbrev pub fetched : Network → Call B → Subject B → Result (List ℕ) × List String
  unfolding image_of
  fetched net call s =
      image_of net.hostname net.resolve net.max_download net.retries call.respond net.after_comma
        net.decode net.max_redirects s.thumbnail

module _ {B : Type 0} (dumps : String → String) where
  -- what follows the call of Gemini
  abbrev pub saved : Call B → Option String → Result String → Cache → Described × Cache
  saved call id (err e) c = (err e, c)
  saved call none (ok description) c = (ok (description, false), c)
  saved call (some id) (ok description) c =
      if is_truthy id
      then stored description
          (set dumps call.set_fault call.set_at (cache_key id) description none none c)
      else (ok (description, false), c)

  -- an image whose description the cache does not have
  unfoldable pub described :
      Network → Call B → Option String → Subject B → Cache → Described × Cache × List String
  unfolding image_of prompt_of set
  described net call id s c =
      let image = fetched net call s in
      let d = saved call id (prepared call s image.0) c in (d.0, d.1, image.1)

  abbrev pub looked_up :
      Network
      → Call B
      → String
      → Subject B
      → Result (Option String) × Cache
      → Described × Cache × List String
  looked_up net call id s (err e, c) = (err e, c, [])
  looked_up net call id s (ok (some description), c) = (ok (description, true), c, [])
  looked_up net call id s (ok none, c) = described net call (some id) s c

  unfoldable pub describe_image :
      (String → Option String)
      → Network
      → Call B
      → Option String
      → Subject B
      → Cache
      → Described × Cache × List String
  unfolding described get
  describe_image loads net call none s c = described net call none s c
  describe_image loads net call (some id) s c =
      if is_truthy id
      then looked_up net call id s
          (get loads call.select_error call.delete_fault call.get_at (cache_key id) c)
      else described net call (some id) s c
