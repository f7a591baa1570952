-- ===== src/Research.antt =====
-- app/modules/context.py: the search for events at a place, behind the cache.
--
-- `respond` is the answer of DuckDuckGo to a query: an error of the request or of the decoding, or the
-- related topics.
pub mod Kept
pub mod Row
use image_descriptor.Prelude.{
  ℕ, String, Bool, true, false, ◌&&◌, ◌||◌, Option, none, some, List, [], ◌∷◌, leb, length, take,
  if◌then◌else◌,
}
use image_descriptor.Prelude.Text.{join, is_truthy}
use image_descriptor.Prelude.Decimal.{show}
use Prim.Native.String.{slice, count}
use image_descriptor.Errors.{
  Error, ErrorClass, Result, ok, err, is_timeout_error, is_http_error, is_json_error,
}
use image_descriptor.Schemas.{Context, Event}
use image_descriptor.Cache.{Cache, Fault, get, set}

-- `Text` and `FirstURL` of a topic
pub record Topic : Type 0 where
  pub text : Option String
  pub url : Option String

-- the first seven characters of a date, or what there is
unfoldable pub month_of : Option String → String
month_of none = "unknown"
month_of (some captured_at) =
    if is_truthy captured_at
    then (if leb 7 (count captured_at) then slice captured_at 0 7 else captured_at)
    else "unknown"

abbrev pub or_empty : Option String → String
or_empty none = ""
or_empty (some s) = s

-- `" ".join(filter(None, [region, city])) or place_name`
unfoldable pub search_name_of : String → String → Option String → String
search_name_of place_name region city =
    if is_truthy region && is_truthy (or_empty city)
    then join region (join " " (or_empty city))
    else if is_truthy region
    then region
    else if is_truthy (or_empty city)
    then or_empty city
    else place_name

abbrev topic_events : String → String → String → List Event → List Event
topic_events month text url events =
    if is_truthy text && is_truthy url
    then record { title = slice text 0 200; date = month; source_url = url; relevance = "low" }
      ∷ events
    else events

unfoldable pub events_of : String → List Topic → List Event
events_of month [] = []
events_of month (topic ∷ topics) =
    topic_events month (or_empty topic.text) (or_empty topic.url) (events_of month topics)

-- `except (json.JSONDecodeError, httpx.HTTPError, TimeoutError)`
abbrev pub is_caught : ErrorClass → Bool
is_caught c = is_json_error c || is_http_error c || is_timeout_error c

abbrev summary_of : String → String → List Event → String
summary_of search_name month [] = join search_name (join " " (join month "에 대한 관련 정보를 찾지 못했습니다."))
summary_of search_name month (event ∷ events) =
    join search_name
      (join " " (join month (join " 관련 정보 " (join (show (length (event ∷ events))) "건 발견."))))

unfoldable pub context_of : String → String → List Event → Context
unfolding show
context_of search_name month events = record {
  events = events;
  summary = summary_of search_name month events;
}

-- What one call meets outside.
pub record Call : Type 0 where
  pub select_error : Option Error
  pub delete_fault : Fault
  pub get_at : ℕ
  pub set_fault : Fault
  pub set_at : ℕ
  pub respond : String → Result (List Topic)

abbrev pub cache_key : String → String → String
cache_key search_name month = join "context:" (join search_name (join ":" month))

module _ (loads : String → Option Context) (dumps : Context → String) where
  abbrev stored : Context → Result (Unit {0}) × Cache → Result Context × Cache
  stored result (ok u, c) = (ok result, c)
  stored result (err e, c) = (err e, c)

  abbrev pub saved : Call → String → String → List Event → Cache → Result Context × Cache
  saved call search_name month events c = stored (context_of search_name month events) (
      set dumps call.set_fault call.set_at (cache_key search_name month)
        (context_of search_name month events) (some 7) none c)

  -- A search that fails by a caught error has no events, and goes on like any other.
  abbrev pub searched :
      Call → String → String → Result (List Topic) → Cache → Result Context × Cache
  searched call search_name month (ok topics) c =
      saved call search_name month (events_of month (take 5 topics)) c
  searched call search_name month (err e) c =
      if is_caught e.kind then saved call search_name month [] c else (err e, c)

  abbrev pub looked_up :
      Call → String → String → Result (Option Context) × Cache → Result Context × Cache
  looked_up call search_name month (err e, c) = (err e, c)
  looked_up call search_name month (ok (some cached), c) = (ok cached, c)
  looked_up call search_name month (ok none, c) =
      searched call search_name month (call.respond (join search_name (join " " month))) c

  unfoldable pub research_context :
      Call → String → Option String → String → Option String → Cache → Result Context × Cache
  unfolding get set month_of search_name_of events_of context_of
  research_context call place_name captured_at region city c =
      let month = month_of captured_at in
      let search_name = search_name_of place_name region city in
      looked_up call search_name month
        (get loads call.select_error call.delete_fault call.get_at (cache_key search_name month) c)
