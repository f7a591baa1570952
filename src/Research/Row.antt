-- ===== src/Research/Row.antt =====
-- The row of the cache that a call reads and writes.
use image_descriptor.Prelude.{String, Option, none, some, List, [], take}
use image_descriptor.Prelude.Text.{join}
use image_descriptor.Errors.{Result, ok, err}
use image_descriptor.Schemas.{Context, Event}
use image_descriptor.Cache.{get, set}
use image_descriptor.Cache.Local.{
  IsLocal, table_of, if-IsLocal, pure-IsLocal, then-IsLocal, get-IsLocal, set-IsLocal,
}
use image_descriptor.Research.{
  Topic, Call, research_context, context_of, stored, saved, searched, looked_up, cache_key,
  month_of, search_name_of, events_of, is_caught,
}

module _ (loads : String → Option Context) (dumps : Context → String) where
  stored-IsLocal :
      (key : String) (result : Context) (r : Result (Unit {0}))
      → IsLocal table_of key (λ c. stored loads dumps result (r, c))
  stored-IsLocal key result (ok u) = pure-IsLocal table_of key (ok result)
  stored-IsLocal key result (err e) = pure-IsLocal table_of key (err e)

  module _ (call : Call) (search_name month : String) where
    saved-IsLocal :
        (events : List Event)
        → IsLocal table_of
            (cache_key search_name month)
            (saved loads dumps call search_name month events)
    saved-IsLocal events =
        let key = cache_key search_name month in
        let result = context_of search_name month events in
        then-IsLocal table_of key (set dumps call.set_fault call.set_at key result (some 7) none)
          (λ r c. stored loads dumps result (r, c))
          (set-IsLocal key dumps call.set_fault call.set_at result (some 7) none)
          (stored-IsLocal key result)

    searched-IsLocal :
        (r : Result (List Topic))
        → IsLocal table_of
            (cache_key search_name month)
            (searched loads dumps call search_name month r)
    searched-IsLocal (ok topics) = saved-IsLocal (events_of month (take 5 topics))
    searched-IsLocal (err e) =
        if-IsLocal table_of (cache_key search_name month) (is_caught e.kind)
          (saved loads dumps call search_name month []) (λ c. (err e, c)) (saved-IsLocal [])
          (pure-IsLocal table_of (cache_key search_name month) (err e))

    looked_up-IsLocal :
        (r : Result (Option Context))
        → IsLocal table_of
            (cache_key search_name month)
            (λ c. looked_up loads dumps call search_name month (r, c))
    looked_up-IsLocal (err e) = pure-IsLocal table_of (cache_key search_name month) (err e)
    looked_up-IsLocal (ok (some cached)) =
        pure-IsLocal table_of (cache_key search_name month) (ok cached)
    looked_up-IsLocal (ok none) =
        searched-IsLocal (call.respond (join search_name (join " " month)))

  pub research_context-IsLocal :
      (call : Call) (place_name : String) (captured_at : Option String) (region : String)
      (city : Option String)
      → IsLocal table_of
          (cache_key (search_name_of place_name region city) (month_of captured_at))
          (research_context loads dumps call place_name captured_at region city)
  unfolding research_context
  research_context-IsLocal call place_name captured_at region city =
      let month = month_of captured_at in
      let search_name = search_name_of place_name region city in
      let key = cache_key search_name month in
      then-IsLocal table_of key (get loads call.select_error call.delete_fault call.get_at key)
        (λ r c. looked_up loads dumps call search_name month (r, c))
        (get-IsLocal key loads call.delete_fault call.get_at call.select_error)
        (looked_up-IsLocal call search_name month)
