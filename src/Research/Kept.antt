-- ===== src/Research/Kept.antt =====
-- How long an outcome of the search is kept.
use image_descriptor.Prelude.{◌+◌, ◌*◌, ◌≤◌, ◌≡◌, String, true, Option, none, some, [], arith}
use image_descriptor.Prelude.Text.{join}
use image_descriptor.Errors.{Error, Result, ok, err}
use image_descriptor.Schemas.{Context}
use image_descriptor.Cache.{Cache, fine, get, set, second, is_expired}
use image_descriptor.Cache.Refinement.{get-set}
use image_descriptor.Research.{
  Call, month_of, search_name_of, context_of, cache_key, is_caught, looked_up, research_context,
}

module _ (loads : String → Option Context) (dumps : Context → String) where
  looked_up-set :
      (call : Call) (search_name month : String) (e : Error) (p : Result (Option Context) × Cache)
      → p.0 ≡ ok none
      → call.respond (join search_name (join " " month)) ≡ err e
      → is_caught e.kind ≡ true
      → call.set_fault ≡ fine
      → (looked_up loads dumps call search_name month p).1
        ≡ (set dumps fine call.set_at
            (cache_key search_name month)
            (context_of search_name month [])
            (some 7)
            none
            p.1).1
  unfolding set
  looked_up-set call search_name month e (r, c) missed a k f = rw (missed, a, k, f) (ground arith)

  looked_up-found :
      (call : Call) (search_name month : String) (context : Context)
      (q : Result (Option Context) × Cache)
      → q.0 ≡ ok (some context)
      → (looked_up loads dumps call search_name month q).0 ≡ ok context
  looked_up-found call search_name month context (r, d) h = rw h (ground arith)

  -- A search that fails by an error that is caught, such as a lost connection, is stored as a search that
  -- found nothing: the next call, if its place and date come down to the same name and month, if it comes
  -- within seven days and its read of the cache does not fail, answers with no events, whatever
  -- DuckDuckGo would answer then. The failed call is one that finds nothing in the cache and whose
  -- result is stored, and the JSON codec is taken to give the stored context back.
  pub failed_search_kept :
      (call again : Call) (place_name place_name' : String)
      (captured_at captured_at' : Option String) (region region' : String)
      (city city' : Option String) (c : Cache) (e : Error)
      → let month = month_of captured_at in
        let search_name = search_name_of place_name region city in
        let nothing = context_of search_name month [] in
        month_of captured_at' ≡ month
        → search_name_of place_name' region' city' ≡ search_name
        → loads (dumps nothing) ≡ some nothing
        → (get loads call.select_error call.delete_fault call.get_at
            (cache_key search_name month)
            c).0
          ≡ ok none
        → call.respond (join search_name (join " " month)) ≡ err e
        → is_caught e.kind ≡ true
        → call.set_fault ≡ fine
        → again.select_error ≡ none
        → again.get_at ≤ call.set_at + 7 * 86400 * second
        → let c' = (research_context loads dumps call place_name captured_at region city c).1 in
          (research_context loads dumps again place_name' captured_at' region' city' c').0
          ≡ ok nothing
  unfolding research_context
  failed_search_kept call again place_name place_name' captured_at captured_at' region region' city
        city' c e same_month same_name codec missed a k f none_err t =
      let month = month_of captured_at in
      let search_name = search_name_of place_name region city in
      let nothing = context_of search_name month [] in
      let key = cache_key search_name month in
      let p = get loads call.select_error call.delete_fault call.get_at key c in
      let c' = (set dumps fine call.set_at key nothing (some 7) none p.1).1 in
      let q = get loads again.select_error again.delete_fault again.get_at key c' in
      let there : q.0 ≡ ok (some nothing) = rw none_err (
        get-set loads dumps again.delete_fault call.set_at again.get_at key nothing (some 7) none
          p.1 codec (unfold is_expired in ground arith)) in
      rw (same_month, same_name, looked_up-set call search_name month e p missed a k f)
        (looked_up-found again search_name month nothing q there)
