-- ===== src/Landcover/Cached.antt =====
-- What the cache gives a second call.
use image_descriptor.Prelude.{ℕ, ◌+◌, ◌*◌, ◌≤◌, ◌≡◌, String, Option, none, some, List, arith}
use image_descriptor.Prelude.Number.{Number}
use image_descriptor.Errors.{Result, ok}
use image_descriptor.Schemas.{LandCover}
use image_descriptor.Cache.{Cache, fine, get, set, second, is_expired}
use image_descriptor.Cache.Refinement.{get-set}
use image_descriptor.Landcover.{Element, Call, get_land_cover, land_cover_of, cache_key, looked_up}

module _ (loads : String → Option LandCover) (dumps : LandCover → String) (show : Number → String)
    (share : ℕ → ℕ → ℕ) (cache_ttl_seconds : ℕ) where
  looked_up-set :
      (call : Call) (key : String) (els : List Element) (p : Result (Option LandCover) × Cache)
      → p.0 ≡ ok none
      → call.answer ≡ ok (some els)
      → call.set_fault ≡ fine
      → (looked_up loads dumps show share cache_ttl_seconds call key p).1
        ≡ (set dumps fine call.set_at key
            (land_cover_of share els)
            none
            (some cache_ttl_seconds)
            p.1).1
  unfolding set
  looked_up-set call key els (r, c) missed a f = rw (missed, a, f) (ground arith)

  -- A land cover that was fetched and stored is given back by every call for the same rounded
  -- coordinates until `cache_ttl_seconds` have passed, whatever Overpass would answer then. The JSON
  -- codec is taken to give the land cover back.
  pub get_land_cover_again :
      (call again : Call) (els : List Element) (lon lat : Number) (c : Cache)
      → loads (dumps (land_cover_of share els)) ≡ some (land_cover_of share els)
      → (get loads call.select_error call.delete_fault call.get_at
          (cache_key loads dumps show share cache_ttl_seconds lon lat)
          c).0
        ≡ ok none
      → call.answer ≡ ok (some els)
      → call.set_fault ≡ fine
      → again.select_error ≡ none
      → again.get_at ≤ call.set_at + cache_ttl_seconds * second
      → let c' = (get_land_cover loads dumps show share cache_ttl_seconds call lon lat c).1 in
        (get_land_cover loads dumps show share cache_ttl_seconds again lon lat c').0
        ≡ ok (land_cover_of share els)
  unfolding get_land_cover
  get_land_cover_again call again els lon lat c codec missed a f e t =
      let key = cache_key loads dumps show share cache_ttl_seconds lon lat in
      let p = get loads call.select_error call.delete_fault call.get_at key c in
      let c' =
        (set dumps fine call.set_at key (land_cover_of share els) none (some cache_ttl_seconds)
          p.1).1 in
      let there : (get loads again.select_error again.delete_fault again.get_at key c').0
          ≡ ok (some (land_cover_of share els)) =
        rw e (
          get-set loads dumps again.delete_fault call.set_at again.get_at key
            (land_cover_of share els) none (some cache_ttl_seconds) p.1 codec
            (unfold is_expired in ground arith)) in
      rw (looked_up-set call key els p missed a f) (
        given again key (get loads again.select_error again.delete_fault again.get_at key c') there)
    where
      given :
          (call : Call) (key : String) (q : Result (Option LandCover) × Cache)
          → q.0 ≡ ok (some (land_cover_of share els))
          → (looked_up loads dumps show share cache_ttl_seconds call key q).0
            ≡ ok (land_cover_of share els)
      given call key (r, d) h = rw h (ground arith)
