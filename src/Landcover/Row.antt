-- ===== src/Landcover/Row.antt =====
-- The row of the cache that a call reads and writes.
use image_descriptor.Prelude.{ℕ, String, Option, none, some, List}
use image_descriptor.Prelude.Number.{Number}
use image_descriptor.Errors.{Result, ok, err}
use image_descriptor.Schemas.{LandCover}
use image_descriptor.Cache.{get, set}
use image_descriptor.Cache.Local.{
  IsLocal, table_of, pure-IsLocal, then-IsLocal, get-IsLocal, set-IsLocal,
}
use image_descriptor.Landcover.{
  Element, Call, get_land_cover, land_cover_of, cache_key, stored, answered, looked_up,
}

module _ (loads : String → Option LandCover) (dumps : LandCover → String) (show : Number → String)
    (share : ℕ → ℕ → ℕ) (cache_ttl_seconds : ℕ) (key : String) where
  stored-IsLocal :
      (result : LandCover) (r : Result (Unit {0}))
      → IsLocal table_of key (λ c. stored loads dumps show share cache_ttl_seconds result (r, c))
  stored-IsLocal result (ok u) = pure-IsLocal table_of key (ok result)
  stored-IsLocal result (err e) = pure-IsLocal table_of key (err e)

  answered-IsLocal :
      (call : Call) (body : Result (Option (List Element)))
      → IsLocal table_of key (answered loads dumps show share cache_ttl_seconds call key body)
  answered-IsLocal call (err e) = pure-IsLocal table_of key (err e)
  answered-IsLocal call (ok none) = pure-IsLocal table_of key (ok _)
  answered-IsLocal call (ok (some elements)) =
      then-IsLocal table_of key
        (set dumps call.set_fault call.set_at key (land_cover_of share elements) none
          (some cache_ttl_seconds))
        (λ r c.
          stored loads dumps show share cache_ttl_seconds (land_cover_of share elements) (r, c))
        (set-IsLocal key dumps call.set_fault call.set_at (land_cover_of share elements) none
          (some cache_ttl_seconds))
        (stored-IsLocal (land_cover_of share elements))

  looked_up-IsLocal :
      (call : Call) (r : Result (Option LandCover))
      → IsLocal table_of key
          (λ c. looked_up loads dumps show share cache_ttl_seconds call key (r, c))
  looked_up-IsLocal call (err e) = pure-IsLocal table_of key (err e)
  looked_up-IsLocal call (ok (some cached)) = pure-IsLocal table_of key (ok cached)
  looked_up-IsLocal call (ok none) = answered-IsLocal call call.answer

module _ (loads : String → Option LandCover) (dumps : LandCover → String) (show : Number → String)
    (share : ℕ → ℕ → ℕ) (cache_ttl_seconds : ℕ) where
  pub get_land_cover-IsLocal :
      (call : Call) (lon lat : Number)
      → let key = cache_key loads dumps show share cache_ttl_seconds lon lat in
        IsLocal table_of key (get_land_cover loads dumps show share cache_ttl_seconds call lon lat)
  unfolding get_land_cover
  get_land_cover-IsLocal call lon lat =
      let key = cache_key loads dumps show share cache_ttl_seconds lon lat in
      then-IsLocal table_of key (get loads call.select_error call.delete_fault call.get_at key)
        (λ r c. looked_up loads dumps show share cache_ttl_seconds call key (r, c))
        (get-IsLocal key loads call.delete_fault call.get_at call.select_error)
        (looked_up-IsLocal loads dumps show share cache_ttl_seconds key call)
