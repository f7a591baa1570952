-- ===== src/Mission/Row.antt =====
-- The row of the cache that a call reads and writes.
use image_descriptor.Prelude.{String, Option, none, some}
use image_descriptor.Prelude.Text.{join, is_truthy, text_of}
use image_descriptor.Errors.{Result, ok, err}
use image_descriptor.Schemas
use image_descriptor.Cache.{get, set}
use image_descriptor.Cache.Local.{
  IsLocal, table_of, if-IsLocal, pure-IsLocal, then-IsLocal, get-IsLocal, set-IsLocal,
}
use image_descriptor.Mission.{
  Item, Call, get_mission_metadata, parse_mission, stored, answered, looked_up, address,
}

abbrev pub key_of : Option String → String
key_of stac_id = join "mission:" (text_of stac_id)

module _ (loads : String → Option Schemas.Mission) (dumps : Schemas.Mission → String)
    (upper : String → String) where
  stored-IsLocal :
      (key : String) (m : Schemas.Mission) (r : Result (Unit {0}))
      → IsLocal table_of key (λ c. stored loads dumps upper m (r, c))
  stored-IsLocal key m (ok u) = pure-IsLocal table_of key (ok (some m))
  stored-IsLocal key m (err e) = pure-IsLocal table_of key (err e)

  answered-IsLocal :
      (call : Call) (key : String) (body : Result (Option Item))
      → IsLocal table_of key (answered loads dumps upper call key body)
  answered-IsLocal call key (err e) = pure-IsLocal table_of key (err e)
  answered-IsLocal call key (ok none) = pure-IsLocal table_of key (ok none)
  answered-IsLocal call key (ok (some item)) =
      then-IsLocal table_of key
        (set dumps call.set_fault call.set_at key (parse_mission item) (some 365) none)
        (λ r c. stored loads dumps upper (parse_mission item) (r, c))
        (set-IsLocal key dumps call.set_fault call.set_at (parse_mission item) (some 365) none)
        (stored-IsLocal key (parse_mission item))

  looked_up-IsLocal :
      (call : Call) (stac_id key : String) (r : Result (Option Schemas.Mission))
      → IsLocal table_of key (λ c. looked_up loads dumps upper call stac_id key (r, c))
  looked_up-IsLocal call stac_id key (err e) = pure-IsLocal table_of key (err e)
  looked_up-IsLocal call stac_id key (ok (some cached)) =
      pure-IsLocal table_of key (ok (some cached))
  looked_up-IsLocal call stac_id key (ok none) =
      answered-IsLocal call key (call.respond (address upper stac_id))

  pub get_mission_metadata-IsLocal :
      (call : Call) (stac_id : Option String)
      → IsLocal table_of (key_of stac_id) (get_mission_metadata loads dumps upper call stac_id)
  unfolding get_mission_metadata
  get_mission_metadata-IsLocal call none = pure-IsLocal table_of (key_of none) (ok none)
  get_mission_metadata-IsLocal call (some stac_id) =
      let key = join "mission:" stac_id in
      let read = get loads call.select_error call.delete_fault call.get_at key in
      if-IsLocal table_of key (is_truthy stac_id)
        (λ c. looked_up loads dumps upper call stac_id key (read c)) (λ c. (ok none, c))
        (then-IsLocal table_of key read (λ r c. looked_up loads dumps upper call stac_id key (r, c))
          (get-IsLocal key loads call.delete_fault call.get_at call.select_error)
          (looked_up-IsLocal call stac_id key))
        (pure-IsLocal table_of key (ok none))
