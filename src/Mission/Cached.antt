-- ===== src/Mission/Cached.antt =====
-- What the cache gives a second call.
use image_descriptor.Prelude.{◌+◌, ◌*◌, ◌≤◌, ◌≡◌, String, true, Option, none, some, arith}
use image_descriptor.Prelude.Text.{join, is_truthy}
use image_descriptor.Errors.{Result, ok}
use image_descriptor.Schemas
use image_descriptor.Cache.{Cache, fine, get, set, second, is_expired}
use image_descriptor.Cache.Refinement.{get-set}
use image_descriptor.Mission.{Item, Call, parse_mission, get_mission_metadata, looked_up, address}

module _ (loads : String → Option Schemas.Mission) (dumps : Schemas.Mission → String)
    (upper : String → String) where
  looked_up-set :
      (call : Call) (stac_id key : String) (item : Item)
      (p : Result (Option Schemas.Mission) × Cache)
      → p.0 ≡ ok none
      → call.respond (address upper stac_id) ≡ ok (some item)
      → call.set_fault ≡ fine
      → (looked_up loads dumps upper call stac_id key p).1
        ≡ (set dumps fine call.set_at key (parse_mission item) (some 365) none p.1).1
  unfolding set
  looked_up-set call stac_id key item (r, c) missed a f = rw (missed, a, f) (ground arith)

  looked_up-found :
      (call : Call) (stac_id key : String) (m : Schemas.Mission)
      (q : Result (Option Schemas.Mission) × Cache)
      → q.0 ≡ ok (some m)
      → (looked_up loads dumps upper call stac_id key q).0 ≡ ok (some m)
  looked_up-found call stac_id key m (r, d) h = rw h (ground arith)

  -- Where a call finds no metadata in the cache, fetches the item, and stores its metadata, the next
  -- call, if it is for the same id and comes within 365 days, and if its read of the cache does not fail,
  -- gives these metadata back, whatever the catalogue would answer then. The id is not empty, and the
  -- JSON codec is taken to give the metadata back.
  pub get_mission_metadata_again :
      (call again : Call) (stac_id : String) (item : Item) (c : Cache)
      → is_truthy stac_id ≡ true
      → loads (dumps (parse_mission item)) ≡ some (parse_mission item)
      → (get loads call.select_error call.delete_fault call.get_at (join "mission:" stac_id) c).0
        ≡ ok none
      → call.respond (address upper stac_id) ≡ ok (some item)
      → call.set_fault ≡ fine
      → again.select_error ≡ none
      → again.get_at ≤ call.set_at + 365 * 86400 * second
      → let c' = (get_mission_metadata loads dumps upper call (some stac_id) c).1 in
        (get_mission_metadata loads dumps upper again (some stac_id) c').0
        ≡ ok (some (parse_mission item))
  unfolding get_mission_metadata
  get_mission_metadata_again call again stac_id item c given codec missed a f e t =
      let key = join "mission:" stac_id in
      let p = get loads call.select_error call.delete_fault call.get_at key c in
      let c' = (set dumps fine call.set_at key (parse_mission item) (some 365) none p.1).1 in
      let q = get loads again.select_error again.delete_fault again.get_at key c' in
      let there : q.0 ≡ ok (some (parse_mission item)) = rw e (
        get-set loads dumps again.delete_fault call.set_at again.get_at key (parse_mission item)
          (some 365) none p.1 codec (unfold is_expired in ground arith)) in
      rw (given, looked_up-set call stac_id key item p missed a f)
        (looked_up-found again stac_id key (parse_mission item) q there)
