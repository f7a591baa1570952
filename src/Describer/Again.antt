-- ===== src/Describer/Again.antt =====
-- What the cache gives a second call for an image.
use image_descriptor.Prelude.{
  ◌≡◌, refl, ap, String, true, false, Option, none, some, List, [], arith,
}
use image_descriptor.Prelude.Text.{is_truthy, eq_refl}
use image_descriptor.Errors.{Result, ok, err}
use image_descriptor.Cache.{Cache, fine, get, set, write, found, is_expired}
use image_descriptor.Cache.Rows.{Row, select}
use image_descriptor.Cache.Rows.Lookup.{select-replace}
use image_descriptor.Cache.Refinement.{get-set}
use image_descriptor.Describer.{
  Network, Subject, Call, Described, cache_key, saved, prepared, fetched, described, looked_up,
  describe_image,
}

-- the row that a description has been stored in
abbrev pub row_of : (String → String) → String → String → Row
row_of dumps id d = record { key = cache_key id; value = dumps d; expires_at = none }

module _ {B : Type 0} (loads : String → Option String) (dumps : String → String)
    (net : Network) where
  -- a cache that is left by the `set` of a description
  abbrev pub IsKept : Call B → String → String → Cache → Type 0
  IsKept call id d c' =
      (c : Cache) × (c' ≡ (set dumps fine call.set_at (cache_key id) d none none c).1)

  saved-IsKept :
      (call : Call B) (id d : String) (r : Result String) (c c' : Cache)
      → is_truthy id ≡ true
      → call.set_fault ≡ fine
      → saved dumps call (some id) r c ≡ (ok (d, false), c')
      → IsKept call id d c'
  unfolding set
  saved-IsKept call id d (err x) c c' given f e = absurd (ground arith)
  saved-IsKept call id d (ok x) c c' given f e = (c, ground arith)

  looked_up-IsKept :
      (call : Call B) (id d : String) (s : Subject B) (q : Result (Option String) × Cache)
      (c' : Cache) (urls : List String)
      → is_truthy id ≡ true
      → call.set_fault ≡ fine
      → looked_up dumps net call id s q ≡ (ok (d, false), c', urls)
      → IsKept call id d c'
  looked_up-IsKept call id d s (err x, c) c' urls given f e = absurd (ground arith)
  looked_up-IsKept call id d s (ok (some x), c) c' urls given f e = absurd (ground arith)
  looked_up-IsKept call id d s (ok none, c) c' urls given f e =
      saved-IsKept call id d (prepared call s (fetched net call s).0) c c' given f
        (unfold described in ap (λ (p : Described × Cache × List String). (p.0, p.1)) e)

  pub looked_up-found :
      (call : Call B) (id d : String) (s : Subject B) (q : Result (Option String) × Cache)
      → q.0 ≡ ok (some d)
      → looked_up dumps net call id s q ≡ (ok (d, true), q.1, [])
  looked_up-found call id d s (r, c) h = rw h refl

  IsKept-row :
      (call : Call B) (id d : String) (c' : Cache)
      → IsKept call id d c'
      → select (cache_key id) c'.table ≡ some (row_of dumps id d)
  unfolding set write
  IsKept-row call id d c' (c, e) = rw e (
      ground
        (arith, select-replace (row_of dumps id d) (cache_key id) c.table, eq_refl (cache_key id)))

  -- A description that was made and stored stands in the row of its image.
  pub describe_image-row :
      (call : Call B) (id d : String) (s : Subject B) (c : Cache)
      → is_truthy id ≡ true
      → call.set_fault ≡ fine
      → (describe_image dumps loads net call (some id) s c).0 ≡ ok (d, false)
      → select (cache_key id) (describe_image dumps loads net call (some id) s c).1.table
        ≡ some (row_of dumps id d)
  unfolding describe_image
  describe_image-row call id d s c given f e =
      let q = get loads call.select_error call.delete_fault call.get_at (cache_key id) c in
      let p = looked_up dumps net call id s q in
      let made : p.0 ≡ ok (d, false) = rw given at e in
      rw given (
        IsKept-row call id d p.1 (
          looked_up-IsKept call id d s q p.1 p.2 given f
            (ap (λ (r : Described). (r, p.1, p.2)) made)))

  -- A description that stands in the row of its image is given back.
  pub describe_image_found :
      (call : Call B) (id d : String) (s : Subject B) (c : Cache)
      → is_truthy id ≡ true
      → loads (dumps d) ≡ some d
      → call.select_error ≡ none
      → select (cache_key id) c.table ≡ some (row_of dumps id d)
      → let later = describe_image dumps loads net call (some id) s c in
        (later.0 ≡ ok (d, true)) × (later.2 ≡ [])
  unfolding describe_image get found is_expired
  describe_image_found call id d s c given codec e there =
      let q = get loads call.select_error call.delete_fault call.get_at (cache_key id) c in
      let hit : q.0 ≡ ok (some d) = rw e (rw there (rw codec refl)) in
      let found = looked_up-found call id d s q hit in
      rw given (
        ap (λ (r : Described × Cache × List String). r.0) found,
        ap (λ (r : Described × Cache × List String). r.2) found,
      )

  -- A description that was made for an image with an id, and stored, is given back by every later call
  -- for that id, whatever the thumbnail, the place, the date, the land cover and the bounding box of that
  -- call, and at whatever time: no address is requested for it. The JSON codec is taken to give
  -- descriptions back.
  pub describe_image_again :
      (call again : Call B) (id d : String) (s other : Subject B) (c c' : Cache)
      (urls : List String)
      → is_truthy id ≡ true
      → loads (dumps d) ≡ some d
      → call.set_fault ≡ fine
      → again.select_error ≡ none
      → describe_image dumps loads net call (some id) s c ≡ (ok (d, false), c', urls)
      → let later = describe_image dumps loads net again (some id) other c' in
        (later.0 ≡ ok (d, true)) × (later.2 ≡ [])
  unfolding describe_image
  describe_image_again call again id d s other c c' urls given codec f e first =
      let (d0, kept) =
        looked_up-IsKept call id d s
          (get loads call.select_error call.delete_fault call.get_at (cache_key id) c) c' urls given
          f (rw given at first) in
      let q = get loads again.select_error again.delete_fault again.get_at (cache_key id) c' in
      let there : q.0 ≡ ok (some d) =
        rw (e, kept)
          (get-set loads dumps again.delete_fault call.set_at again.get_at (cache_key id) d none
            none d0 codec (unfold is_expired in refl)) in
      let found = looked_up-found again id d other q there in
      rw given (
        ap (λ (r : Described × Cache × List String). r.0) found,
        ap (λ (r : Described × Cache × List String). r.2) found,
      )
