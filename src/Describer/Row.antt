-- ===== src/Describer/Row.antt =====
-- The row of the cache that a call reads and writes.
use image_descriptor.Prelude.{
  String, Bool, true, false, if◌then◌else◌, Option, none, some, List, [],
}
use image_descriptor.Prelude.Text.{is_truthy, text_of}
use image_descriptor.Errors.{Result, ok, err}
use image_descriptor.Cache.{Cache, get, set}
use image_descriptor.Cache.Local.{
  IsLocal, table_of, if-IsLocal, pure-IsLocal, then-IsLocal, get-IsLocal, set-IsLocal,
}
use image_descriptor.Describer.{
  Network, Subject, Call, Described, cache_key, stored, saved, prepared, fetched, described,
  looked_up, describe_image,
}

abbrev pub key_of : Option String → String
key_of id = cache_key (text_of id)

-- with the addresses as a part of the answer
abbrev pub with_urls : Described × Cache × List String → (Described × List String) × Cache
with_urls (d, c, urls) = ((d, urls), c)

stored-IsLocal :
    (key description : String) (r : Result (Unit {0}))
    → IsLocal table_of key (λ c. stored description (r, c))
stored-IsLocal key description (ok u) = pure-IsLocal table_of key (ok (description, false))
stored-IsLocal key description (err e) = pure-IsLocal table_of key (err e)

chosen-IsLocal :
    (key : String) (b : Bool) (f g : Cache → Described × Cache × List String)
    → IsLocal table_of key (λ c. with_urls (f c))
    → IsLocal table_of key (λ c. with_urls (g c))
    → IsLocal table_of key (λ c. with_urls (if b then f c else g c))
chosen-IsLocal key true f g p q = p
chosen-IsLocal key false f g p q = q

module _ {B : Type 0} (dumps : String → String) where
  saved-IsLocal :
      (call : Call B) (id : Option String) (r : Result String)
      → IsLocal table_of (key_of id) (saved dumps call id r)
  saved-IsLocal call id (err e) = pure-IsLocal table_of (key_of id) (err e)
  saved-IsLocal call none (ok description) =
      pure-IsLocal table_of (key_of none) (ok (description, false))
  saved-IsLocal call (some id) (ok description) =
      let key = cache_key id in
      let write = set dumps call.set_fault call.set_at key description none none in
      if-IsLocal table_of key (is_truthy id) (λ c. stored description (write c))
        (λ c. (ok (description, false), c))
        (then-IsLocal table_of key write (λ r c. stored description (r, c))
          (set-IsLocal key dumps call.set_fault call.set_at description none none)
          (stored-IsLocal key description))
        (pure-IsLocal table_of key (ok (description, false)))

  module _ (net : Network) (call : Call B) (s : Subject B) where
    described-IsLocal :
        (id : Option String)
        → IsLocal table_of (key_of id) (λ c. with_urls (described dumps net call id s c))
    unfolding described
    described-IsLocal id =
        let image = fetched net call s in
        then-IsLocal table_of (key_of id) (saved dumps call id (prepared call s image.0))
          (λ d c. ((d, image.1), c)) (saved-IsLocal call id (prepared call s image.0))
          (λ d. pure-IsLocal table_of (key_of id) (d, image.1))

    looked_up-IsLocal :
        (id : String) (r : Result (Option String))
        → IsLocal table_of (cache_key id) (λ c. with_urls (looked_up dumps net call id s (r, c)))
    looked_up-IsLocal id (err e) = pure-IsLocal table_of (cache_key id) (err e, [])
    looked_up-IsLocal id (ok (some d)) = pure-IsLocal table_of (cache_key id) (ok (d, true), [])
    looked_up-IsLocal id (ok none) = described-IsLocal (some id)

    pub describe_image-IsLocal :
        (loads : String → Option String) (id : Option String)
        → IsLocal table_of (key_of id) (λ c. with_urls (describe_image dumps loads net call id s c))
    unfolding describe_image
    describe_image-IsLocal loads none = described-IsLocal none
    describe_image-IsLocal loads (some id) =
        let key = cache_key id in
        let read = get loads call.select_error call.delete_fault call.get_at key in
        chosen-IsLocal key (is_truthy id) (λ c. looked_up dumps net call id s (read c))
          (described dumps net call (some id) s)
          (then-IsLocal table_of key read (λ r c. with_urls (looked_up dumps net call id s (r, c)))
            (get-IsLocal key loads call.delete_fault call.get_at call.select_error)
            (looked_up-IsLocal id))
          (described-IsLocal (some id))
