-- ===== src/Wired/Rows.antt =====
-- The row of the shared cache that each task reads and writes.
use image_descriptor.Prelude.{ℕ, ◌≡◌, refl, String, false, ◌==◌, arith, Option, List, ◌++◌}
use image_descriptor.Prelude.Text.{str_eq}
use image_descriptor.Prelude.Initial.{initial, initial-join, initial_ne}
use image_descriptor.Prelude.Number.{Number, round_number}
use image_descriptor.Schemas.{DescribeRequest}
use image_descriptor.Cache.{Cache}
use image_descriptor.Cache.Rows.{Table}
use image_descriptor.Cache.Local.{IsLocal, table_of, part-IsLocal, then-IsLocal, keep-IsLocal}
use image_descriptor.Composer.{Service, geocoder, landcover, describer, context, mission}
use image_descriptor.Composer.Calls.{same}
use image_descriptor.Composer.Schedule.{Inputs, task}
use image_descriptor.Geocoder
use image_descriptor.Geocoder.Row as GeocoderRow
use image_descriptor.Landcover
use image_descriptor.Landcover.Row as LandcoverRow
use image_descriptor.Mission.Row as MissionRow
use image_descriptor.Describer
use image_descriptor.Describer.Row as DescriberRow
use image_descriptor.Research
use image_descriptor.Research.Row as ResearchRow
use image_descriptor.Wired.{
  World, Setup, Calls, geocoder_state, geocode_in, describe_in, subject_of, wired,
}

abbrev pub rows : World → Table
rows w = w.cache.table

abbrev with_cache : Cache → World → World
with_cache c w = record w { cache = c }

abbrev with_state : Geocoder.State → World → World
with_state s w = record w {
  cache = s.cache;
  last_request_time = s.last_request_time;
  sent = s.sent;
}

on_cache-IsLocal :
    {A : Type 0} (key : String) (f : Cache → A × Cache)
    → IsLocal table_of key f
    → IsLocal rows key (λ w. ((f w.cache).0, with_cache (f w.cache).1 w))
on_cache-IsLocal key f p =
    part-IsLocal table_of (λ (w : World). w.cache) with_cache key f (λ c w. refl) p

module _ (setup : Setup) (calls : Calls) where
  geocode_in-IsLocal :
      (lon lat : Number)
      → IsLocal rows
          (Geocoder.cache_key setup.loads_location setup.dumps_location setup.show
            setup.without_postcode setup.cache_ttl_seconds lon lat)
          (geocode_in setup calls lon lat)
  geocode_in-IsLocal lon lat =
      part-IsLocal GeocoderRow.rows_of geocoder_state with_state _ _ (λ s w. refl)
        (GeocoderRow.geocode-IsLocal setup.loads_location setup.dumps_location setup.show
          setup.without_postcode setup.cache_ttl_seconds calls.geocoder lon lat)

  describe_in-IsLocal :
      (id : Option String) (subject : Describer.Subject (List Number))
      → IsLocal rows (DescriberRow.key_of id) (describe_in setup calls id subject)
  describe_in-IsLocal id subject =
      let f = λ (c : Cache). DescriberRow.with_urls (
        Describer.describe_image setup.dumps_description setup.loads_description setup.network
          calls.describer id subject c) in
      let key = DescriberRow.key_of id in
      then-IsLocal rows key (λ w. ((f w.cache).0, with_cache (f w.cache).1 w))
        (λ p w. (p.0, record w { images = p.1 ++ w.images }))
        (on_cache-IsLocal key f (
          DescriberRow.describe_image-IsLocal setup.dumps_description setup.network calls.describer
            subject setup.loads_description id))
        (λ p. keep-IsLocal rows key p.0 (λ w. record w { images = p.1 ++ w.images }) (λ w. refl))

module _ (setup : Setup) (calls : Calls) (request : DescribeRequest) (lon lat : Number)
    (inputs : Inputs) where
  abbrev pub key : Service → String
  key geocoder =
      Geocoder.cache_key setup.loads_location setup.dumps_location setup.show setup.without_postcode
        setup.cache_ttl_seconds lon lat
  key landcover =
      Landcover.cache_key setup.loads_land_cover setup.dumps_land_cover setup.show setup.share
        setup.cache_ttl_seconds lon lat
  key mission = MissionRow.key_of request.stac_id
  key describer = DescriberRow.key_of request.cog_image_id
  key context =
      Research.cache_key (Research.search_name_of inputs.place_name inputs.region inputs.city)
        (Research.month_of request.captured_at)

  pub task-IsLocal :
      (n : Service) → IsLocal rows (key n) (task (wired setup calls) request lon lat inputs n)
  unfolding wired
  task-IsLocal geocoder = geocode_in-IsLocal setup calls lon lat
  task-IsLocal landcover = on_cache-IsLocal _ _ (
      LandcoverRow.get_land_cover-IsLocal setup.loads_land_cover setup.dumps_land_cover setup.show
        setup.share setup.cache_ttl_seconds calls.landcover lon lat)
  task-IsLocal mission = on_cache-IsLocal _ _ (
      MissionRow.get_mission_metadata-IsLocal setup.loads_mission setup.dumps_mission setup.upper
        calls.mission request.stac_id)
  task-IsLocal describer = describe_in-IsLocal setup calls request.cog_image_id (
      subject_of request.thumbnail inputs.place_name request.captured_at inputs.summary
        request.bbox)
  task-IsLocal context = on_cache-IsLocal _ _ (
      ResearchRow.research_context-IsLocal setup.loads_context setup.dumps_context calls.context
        inputs.place_name request.captured_at inputs.region inputs.city)

  letter : Service → ℕ
  letter geocoder = b'g'
  letter landcover = b'l'
  letter describer = b'd'
  letter context = b'c'
  letter mission = b'm'

  initial-key : (n : Service) → initial (key n) ≡ letter n
  unfolding letter round_number
  initial-key geocoder = initial-join _ _ _
  initial-key landcover = initial-join _ _ _
  initial-key describer = initial-join _ _ _
  initial-key context = initial-join _ _ _
  initial-key mission = initial-join _ _ _

  letter_ne : (n m : Service) → same n m ≡ false → (letter n == letter m) ≡ false
  unfolding letter
  letter_ne n m h = ground arith

  -- Different tasks read and write different rows.
  pub key_ne : (n m : Service) → same n m ≡ false → str_eq (key n) (key m) ≡ false
  key_ne n m h = initial_ne (key n) (key m) (rw (initial-key n, initial-key m) (letter_ne n m h))
