-- ===== src/Config/Summary.antt =====
-- app/config.py: what is logged of the settings.
use image_descriptor.Prelude.{ℕ, String, List, [], ◌∷◌, ◌++◌, leb, length, take, if◌then◌else◌}
use image_descriptor.Prelude.Text.{codes}
use image_descriptor.Prelude.Number.{Number}
use image_descriptor.Config.{Settings, cors_origins_list}

-- `value[-n:]`
unfoldable pub last : ℕ → List ℕ → List ℕ
last n [] = []
last n (c ∷ cs) = let rest = last n cs in if leb (length (c ∷ cs)) n then c ∷ cs else rest

-- `_mask`
unfoldable pub mask : List ℕ → List ℕ
unfolding last
mask value =
    if leb (length value) 8 then codes "***" else take 4 value ++ (codes "***" ++ last 4 value)

-- a value of the entry that is logged
pub data Logged : Type 0 where
  text : List ℕ → Logged
  texts : List (List ℕ) → Logged
  number : Number → Logged

unfoldable pub log_settings_summary : Settings → List (String × Logged)
unfolding mask cors_origins_list
log_settings_summary s =
    ("supabase_url", text s.supabase_url)
    ∷ ("google_ai_api_key", text (mask s.google_ai_api_key))
    ∷ ("supabase_service_key", text (mask s.supabase_service_key))
    ∷ ("api_key", text (mask s.api_key))
    ∷ ("nominatim_url", text s.nominatim_url)
    ∷ ("overpass_url", text s.overpass_url)
    ∷ ("cors_origins", texts (cors_origins_list s.cors_origins))
    ∷ ("log_level", text s.log_level)
    ∷ ("cache_db_path", text s.cache_db_path)
    ∷ ("cache_ttl_seconds", number s.cache_ttl_seconds)
    ∷ ("cache_cleanup_interval_seconds", number s.cache_cleanup_interval_seconds)
    ∷ ("thumbnail_max_pixels", number s.thumbnail_max_pixels)
    ∷ ("rate_limit", text s.rate_limit)
    ∷ ("rate_limit_describe", text s.rate_limit_describe)
    ∷ ("rate_limit_batch", text s.rate_limit_batch)
    ∷ ("rate_limit_data", text s.rate_limit_data)
    ∷ ("rate_limit_read", text s.rate_limit_read)
    ∷ ("shutdown_timeout", number s.shutdown_timeout)
    ∷ ("shutdown_batch_timeout", number s.shutdown_batch_timeout)
    ∷ ("request_timeout", number s.request_timeout)
    ∷ ("batch_concurrency", number s.batch_concurrency)
    ∷ ("gzip_min_size", number s.gzip_min_size)
    ∷ ("timeout_geocoder", number s.timeout_geocoder)
    ∷ ("timeout_landcover", number s.timeout_landcover)
    ∷ ("timeout_context", number s.timeout_context)
    ∷ ("timeout_describer", number s.timeout_describer)
    ∷ ("timeout_mission", number s.timeout_mission)
    ∷ ("timeout_http_client", number s.timeout_http_client)
    ∷ ("max_image_download_bytes", number s.max_image_download_bytes)
    ∷ ("max_image_redirects", number s.max_image_redirects)
    ∷ ("timeout_supabase_ping", number s.timeout_supabase_ping)
    ∷ ("jwks_ttl_seconds", number s.jwks_ttl_seconds)
    ∷ ("supabase_save_timeout", number s.supabase_save_timeout)
    ∷ ("supabase_reconnect_backoff_base", number s.supabase_reconnect_backoff_base)
    ∷ ("supabase_reconnect_backoff_max", number s.supabase_reconnect_backoff_max)
    ∷ ("health_timeout", number s.health_timeout)
    ∷ ("cache_cleanup_poll_interval", number s.cache_cleanup_poll_interval)
    ∷ ("overpass_timeout", number s.overpass_timeout)
    ∷ []
