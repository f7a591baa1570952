-- ===== src/Tests/Config.antt =====
-- The theorems on the settings at the defaults of some of them.
use image_descriptor.Prelude.{ℕ, ◌≡◌, refl, Bool, List, [], ◌∷◌, ◌&&◌, leb, arith}
use image_descriptor.Prelude.Text.{codes}
use image_descriptor.Prelude.Number.{whole, finite, pos}
use image_descriptor.Config.{Settings, settings_errors}
use image_descriptor.Config.Summary.{log_settings_summary}
use image_descriptor.Config.Masked.{IsAlike, log_settings_summary-IsAlike}

abbrev origins : List ℕ
origins = codes "http://localhost:5173 http://localhost:3000"

abbrev defaults : Settings
defaults = record {
  google_ai_api_key = codes "xxx";
  supabase_url = codes "xxx";
  supabase_service_key = codes "xxx";
  api_key = codes "xxx";
  nominatim_url = codes "https://nominatim.openstreetmap.org";
  overpass_url = codes "https://overpass-api.de/api/interpreter";
  cors_origins = origins;
  cache_db_path = codes "./cache.db";
  log_level = codes "INFO";
  thumbnail_max_pixels = whole 768;
  rate_limit = codes "30/minute";
  rate_limit_describe = codes "20/minute";
  rate_limit_batch = codes "10/minute";
  rate_limit_data = codes "30/minute";
  rate_limit_read = codes "60/minute";
  shutdown_timeout = whole 30;
  shutdown_batch_timeout = whole 60;
  request_timeout = whole 30;
  batch_concurrency = whole 3;
  cache_ttl_seconds = whole 2592000;
  cache_cleanup_interval_seconds = whole 3600;
  gzip_min_size = whole 500;
  service_name = codes "image-descriptor";
  environment = codes "production";
  timeout_geocoder = whole 10;
  timeout_landcover = whole 15;
  timeout_context = whole 10;
  timeout_describer = whole 10;
  timeout_mission = whole 10;
  timeout_http_client = whole 10;
  max_image_download_bytes = whole 5242880;
  max_image_redirects = whole 5;
  timeout_supabase_ping = whole 5;
  jwks_ttl_seconds = whole 3600;
  supabase_save_timeout = whole 10;
  supabase_reconnect_backoff_base = whole 1;
  supabase_reconnect_backoff_max = whole 60;
  health_timeout = whole 3;
  cache_cleanup_poll_interval = finite (pos 500000);
  overpass_timeout = whole 10;
}

abbrev is_digit : ℕ → Bool
is_digit c = leb b'0' c && leb c b'9'

defaults_accepted : settings_errors is_digit defaults ≡ []
unfolding settings_errors
defaults_accepted = refl

zero_refused :
    settings_errors is_digit
      (record defaults { rate_limit = codes "30/week"; batch_concurrency = whole 0 })
    ≡ "rate_limit" ∷ "batch_concurrency" ∷ []
unfolding settings_errors
zero_refused = refl

log_settings_summary-IsAlike_example :
    log_settings_summary (record defaults {
      google_ai_api_key = codes "AIza-one-Wxyz";
      supabase_service_key = codes "short";
      api_key = codes "key";
    })
    ≡ log_settings_summary (record defaults {
      google_ai_api_key = codes "AIza-another-Wxyz";
      supabase_service_key = codes "other";
      api_key = codes "key";
    })
log_settings_summary-IsAlike_example =
    log_settings_summary-IsAlike defaults (codes "AIza-one-Wxyz") (codes "AIza-another-Wxyz")
      (codes "short") (codes "other") (codes "key") (codes "key")
      (IsAlike.long (codes "AIza") (codes "-one-") (codes "-another-") (codes "Wxyz") refl refl
        (omega arith) (omega arith) refl refl)
      (IsAlike.short (omega arith) (omega arith)) (IsAlike.short (omega arith) (omega arith))
