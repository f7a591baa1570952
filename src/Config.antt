-- ===== src/Config.antt =====
-- app/config.py: the settings and how they are validated.
--
-- Texts are lists of code points. `is_digit` is the class `\d` of re.
pub mod Masked
pub mod Origins
pub mod Summary
use image_descriptor.Prelude.{
  ℕ, ◌+◌, ◌-◌, String, Bool, true, false, not, ◌&&◌, ◌||◌, Option, none, some, List, [], ◌∷◌, ◌++◌,
  leb, ltb, ◌==◌, length, take, is_some, if◌then◌else◌,
}
use image_descriptor.Prelude.Text.{codes}
use image_descriptor.Prelude.Blank.{is_space, strip}
use image_descriptor.Prelude.Number.{Number, whole, le_number}

pub record Settings : Type 0 where
  pub google_ai_api_key : List ℕ
  pub supabase_url : List ℕ
  pub supabase_service_key : List ℕ
  pub api_key : List ℕ
  pub nominatim_url : List ℕ
  pub overpass_url : List ℕ
  pub cors_origins : List ℕ
  pub cache_db_path : List ℕ
  pub log_level : List ℕ
  pub thumbnail_max_pixels : Number
  pub rate_limit : List ℕ
  pub rate_limit_describe : List ℕ
  pub rate_limit_batch : List ℕ
  pub rate_limit_data : List ℕ
  pub rate_limit_read : List ℕ
  pub shutdown_timeout : Number
  pub shutdown_batch_timeout : Number
  pub request_timeout : Number
  pub batch_concurrency : Number
  pub cache_ttl_seconds : Number
  pub cache_cleanup_interval_seconds : Number
  pub gzip_min_size : Number
  pub service_name : List ℕ
  pub environment : List ℕ
  pub timeout_geocoder : Number
  pub timeout_landcover : Number
  pub timeout_context : Number
  pub timeout_describer : Number
  pub timeout_mission : Number
  pub timeout_http_client : Number
  pub max_image_download_bytes : Number
  pub max_image_redirects : Number
  pub timeout_supabase_ping : Number
  pub jwks_ttl_seconds : Number
  pub supabase_save_timeout : Number
  pub supabase_reconnect_backoff_base : Number
  pub supabase_reconnect_backoff_max : Number
  pub health_timeout : Number
  pub cache_cleanup_poll_interval : Number
  pub overpass_timeout : Number

-- `v <= 0` raises
unfoldable pub positive_int : Number → Bool
positive_int v = not (le_number v (whole 0))

-- the text behind a prefix
unfoldable pub behind : List ℕ → List ℕ → Option (List ℕ)
behind [] cs = some cs
behind (p ∷ ps) [] = none
behind (p ∷ ps) (c ∷ cs) = if p == c then behind ps cs else none

-- `$` holds at the end, and before a line feed that ends the text.
abbrev pub is_end : Option (List ℕ) → Bool
is_end none = false
is_end (some []) = true
is_end (some (c ∷ [])) = c == 10
is_end (some (c ∷ d ∷ cs)) = false

-- `/(second|minute|hour|day)$`
unfoldable pub is_unit : List ℕ → Bool
unfolding behind
is_unit cs =
    is_end (behind (codes "/second") cs)
    || is_end (behind (codes "/minute") cs)
    || is_end (behind (codes "/hour") cs)
    || is_end (behind (codes "/day") cs)

module _ (is_digit : ℕ → Bool) where
  -- `\d*`, and the unit; a slash is no digit, so that the digits need not be given back
  unfoldable pub digits_tail : List ℕ → Bool
  unfolding is_unit
  digits_tail [] = false
  digits_tail (c ∷ cs) = if is_digit c then digits_tail cs else is_unit (c ∷ cs)

  -- `_RATE_LIMIT_PATTERN`
  unfoldable pub valid_rate_limit : List ℕ → Bool
  unfolding digits_tail
  valid_rate_limit [] = false
  valid_rate_limit (c ∷ cs) = is_digit c && digits_tail cs

-- a word in front of the words of the rest, unless it is empty
abbrev pub with_word : List ℕ → List (List ℕ) → List (List ℕ)
with_word [] words = words
with_word (c ∷ cs) words = (c ∷ cs) ∷ words

-- the rest of the word that a text begins with, and the words behind it
abbrev pub Words : Type 0
Words = List ℕ × List (List ℕ)

abbrev pub words_of : Words → List (List ℕ)
words_of (word, words) = with_word word words

abbrev pub put : ℕ → Words → Words
put c (word, words) = (c ∷ word, words)

unfoldable pub split_from : List ℕ → Words
unfolding is_space
split_from [] = ([], [])
split_from (c ∷ cs) = let r = split_from cs in if is_space c then ([], words_of r) else put c r

-- `v.split()`
unfoldable pub split : List ℕ → List (List ℕ)
unfolding split_from
split v = words_of (split_from v)

-- `s.strip()` for each, where that is not empty
unfoldable pub stripped : List (List ℕ) → List (List ℕ)
unfolding strip
stripped [] = []
stripped (s ∷ words) = with_word (strip s) (stripped words)

-- `^https?://`
unfoldable pub is_origin : List ℕ → Bool
unfolding behind
is_origin s = is_some (behind (codes "http://") s) || is_some (behind (codes "https://") s)

abbrev pub all_origins : List (List ℕ) → Bool
all_origins [] = true
all_origins (s ∷ words) = is_origin s && all_origins words

-- the loop: an origin that is empty once it is stripped is passed over
unfoldable pub origins_pass : List (List ℕ) → Bool
unfolding strip is_origin
origins_pass [] = true
origins_pass (s ∷ words) = all_origins (with_word (strip s) []) && origins_pass words

unfoldable pub valid_cors_origins : List ℕ → Bool
unfolding split origins_pass
valid_cors_origins v = origins_pass (split v)

unfoldable pub cors_origins_list : List ℕ → List (List ℕ)
unfolding split stripped
cors_origins_list v = stripped (split v)

-- the name of a field that its validator refuses, in front of those of the rest
abbrev refused : String → Bool → List String → List String
refused name true names = names
refused name false names = name ∷ names

-- the fields that `Settings()` reports, in the order of the class; it raises if there are any
unfoldable pub settings_errors : (ℕ → Bool) → Settings → List String
unfolding positive_int valid_rate_limit valid_cors_origins
settings_errors is_digit s = refused "cors_origins" (valid_cors_origins s.cors_origins) (
    refused "thumbnail_max_pixels" (positive_int s.thumbnail_max_pixels) (
      refused "rate_limit" (valid_rate_limit is_digit s.rate_limit) (
        refused "rate_limit_describe" (valid_rate_limit is_digit s.rate_limit_describe) (
          refused "rate_limit_batch" (valid_rate_limit is_digit s.rate_limit_batch) (
            refused "rate_limit_data" (valid_rate_limit is_digit s.rate_limit_data) (
              refused "rate_limit_read" (valid_rate_limit is_digit s.rate_limit_read) (
                refused "shutdown_timeout" (positive_int s.shutdown_timeout) (
                  refused "shutdown_batch_timeout" (positive_int s.shutdown_batch_timeout) (
                    refused "request_timeout" (positive_int s.request_timeout) (
                      refused "batch_concurrency" (positive_int s.batch_concurrency) (
                        refused "cache_ttl_seconds" (positive_int s.cache_ttl_seconds) (
                          refused "cache_cleanup_interval_seconds"
                            (positive_int s.cache_cleanup_interval_seconds)
                            (refused "gzip_min_size" (positive_int s.gzip_min_size) (
                              refused "timeout_geocoder" (positive_int s.timeout_geocoder) (
                                refused "timeout_landcover" (positive_int s.timeout_landcover) (
                                  refused "timeout_context" (positive_int s.timeout_context) (
                                    refused "timeout_describer" (positive_int s.timeout_describer) (
                                      refused "timeout_mission" (positive_int s.timeout_mission) (
                                        refused "timeout_http_client"
                                          (positive_int s.timeout_http_client)
                                          (refused "max_image_download_bytes"
                                            (positive_int s.max_image_download_bytes)
                                            (refused "max_image_redirects"
                                              (positive_int s.max_image_redirects)
                                              (refused "timeout_supabase_ping"
                                                (positive_int s.timeout_supabase_ping)
                                                (refused "jwks_ttl_seconds"
                                                  (positive_int s.jwks_ttl_seconds)
                                                  (refused "supabase_save_timeout"
                                                    (positive_int s.supabase_save_timeout)
                                                    (refused "supabase_reconnect_backoff_base"
                                                      (positive_int
                                                        s.supabase_reconnect_backoff_base)
                                                      (refused "supabase_reconnect_backoff_max"
                                                        (positive_int
                                                          s.supabase_reconnect_backoff_max)
                                                        (refused "health_timeout"
                                                          (positive_int s.health_timeout)
                                                          (refused "cache_cleanup_poll_interval"
                                                            (positive_int
                                                            s.cache_cleanup_poll_interval)
                                                            (refused "overpass_timeout"
                                                            (positive_int s.overpass_timeout)
                                                            [])))))))))))))))))))))))))))))
