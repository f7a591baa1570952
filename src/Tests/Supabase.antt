-- ===== src/Tests/Supabase.antt =====
-- The theorems on the database client at concrete calls.
use image_descriptor.Prelude.{
  ℕ, ◌+◌, ◌≡◌, refl, String, false, none, some, List, [], ◌∷◌, arith, All,
}
use image_descriptor.Errors.{Error, Result, ok, err, other_error, database_error}
use image_descriptor.Supabase.{Client, Settings, Outside, save_description, DescriptionRow}
use image_descriptor.Supabase.Queries.{
  ListQuery, Answer, list_descriptions, get_description, delete_description,
}
use image_descriptor.Supabase.Backoff.{Ping, pings, pings-InBackoff, pings_overflow}
use image_descriptor.Supabase.Raises.{IsReached, raises_only_connection}

abbrev cfg : Settings
cfg = record { backoff_base = 1000000; backoff_max = 60000000 }

-- as a failed connection at one second leaves it
abbrev failed_once : Client
failed_once = record { connected = false; last_failure_time = 1000000; consecutive_failures = 1 }

abbrev ping_at : ℕ → Ping
ping_at t = record { out = record { now = t; create = none; failed_at = t + 10 }; answer = ok tt }

abbrev half_seconds : List Ping
half_seconds = ping_at 1500000 ∷ ping_at 2000000 ∷ ping_at 2500000 ∷ []

pings-InBackoff_example :
    let (ups, s') = pings cfg half_seconds failed_once in
    All (λ up. up ≡ false) ups × (s'.connected ≡ false) × (s'.consecutive_failures ≡ 4)
pings-InBackoff_example =
    pings-InBackoff cfg half_seconds failed_once (omega arith) refl (omega arith) (
      omega arith,
      omega arith,
      omega arith,
      (omega arith, omega arith, omega arith, (omega arith, omega arith, omega arith, tt)),
    )

-- as many failures leave it
abbrev failed_often : Client
failed_often = record {
  connected = false;
  last_failure_time = 1000000;
  consecutive_failures = 1025;
}

pings_overflow_example :
    let (ups, s') = pings cfg (ping_at 90000000 ∷ ping_at 900000000 ∷ []) failed_often in
    All (λ up. up ≡ false) ups × (s'.connected ≡ false) × (s'.consecutive_failures ≡ 1027)
pings_overflow_example =
    pings_overflow cfg (ping_at 90000000 ∷ ping_at 900000000 ∷ []) failed_often refl (omega arith)

abbrev minutes_later : Outside
minutes_later = record { now = 70000000; create = none; failed_at = 70000010 }

abbrev refused : Error
refused = record { kind = other_error; text = "Invalid URL" }

abbrev no_url : Outside
no_url = record { now = 70000000; create = some refused; failed_at = 70000010 }

abbrev row : DescriptionRow
row = record {
  cog_image_id = "abc";
  coordinates = [];
  captured_at = none;
  description = some "A harbour.";
  place = none;
  land_cover = none;
  context = none;
}

abbrev accept : DescriptionRow → Result (Unit {0})
accept r = ok tt

abbrev broken : Error
broken = record { kind = database_error; text = "relation does not exist" }

abbrev no_list : ListQuery → Result (Answer String)
no_list q = err broken

abbrev no_rows : String → Result (List String)
no_rows id = err broken

raises_only_connection_example :
    IsReached (save_description cfg minutes_later accept row failed_once).0
    × IsReached (list_descriptions cfg minutes_later no_list 0 20 none none failed_once).0
    × IsReached (get_description cfg minutes_later no_rows "abc" failed_once).0
    × IsReached (delete_description cfg minutes_later no_rows "abc" failed_once).0
raises_only_connection_example =
    raises_only_connection cfg minutes_later failed_once accept row no_list 0 20 none none no_rows
      no_rows "abc"
