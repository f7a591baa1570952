-- ===== src/Supabase/Backoff.antt =====
-- How the backoff behaves over many calls.
use image_descriptor.Prelude.{
  ℕ, ◌+◌, ◌-◌, ◌*◌, ◌≤◌, ◌<◌, ◌≡◌, refl, Bool, true, false, none, some, List, [], ◌∷◌, arith,
  length, All,
}
use native.Mathlib.Nat.{one-le-pow}
use image_descriptor.Errors.{Error, Result, ok, is_connection_error, is_timeout_error}
use image_descriptor.Supabase.{
  Client, Settings, Outside, backoff, reset_client, get_client, save_description, DescriptionRow,
  ping,
}

-- a health check's ping: what it meets outside, and the answer that the query would give
pub record Ping : Type 0 where
  pub out : Outside
  pub answer : Result (Unit {0})

unfoldable pub pings : Settings → List Ping → Client → List Bool × Client
pings cfg [] s = ([], s)
pings cfg (p ∷ ps) s =
    let (up, s') = ping cfg p.out p.answer s in let (ups, s'') = pings cfg ps s' in (up ∷ ups, s'')

-- Each ping comes less than `gap` after the failure that the one before it recorded.
abbrev pub IsFrequent : ℕ → ℕ → List Ping → Type 0
IsFrequent gap last [] = Unit
IsFrequent gap last (p ∷ ps) =
    (p.out.now < last + gap)
    × (last ≤ p.out.now)
    × (p.out.now ≤ p.out.failed_at)
    × IsFrequent gap p.out.failed_at ps

backoff-le-max : (cfg : Settings) (n : ℕ) → backoff cfg n ≤ cfg.backoff_max
backoff-le-max cfg n = omega arith

widened : (b p : ℕ) → 1 ≤ p → b ≤ b * p
widened b p h = grind arith

base-le-backoff :
    (cfg : Settings) (n : ℕ) → cfg.backoff_base ≤ cfg.backoff_max → cfg.backoff_base ≤ backoff cfg n
base-le-backoff cfg n h = grind (arith, one-le-pow (n - 1) 2 (omega arith), widened)

-- A client that fails as its last call did, and is asked again before the backoff is over.
abbrev pub InBackoff : Settings → ℕ → Client → Type 0
InBackoff cfg now s =
    (s.connected ≡ false)
    × (0 < s.consecutive_failures)
    × (now - s.last_failure_time < backoff cfg s.consecutive_failures)

ping-InBackoff :
    (cfg : Settings) (out : Outside) (answer : Result (Unit {0})) (s : Client)
    → InBackoff cfg out.now s
    → ping cfg out answer s ≡ (false, reset_client out.failed_at s)
unfolding ping
ping-InBackoff cfg out answer s h = ground arith

-- Take a client that is not connected and has failed, and a backoff whose base is at most its
-- maximum. Pings that come less than the base after the failure that the one before recorded keep
-- the backoff going for ever: none succeeds, whatever the library would answer, no client is made,
-- and each counts as one more failure.
pub pings-InBackoff :
    (cfg : Settings) (ps : List Ping) (s : Client)
    → cfg.backoff_base ≤ cfg.backoff_max
    → s.connected ≡ false
    → 0 < s.consecutive_failures
    → IsFrequent cfg.backoff_base s.last_failure_time ps
    → let (ups, s') = pings cfg ps s in
      All (λ up. up ≡ false) ups
      × (s'.connected ≡ false)
      × (s'.consecutive_failures ≡ s.consecutive_failures + length ps)
unfolding pings reset_client
pings-InBackoff cfg [] s h c k f = (tt, c, omega arith)
pings-InBackoff cfg (p ∷ ps) s h c k (soon, later, after, f) =
    let still : InBackoff cfg p.out.now s =
      (c, k, omega (arith, base-le-backoff cfg s.consecutive_failures h)) in
    let (down, gone, counted) =
      pings-InBackoff cfg ps (reset_client p.out.failed_at s) h refl (omega arith) f in
    rw (ping-InBackoff cfg p.out p.answer s still) ((refl, down), gone, omega arith)

-- A call on a client that is not connected and has not failed more than 1024 times, at least the longest
-- backoff after the last failure, is not refused: where the library gives a client, it is connected and the failures are forgotten.
pub get_client_after_max :
    (cfg : Settings) (out : Outside) (s : Client)
    → s.consecutive_failures ≤ 1024
    → s.last_failure_time + cfg.backoff_max ≤ out.now
    → out.create ≡ none
    → s.connected ≡ false
    → get_client cfg out s ≡ (ok tt, record s { connected = true; consecutive_failures = 0 })
unfolding get_client
get_client_after_max cfg out s few h e c = ground (arith, backoff-le-max cfg s.consecutive_failures)

-- Where the client is not connected and has not failed more than 1024 times, the longest backoff has
-- passed, and `acreate_client` fails by
-- neither a timeout nor a `ConnectionError`, one call of `save_description` answers False and
-- counts as two failures: `get_client` and the handler both reset the client.
pub save_counts_twice :
    (cfg : Settings) (out : Outside) (execute : DescriptionRow → Result (Unit {0}))
    (row : DescriptionRow) (s : Client) (e : Error)
    → s.connected ≡ false
    → s.consecutive_failures ≤ 1024
    → s.last_failure_time + cfg.backoff_max ≤ out.now
    → out.create ≡ some e
    → is_timeout_error e.kind ≡ false
    → is_connection_error e.kind ≡ false
    → let (answer, s') = save_description cfg out execute row s in
      (answer ≡ ok false) × (s'.consecutive_failures ≡ s.consecutive_failures + 2)
unfolding save_description reset_client
save_counts_twice cfg out execute row s e c few h f t k =
    ground (arith, backoff-le-max cfg s.consecutive_failures)

ping_overflows :
    (cfg : Settings) (out : Outside) (answer : Result (Unit {0})) (s : Client)
    → s.connected ≡ false
    → 1024 < s.consecutive_failures
    → ping cfg out answer s ≡ (false, reset_client out.failed_at s)
unfolding ping
ping_overflows cfg out answer s c k = ground arith

-- Once a client that is not connected has failed more than 1024 times, it is never connected again by any
-- pings, whenever they come and whatever the library would answer: each of them fails where the backoff
-- is computed, and counts as one more failure.
pub pings_overflow :
    (cfg : Settings) (ps : List Ping) (s : Client)
    → s.connected ≡ false
    → 1024 < s.consecutive_failures
    → let (ups, s') = pings cfg ps s in
      All (λ up. up ≡ false) ups
      × (s'.connected ≡ false)
      × (s'.consecutive_failures ≡ s.consecutive_failures + length ps)
unfolding pings reset_client
pings_overflow cfg [] s c k = (tt, c, omega arith)
pings_overflow cfg (p ∷ ps) s c k =
    let (down, gone, counted) =
      pings_overflow cfg ps (reset_client p.out.failed_at s) refl (omega arith) in
    rw (ping_overflows cfg p.out p.answer s c k) ((refl, down), gone, omega arith)
