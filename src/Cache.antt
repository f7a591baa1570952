-- ===== src/Cache.antt =====
-- app/cache/store.py: `CacheStore` over its SQLite connection. Times are whole microseconds.
--
-- `table` is what the connection sees and `durable` what has been committed. Each statement may be
-- made to fail by a fault that the environment chooses: a failed statement has no effect, and a
-- failed commit leaves its statement visible to this connection and not durable. `loads` and
-- `dumps` are the JSON codec.
pub mod Statistics
pub mod Rows
pub mod Ideal
pub mod Reads
pub mod Refinement
pub mod Counters
pub mod Life
pub mod Local
use image_descriptor.Prelude.{
  ℕ, ◌+◌, ◌*◌, ◌-◌, map, ◌≡◌, String, Bool, true, false, not, ◌&&◌, ◌||◌, Option, none, some, List,
  [], ◌∷◌, ltb, length, if◌then◌else◌,
}
use image_descriptor.Prelude.Text.{str_eq, contains}
use image_descriptor.Errors.{
  Error, ErrorClass, Result, ok, err, is_os_error, is_value_error, is_database_error,
}
use image_descriptor.Cache.Rows.{Row, Table, select, delete, replace, purge, sum_lengths}
use Prim.Native.String.{slice, find}
use image_descriptor.Prelude.Round.{round}
use image_descriptor.Prelude.Sorted.{insert}
use image_descriptor.Prelude.Counts.{bump, count_of}

pub data Fault : Type 0 where
  fine : Fault
  execute_fails commit_fails : Error → Fault

pub data Operation : Type 0 where
  on_get on_delete on_set on_cleanup : Operation

-- the labelled counters of app/utils/metrics.py that the store drives
pub record Metrics : Type 0 where
  pub get_errors : ℕ
  pub delete_errors : ℕ
  pub set_errors : ℕ
  pub cleanup_errors : ℕ
  pub cleanup_total : ℕ

-- `_hits` and `_misses`; the metrics `cache_hits` and `cache_misses` are raised with them
pub record Cache : Type 0 where
  pub table : Table
  pub durable : Table
  pub hits : List (String × ℕ)
  pub misses : List (String × ℕ)
  pub metrics : Metrics

-- a new store over a new file
abbrev pub empty : Cache
empty = record {
  table = [];
  durable = [];
  hits = [];
  misses = [];
  metrics = record {
    get_errors = 0;
    delete_errors = 0;
    set_errors = 0;
    cleanup_errors = 0;
    cleanup_total = 0;
  };
}

-- `except (aiosqlite.DatabaseError, OSError, ValueError)`
abbrev pub is_caught : ErrorClass → Bool
is_caught c = is_database_error c || is_os_error c || is_value_error c

-- a fault that the `except` clauses catch
abbrev pub HasCaught : Fault → Type 0
HasCaught fine = Unit
HasCaught (execute_fails e) = is_caught e.kind ≡ true
HasCaught (commit_fails e) = is_caught e.kind ≡ true

abbrev pub count_error : Operation → Cache → Cache
count_error on_get c = record c {
  metrics = record c.metrics { get_errors = c.metrics.get_errors + 1 };
}
count_error on_delete c = record c {
  metrics = record c.metrics { delete_errors = c.metrics.delete_errors + 1 };
}
count_error on_set c = record c {
  metrics = record c.metrics { set_errors = c.metrics.set_errors + 1 };
}
count_error on_cleanup c = record c {
  metrics = record c.metrics { cleanup_errors = c.metrics.cleanup_errors + 1 };
}

-- `await db.execute(…)` and `await db.commit()`
unfoldable pub write : Fault → (Table → Table) → Cache → Result (Unit {0}) × Cache
write fine f c = (ok tt, record c { table = f c.table; durable = f c.table })
write (execute_fails e) f c = (err e, c)
write (commit_fails e) f c = (err e, record c { table = f c.table })

abbrev pub second : ℕ
second = 1000000

abbrev pub is_allowed : String → Bool
is_allowed m =
    str_eq m "geocode"
    || str_eq m "landcover"
    || str_eq m "mission"
    || str_eq m "context"
    || str_eq m "describe"

-- `key.split(":")[0]` where the key holds a colon
unfoldable pub module_from_key : String → String
module_from_key key =
    let m : String = if contains ":" key then slice key 0 (find key ":") else "unknown" in
    if is_allowed m then m else "unknown"

-- `expires_at and time.time() > expires_at`
unfoldable pub is_expired : Option ℕ → ℕ → Bool
is_expired none now = false
is_expired (some expires_at) now = ltb 0 expires_at && ltb expires_at now

abbrev count_hit : String → Cache → Cache
count_hit m c = record c { hits = bump m c.hits }

abbrev count_miss : String → Cache → Cache
count_miss m c = record c { misses = bump m c.misses }

-- `except …: count the error` around a statement that returns nothing
abbrev settle : Operation → Result (Unit {0}) × Cache → Result (Unit {0}) × Cache
settle op (ok u, c) = (ok u, c)
settle op (err e, c) = if is_caught e.kind then (ok tt, count_error op c) else (err e, c)

-- `time.time() + ttl`; seconds win over days
abbrev pub expiry : ℕ → Option ℕ → Option ℕ → Option ℕ
expiry now ttl_days (some s) = some (now + s * second)
expiry now (some d) none = some (now + d * 86400 * second)
expiry now none none = none

module _ {V : Type 0} where
  abbrev missed : String → Result (Unit {0}) × Cache → Result (Option V) × Cache
  missed m (ok u, c) = (ok none, count_miss m c)
  missed m (err e, c) = (err e, c)

  abbrev decoded : Option V → Cache → Result (Option V) × Cache
  decoded none c = (ok none, count_error on_get c)
  decoded (some v) c = (ok (some v), c)

  -- the rest of `get`, once the SELECT has answered
  unfoldable pub found :
      (String → Option V) → Fault → ℕ → String → Option Row → Cache → Result (Option V) × Cache
  found loads f now key none c = (ok none, count_miss (module_from_key key) c)
  found loads f now key (some row) c =
      if is_expired row.expires_at now
      then missed (module_from_key key) (settle on_delete (write f (delete key) c))
      else decoded (loads row.value) (count_hit (module_from_key key) c)

  -- `e` is the SELECT's error and `f` the fault of the deletion
  unfoldable pub get :
      (String → Option V) → Option Error → Fault → ℕ → String → Cache → Result (Option V) × Cache
  unfolding found write is_expired
  get loads (some e) f now key c =
      if is_caught e.kind then (ok none, count_error on_get c) else (err e, c)
  get loads none f now key c = found loads f now key (select key c.table) c

  unfoldable pub set :
      (V → String)
      → Fault
      → ℕ
      → String
      → V
      → Option ℕ
      → Option ℕ
      → Cache
      → Result (Unit {0}) × Cache
  unfolding write
  set dumps f now key value ttl_days ttl_seconds c = settle on_set (
      write f
        (replace
          (record { key = key; value = dumps value; expires_at = expiry now ttl_days ttl_seconds }))
        c)

abbrev pub rowcount : ℕ → Table → ℕ
rowcount now rows = length rows - length (purge now rows)

-- `deleted` is the row count of the statement
abbrev cleaned : ℕ → Result (Unit {0}) × Cache → Result ℕ × Cache
cleaned deleted (ok u, c) = (
  ok deleted,
  record c { metrics = record c.metrics { cleanup_total = c.metrics.cleanup_total + deleted } },
)
cleaned deleted (err e, c) =
    if is_caught e.kind then (ok 0, count_error on_cleanup c) else (err e, c)

unfoldable pub cleanup_expired : Fault → ℕ → Cache → Result ℕ × Cache
unfolding write
cleanup_expired f now c = cleaned (rowcount now c.table) (write f (purge now) c)

-- SELECT 1
unfoldable pub ping : Option Error → Result Bool
ping none = ok true
ping (some e) = if is_caught e.kind then ok false else err e
