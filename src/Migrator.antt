-- ===== src/Migrator.antt =====
-- app/cache/migrator.py: the schema migrations of the cache's database.
pub mod Idempotent
use image_descriptor.Prelude.{
  ℕ, zero, suc, ◌+◌, ◌-◌, ◌*◌, String, Bool, true, false, not, ◌&&◌, ◌||◌, Option, none, some, List,
  [], ◌∷◌, leb, ◌==◌, if◌then◌else◌,
}
use image_descriptor.Prelude.Text.{codes, str_eq}
use image_descriptor.Prelude.Sorted.{sorted}
use image_descriptor.Prelude.Unicode.{Decimals, is_digit}
use image_descriptor.Errors.{Error, Result, ok, err, database_error}

-- a migration's version and the file it was found in
pub record Migration : Type 0 where
  pub version : ℕ
  pub file : String

-- `.+\.py$` on what follows the underscore: at least one character, none of them a newline
unfoldable pub is_module_name : List ℕ → Bool
is_module_name (a ∷ b' ∷ c ∷ d ∷ []) = not (a == 10) && b' == b'.' && c == b'p' && d == b'y'
is_module_name (a ∷ rest) = not (a == 10) && is_module_name rest
is_module_name [] = false

module _ ⦃unicode : Decimals⦄ where
  -- `^(\d{3})_.+\.py$`, and the number that `int` reads in its group
  unfoldable pub match_version : List ℕ → Option ℕ
  unfolding is_module_name
  match_version (a ∷ b ∷ c ∷ u ∷ rest) =
      if is_digit a && is_digit b && is_digit c && u == b'_' && is_module_name rest
      then some (unicode.value a * 100 + unicode.value b * 10 + unicode.value c)
      else none
  match_version _ = none

  abbrev found : String → Option ℕ → List Migration → List Migration
  found file none ms = ms
  found file (some version) ms = record { version = version; file = file } ∷ ms

  abbrev add_file : String → List Migration → List Migration
  add_file file ms =
      if str_eq file "__init__.py" then ms else found file (match_version (codes file)) ms

  unfoldable pub discover : List String → List Migration
  discover [] = []
  discover (file ∷ files) = add_file file (discover files)

  -- `_discover_migrations` on the names of the directory's files
  unfoldable pub discover_migrations : List String → List Migration
  unfolding discover match_version sorted
  discover_migrations files = discover (sorted files)

-- the database: the versions of `schema_version`, its primary key, and the rest
pub record Database (S : Type 0) : Type 0 where
  pub versions : List ℕ
  pub schema : S

unfoldable pub has : ℕ → List ℕ → Bool
has v [] = false
has v (w ∷ ws) = w == v || has v ws

abbrev duplicate : Error
duplicate = record {
  kind = database_error;
  text = "UNIQUE constraint failed: schema_version.version";
}

-- `script` loads a migration's module and runs its `SQL_UP`.
module _ {S : Type 0} (script : String → S → Result S) where
  -- INSERT INTO schema_version
  abbrev record_version : ℕ → Database S → Result (Database S)
  record_version v db =
      if has v db.versions then err duplicate else ok (record db { versions = v ∷ db.versions })

  abbrev scripted : ℕ → Result S → Database S → Result (Database S) × Database S
  scripted v (err e) db = (err e, db)
  scripted v (ok s) db = (record_version v (record db { schema = s }), record db { schema = s })

  -- a migration that fails leaves the database as its script did
  abbrev step : Migration → Database S → Result (Database S) × Database S
  step m db = scripted m.version (script m.file db.schema) db

  abbrev go_on :
      Result (Database S) × Database S
      → (Database S → Result ℕ × Database S)
      → Result ℕ × Database S
  go_on (err e, db) rest = (err e, db)
  go_on (ok db, old) rest = rest db

  -- the loop; `applied` is the set that was read before it
  unfoldable pub migrate : List ℕ → List Migration → ℕ → Database S → Result ℕ × Database S
  unfolding has
  migrate applied [] count db = (ok count, db)
  migrate applied (m ∷ ms) count db =
      if has m.version applied
      then migrate applied ms count db
      else go_on (step m db) (λ d. migrate applied ms (count + 1) d)

  module _ ⦃unicode : Decimals⦄ where
    unfoldable pub run_migrations : List String → Database S → Result ℕ × Database S
    unfolding migrate discover_migrations
    run_migrations files db = migrate db.versions (discover_migrations files) 0 db
