-- ===== src/Tests/Migrator.antt =====
-- The migrations over the app's own directory, and over one with a second migration.
use image_descriptor.Prelude.{ℕ, ◌≡◌, refl, String, none, some, List, [], ◌∷◌, ◌+◌}
use image_descriptor.Tests.Ascii.{ascii}
use image_descriptor.Prelude.Text.{codes}
use image_descriptor.Prelude.Sorted.{sorted, insert}
use image_descriptor.Errors.{Result, ok}
use image_descriptor.Migrator.{
  Database, match_version, is_module_name, discover_migrations, discover, run_migrations, migrate,
  has,
}
use image_descriptor.Migrator.Idempotent.{run_migrations_twice}

abbrev files : List String
files = "__init__.py" ∷ "002_index.py" ∷ "001_initial.py" ∷ "notes.txt" ∷ []

-- each script counts itself
abbrev script : String → ℕ → Result ℕ
script file n = ok (n + 1)

abbrev blank : Database ℕ
blank = record { versions = []; schema = 0 }

match_version_runs :
    (match_version (codes "001_initial.py") ≡ some 1)
    × (match_version (codes "042_a.py") ≡ some 42)
    × (match_version (codes "42_a.py") ≡ none)
    × (match_version (codes "001_.py") ≡ none)
    × (match_version (codes "001_a.pyc") ≡ none)
unfolding match_version is_module_name
match_version_runs = (refl, refl, refl, refl, refl)

run_migrations_twice_example :
    let once = (run_migrations script files blank).1 in
    run_migrations script files once ≡ (ok 0, once)
unfolding run_migrations migrate discover_migrations discover match_version is_module_name sorted
    insert has
run_migrations_twice_example = run_migrations_twice script files blank 2 refl
