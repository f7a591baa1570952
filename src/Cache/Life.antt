-- ===== src/Cache/Life.antt =====
-- app/cache/store.py: `init` and `close`, which open a store over its file and close it.
use image_descriptor.Prelude.{
  ℕ, ◌≡◌, refl, ap, String, Bool, true, Option, none, some, List, arith, if◌then◌else◌,
}
use image_descriptor.Prelude.Unicode.{Decimals}
use image_descriptor.Errors.{Error, Result, ok, err}
use image_descriptor.Migrator.{Database, run_migrations}
use image_descriptor.Migrator.Idempotent.{run_migrations_twice}

-- The database in the file, and whether `_db` is a connection. `aiosqlite` decides if a connection is
-- made, and if it is closed: the error of each is an argument.
pub record Store (S : Type 0) : Type 0 where
  pub file : Database S
  pub connected : Bool

abbrev done : Result ℕ → Result (Unit {0})
done (ok n) = ok tt
done (err e) = err e

module _ {S : Type 0} where
  unfoldable pub close : Option Error → Store S → Result (Unit {0}) × Store S
  close none s = (ok tt, s)
  close (some e) s = (if s.connected then err e else ok tt, s)

module _ {S : Type 0} ⦃unicode : Decimals⦄ (script : String → S → Result S) where
  abbrev migrated : Result ℕ × Database S → Result (Unit {0}) × Store S
  migrated (r, file) = (done r, record { file = file; connected = true })

  -- a migration that fails leaves the connection open
  unfoldable pub init : Option Error → List String → Store S → Result (Unit {0}) × Store S
  unfolding run_migrations
  init (some e) files s = (err e, s)
  init none files s = migrated (run_migrations script files s.file)

  migrated-ok : (p : Result ℕ × Database S) → (migrated p).0 ≡ ok tt → (n : ℕ) × (p.0 ≡ ok n)
  migrated-ok (ok n, file) e = (n, refl)
  migrated-ok (err x, file) e = absurd (ground arith)

  -- A store that was opened and closed is opened again over the same files with nothing to migrate: the
  -- file is as it was.
  pub init-close-init :
      (files : List String) (s : Store S)
      → (init none files s).0 ≡ ok tt
      → let once = (init none files s).1 in init none files (close none once).1 ≡ (ok tt, once)
  unfolding init close
  init-close-init files s h =
      let (n, e) = migrated-ok (run_migrations script files s.file) h in
      ap migrated (run_migrations_twice script files s.file n e)
