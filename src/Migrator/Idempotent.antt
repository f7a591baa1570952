-- ===== src/Migrator/Idempotent.antt =====
-- A second run of the migrations.
use image_descriptor.Prelude.{
  ℕ, ◌+◌, ◌≡◌, refl, String, true, List, [], ◌∷◌, arith, All, Bool-cases, inl, inr,
}
use image_descriptor.Prelude.Unicode.{Decimals}
use image_descriptor.Errors.{Result, ok, err}
use image_descriptor.Migrator.{
  Migration, Database, has, migrate, run_migrations, discover_migrations, step, go_on, scripted,
}

abbrev pub Holds : List ℕ → Migration → Type 0
Holds versions m = has m.version versions ≡ true

-- every version of vs is one of ws
abbrev Within : List ℕ → List ℕ → Type 0
Within vs ws = (v : ℕ) → has v vs ≡ true → has v ws ≡ true

record Done (before : List ℕ) (ms : List Migration) (after : List ℕ) : Type 0 where
  held : All (Holds after) ms
  kept : Within before after

module _ {S : Type 0} (script : String → S → Result S) where
  migrate_held :
      (applied : List ℕ) (ms : List Migration) (count : ℕ) (db : Database S)
      → All (Holds applied) ms
      → migrate script applied ms count db ≡ (ok count, db)
  unfolding migrate
  migrate_held applied [] count db h = refl
  migrate_held applied (m ∷ ms) count db (p, h) = rw p (migrate_held applied ms count db h)

  step-versions :
      (m : Migration) (db d : Database S)
      → (step script m db).0 ≡ ok d
      → d.versions ≡ m.version ∷ db.versions
  step-versions m db d h = inserted (script m.file db.schema) h
    where
      inserted :
          (r : Result S)
          → (scripted script m.version r db).0 ≡ ok d
          → d.versions ≡ m.version ∷ db.versions
      inserted (err e) k = absurd (ground arith)
      inserted (ok s) k = ground arith

  after_step :
      (m : Migration) (ms : List Migration) (n : ℕ) (db : Database S)
      (p : Result (Database S) × Database S) (rest : Database S → Result ℕ × Database S)
      → ((d : Database S) → p.0 ≡ ok d → d.versions ≡ m.version ∷ db.versions)
      → ((d : Database S)
          → d.versions ≡ m.version ∷ db.versions
          → (rest d).0 ≡ ok n
          → Done db.versions (m ∷ ms) (rest d).1.versions)
      → (go_on script p rest).0 ≡ ok n
      → Done db.versions (m ∷ ms) (go_on script p rest).1.versions
  after_step m ms n db (err e, d) rest f k h = absurd (ground arith)
  after_step m ms n db (ok d, old) rest f k h = k d (f d refl) h

  migrate-Done :
      (applied : List ℕ) (ms : List Migration) (count n : ℕ) (db : Database S)
      → Within applied db.versions
      → (migrate script applied ms count db).0 ≡ ok n
      → Done db.versions ms (migrate script applied ms count db).1.versions
  unfolding migrate
  migrate-Done applied [] count n db w h = record { held = tt; kept = λ v p. p }
  migrate-Done applied (m ∷ ms) count n db w h = elim (Bool-cases (has m.version applied)) [
    | inl old ↦
        let d = migrate-Done applied ms count n db w (rw (old, migrate) at h) in
        rw old (record { held = (d.kept m.version (w m.version old), d.held); kept = d.kept })
    | inr new ↦ rw new (
        after_step m ms n db (step script m db) (λ d. migrate script applied ms (count + 1) d)
          (step-versions m db)
          (λ d e k.
            grown d e
              (migrate-Done applied ms (count + 1) n d (λ v p. rw e (ground (arith, w v p))) k))
          (rw (new, migrate) at h))
  ]
    where
      grown :
          (d : Database S)
          → d.versions ≡ m.version ∷ db.versions
          → Done d.versions ms (migrate script applied ms (count + 1) d).1.versions
          → Done db.versions (m ∷ ms) (migrate script applied ms (count + 1) d).1.versions
      grown d e k = record {
        held = (k.kept m.version (rw e (ground arith)), k.held);
        kept = λ v p. k.kept v (rw e (ground arith));
      }

  module _ ⦃unicode : Decimals⦄ where
    -- After a run that succeeds, a second run over the same files applies nothing and changes nothing.
    pub run_migrations_twice :
        (files : List String) (db : Database S) (n : ℕ)
        → (run_migrations script files db).0 ≡ ok n
        → let once = (run_migrations script files db).1 in
          run_migrations script files once ≡ (ok 0, once)
    unfolding run_migrations
    run_migrations_twice files db n h =
        migrate_held _ (discover_migrations files) 0 _
          (migrate-Done db.versions (discover_migrations files) 0 n db (λ v p. p) h).held
