-- ===== src/Cache/Reads.antt =====
-- What one operation of the store does to the rows and to what is read from them.
use image_descriptor.Prelude.{
  ℕ, ◌≤◌, ◌<◌, ◌≡◌, inl, inr, refl, String, true, Option, none, some, arith, if◌then◌else◌,
  Option-cases,
}
use image_descriptor.Prelude.Text.{str_eq, eq_iff}
use image_descriptor.Errors.{Error}
use image_descriptor.Cache.Rows.{Row, select, is_stale}
use image_descriptor.Cache.Rows.Lookup.{
  IsKeyed, select-delete, select-replace, select-purge, delete-IsKeyed, purge-IsKeyed,
  replace-IsKeyed, unless_stale,
}
use image_descriptor.Cache.{Cache, Fault, is_expired, found, get, set, cleanup_expired, expiry}
use image_descriptor.Cache.Ideal.{IsPositive, is_stored, live, read}

module _ {V : Type 0} (loads : String → Option V) (dumps : V → String) where
  expired_later :
      (e : Option ℕ) (now t : ℕ) → now ≤ t → is_expired e now ≡ true → is_expired e t ≡ true
  unfolding is_expired
  expired_later none now t h p = cc
  expired_later (some e) now t h p = ground arith

  unstale :
      (now t : ℕ) (o : Option Row)
      → now ≤ t
      → IsPositive o
      → read loads t (unless_stale now o) ≡ read loads t o
  unfolding is_expired is_stale
  unstale now t none h p = refl
  unstale now t (some row) h p = ground arith

  -- What `get` deletes had expired, so it is gone for every later read too.
  pub read-get :
      (e : Option Error) (f : Fault) (now t : ℕ) (key k : String) (c : Cache)
      → now ≤ t
      → read loads t (select k (get loads e f now key c).1.table) ≡ read loads t (select k c.table)
  unfolding get
  read-get (some e) f now t key k c h = ground arith
  read-get none f now t key k c h = elim (Option-cases (select key c.table)) [
    | inl missing ↦ rw missing refl
    | inr (row, there) ↦ read-found row there
  ]
    where
      read-found :
          (row : Row)
          → select key c.table ≡ some row
          → read loads t (select k (found loads f now key (select key c.table) c).1.table)
            ≡ read loads t (select k c.table)
      read-found row there = rw there (
          ground (
            arith,
            select-delete key k c.table,
            eq_iff key k,
            expired_later row.expires_at now t h,
          ))

  pub get-IsKeyed :
      (e : Option Error) (f : Fault) (now : ℕ) (key : String) (c : Cache)
      → IsKeyed c.table
      → IsKeyed (get loads e f now key c).1.table
  unfolding get
  get-IsKeyed e f now key c h = ground (arith, delete-IsKeyed key c.table h)

  pub get-IsPositive :
      (e : Option Error) (f : Fault) (now : ℕ) (key k : String) (c : Cache)
      → IsPositive (select k c.table)
      → IsPositive (select k (get loads e f now key c).1.table)
  unfolding get
  get-IsPositive e f now key k c h = ground (arith, select-delete key k c.table)

  pub read-set :
      (f : Fault) (now t : ℕ) (key k : String) (v : V) (days seconds : Option ℕ) (c : Cache)
      → loads (dumps v) ≡ some v
      → read loads t (select k (set dumps f now key v days seconds c).1.table) ≡ (
          if is_stored f
          then (if str_eq key k
              then live t (some (v, expiry now days seconds))
              else read loads t (select k c.table))
          else read loads t (select k c.table))
  unfolding set
  read-set f now t key k v days seconds c codec = ground (
    arith,
    select-replace (record { key = key; value = dumps v; expires_at = expiry now days seconds }) k
        c.table,
  )

  pub set-IsKeyed :
      (f : Fault) (now : ℕ) (key : String) (v : V) (days seconds : Option ℕ) (c : Cache)
      → IsKeyed c.table
      → IsKeyed (set dumps f now key v days seconds c).1.table
  unfolding set
  set-IsKeyed f now key v days seconds c h = ground (
    arith,
    replace-IsKeyed (record { key = key; value = dumps v; expires_at = expiry now days seconds })
        c.table h,
  )

  pub set-IsPositive :
      (f : Fault) (now : ℕ) (key k : String) (v : V) (days seconds : Option ℕ) (c : Cache)
      → 0 < now
      → IsPositive (select k c.table)
      → IsPositive (select k (set dumps f now key v days seconds c).1.table)
  unfolding set
  set-IsPositive f now key k v days seconds c later h = ground (
    arith,
    select-replace (record { key = key; value = dumps v; expires_at = expiry now days seconds }) k
        c.table,
  )

  -- What the cleanup deletes had expired, and it deletes nothing else.
  pub read-cleanup :
      (f : Fault) (now t : ℕ) (k : String) (c : Cache)
      → now ≤ t
      → IsKeyed c.table
      → IsPositive (select k c.table)
      → read loads t (select k (cleanup_expired f now c).1.table) ≡ read loads t (select k c.table)
  unfolding cleanup_expired
  read-cleanup f now t k c h keyed positive =
      ground (arith, select-purge now k c.table keyed, unstale now t (select k c.table))

  pub cleanup-IsKeyed :
      (f : Fault) (now : ℕ) (c : Cache)
      → IsKeyed c.table
      → IsKeyed (cleanup_expired f now c).1.table
  unfolding cleanup_expired
  cleanup-IsKeyed f now c h = ground (arith, purge-IsKeyed now c.table h)

  pub cleanup-IsPositive :
      (f : Fault) (now : ℕ) (k : String) (c : Cache)
      → IsKeyed c.table
      → IsPositive (select k c.table)
      → IsPositive (select k (cleanup_expired f now c).1.table)
  unfolding cleanup_expired
  cleanup-IsPositive f now k c keyed h = ground (arith, select-purge now k c.table keyed)
