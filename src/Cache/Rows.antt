-- ===== src/Cache/Rows.antt =====
-- The rows of the table `cache` and what the store's SQL statements do to them.
pub mod Lookup
use image_descriptor.Prelude.{
  ℕ, ◌+◌, String, Bool, true, false, not, Option, none, some, List, [], ◌∷◌, ltb, length, keep,
  if◌then◌else◌,
}
use image_descriptor.Prelude.Text.{str_eq}
use Prim.Native.String.{count}

pub record Row : Type 0 where
  pub key : String
  pub value : String
  pub expires_at : Option ℕ

abbrev pub Table : Type 0
Table = List Row

-- SELECT value, expires_at FROM cache WHERE key = ?
unfoldable pub select : String → Table → Option Row
select key [] = none
select key (row ∷ rows) = if str_eq row.key key then some row else select key rows

-- DELETE FROM cache WHERE key = ?
unfoldable pub delete : String → Table → Table
delete key = keep (λ row. not (str_eq row.key key))

-- INSERT OR REPLACE INTO cache (key, value, expires_at) VALUES (?, ?, ?)
unfoldable pub replace : Row → Table → Table
unfolding delete
replace row rows = row ∷ delete row.key rows

-- expires_at IS NOT NULL AND expires_at < now
unfoldable pub is_stale : ℕ → Row → Bool
is_stale now row = elim row.expires_at [ none ↦ false | some t ↦ ltb t now ]

-- DELETE FROM cache WHERE expires_at IS NOT NULL AND expires_at < ?
unfoldable pub purge : ℕ → Table → Table
unfolding is_stale
purge now = keep (λ row. not (is_stale now row))

-- SELECT SUM(LENGTH(key) + LENGTH(value)) FROM cache
unfoldable pub sum_lengths : Table → ℕ
sum_lengths [] = 0
sum_lengths (row ∷ rows) = count row.key + count row.value + sum_lengths rows
