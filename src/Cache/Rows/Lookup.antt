-- ===== src/Cache/Rows/Lookup.antt =====
-- What a SELECT finds after each of the other statements.
use image_descriptor.Prelude.{
  ℕ, ◌≡◌, refl, ap, String, Bool, Option, none, some, [], ◌∷◌, arith, keep, if◌then◌else◌,
}
use image_descriptor.Prelude.Text.{str_eq, eq_iff, eq_refl}
use image_descriptor.Cache.Rows.{Row, Table, select, delete, replace, is_stale, purge}

pub select-delete :
    (k j : String) (rows : Table)
    → select j (delete k rows) ≡ (if str_eq k j then none else select j rows)
unfolding select delete
select-delete k j [] = ground arith
select-delete k j (row ∷ rows) =
    ground (arith, select-delete k j rows, eq_iff row.key k, eq_iff row.key j, eq_iff k j)

pub select-replace :
    (row : Row) (j : String) (rows : Table)
    → select j (replace row rows) ≡ (if str_eq row.key j then some row else select j rows)
unfolding select replace
select-replace row j rows = ground (arith, select-delete row.key j rows)

-- No two rows have one key: the table's PRIMARY KEY.
abbrev pub IsKeyed : Table → Type 0
IsKeyed [] = Unit
IsKeyed (row ∷ rows) = (select row.key rows ≡ none) × IsKeyed rows

select-keep-none :
    (p : Row → Bool) (k : String) (rows : Table)
    → select k rows ≡ none
    → select k (keep p rows) ≡ none
unfolding select
select-keep-none p k [] h = refl
select-keep-none p k (row ∷ rows) h = ground (arith, select-keep-none p k rows)

keep-IsKeyed : (p : Row → Bool) (rows : Table) → IsKeyed rows → IsKeyed (keep p rows)
keep-IsKeyed p [] h = tt
keep-IsKeyed p (row ∷ rows) (fresh, h) =
    ground (arith, keep-IsKeyed p rows h, select-keep-none p row.key rows fresh)

pub delete-IsKeyed : (k : String) (rows : Table) → IsKeyed rows → IsKeyed (delete k rows)
unfolding delete
delete-IsKeyed k rows h = keep-IsKeyed _ rows h

pub purge-IsKeyed : (now : ℕ) (rows : Table) → IsKeyed rows → IsKeyed (purge now rows)
unfolding purge
purge-IsKeyed now rows h = keep-IsKeyed _ rows h

pub replace-IsKeyed : (row : Row) (rows : Table) → IsKeyed rows → IsKeyed (replace row rows)
unfolding replace
replace-IsKeyed row rows h =
    (rw select-delete (ground (arith, eq_refl row.key)), delete-IsKeyed row.key rows h)

-- a row survives the purge if it is not stale
abbrev pub unless_stale : ℕ → Option Row → Option Row
unless_stale now none = none
unless_stale now (some row) = if is_stale now row then none else some row

pub select-purge :
    (now : ℕ) (k : String) (rows : Table)
    → IsKeyed rows
    → select k (purge now rows) ≡ unless_stale now (select k rows)
unfolding select purge
select-purge now k [] h = refl
select-purge now k (row ∷ rows) (fresh, h) =
    ground (arith, select-purge now k rows h, eq_iff row.key k, ap (unless_stale now) fresh)
