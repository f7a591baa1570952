-- ===== src/Prelude/Counts.antt =====
-- Dictionaries of counts, in the order in which their keys came.
use Prim.Native.Nat.{ℕ, ◌+◌}
use Prim.Native.String.{String}
use mathlib.Core.Path.{◌≡◌}
use mathlib.Core.List.{List, [], ◌∷◌}
use native.Mathlib.Omega.{arith}
use image_descriptor.Prelude.Logic.{if◌then◌else◌}
use image_descriptor.Prelude.Text.{str_eq}

-- `counts[key] = counts.get(key, 0) + 1`
unfoldable pub bump : String → List (String × ℕ) → List (String × ℕ)
bump key [] = (key, 1) ∷ []
bump key ((k, n) ∷ counts) = if str_eq k key then (k, n + 1) ∷ counts else (k, n) ∷ bump key counts

-- `counts.get(key, 0)`
unfoldable pub count_of : String → List (String × ℕ) → ℕ
count_of key [] = 0
count_of key ((k, n) ∷ counts) = if str_eq k key then n else count_of key counts

-- `sum(counts.values())`
unfoldable pub total : List (String × ℕ) → ℕ
total [] = 0
total ((k, n) ∷ counts) = n + total counts

pub total-bump :
    (key : String) (counts : List (String × ℕ)) → total (bump key counts) ≡ total counts + 1
unfolding bump total
total-bump key [] = omega arith
total-bump key ((k, n) ∷ counts) = ground (arith, total-bump key counts)
