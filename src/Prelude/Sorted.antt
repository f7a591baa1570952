-- ===== src/Prelude/Sorted.antt =====
-- Sorted lists of distinct texts, in the order of their code points.
use Prim.Native.Nat.{Ordering}
use Prim.Native.String.{String, compare}
use mathlib.Core.List.{List, [], ◌∷◌}

-- one more element
unfoldable pub insert : String → List String → List String
insert s [] = s ∷ []
insert s (t ∷ ts) = elim (compare s t) [
  | Ordering.lt ↦ s ∷ t ∷ ts
  | Ordering.eq ↦ t ∷ ts
  | Ordering.gt ↦ t ∷ insert s ts
]

-- `sorted(texts)`, for distinct texts
unfoldable pub sorted : List String → List String
unfolding insert
sorted [] = []
sorted (s ∷ texts) = insert s (sorted texts)
