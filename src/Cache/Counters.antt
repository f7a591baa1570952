-- ===== src/Cache/Counters.antt =====
-- The hit and miss counters and the statistics drawn from them.
use image_descriptor.Prelude.{
  ℕ, ◌+◌, ◌*◌, ◌≤◌, ◌≡◌, String, Option, none, some, List, [], ◌∷◌, arith, map, All,
}
use image_descriptor.Prelude.Round.{round-le}
use image_descriptor.Errors.{Error}
use image_descriptor.Prelude.Counts.{count_of, total, total-bump}
use image_descriptor.Cache.{Cache, Fault, HasCaught, get, module_from_key}
use image_descriptor.Cache.Statistics.{stats, module_stats}

-- one, if the SELECT answered
abbrev pub answered : Option Error → ℕ
answered none = 1
answered (some e) = 0

-- Every `get` whose SELECT answers counts as one hit or one miss, and every other one as neither, if
-- the deletion does not raise past the handler.
pub get-counted :
    {V : Type 0} (loads : String → Option V) (e : Option Error) (f : Fault) (now : ℕ) (key : String)
    (c : Cache)
    → HasCaught f
    → let c' = (get loads e f now key c).1 in
      total c'.hits + total c'.misses ≡ total c.hits + total c.misses + answered e
unfolding get
get-counted loads e f now key c h =
    ground
      (arith, total-bump (module_from_key key) c.hits, total-bump (module_from_key key) c.misses)

rate-le : (c : Cache) (m : String) → (module_stats c m).hit_rate ≤ 10000
unfolding module_stats
rate-le c m =
    ground
      (arith, round-le (count_of m c.hits * 10000) (count_of m c.hits + count_of m c.misses) 10000)

rates-le :
    (c : Cache) (names : List String) → All (λ s. s.hit_rate ≤ 10000) (map (module_stats c) names)
rates-le c [] = tt
rates-le c (m ∷ names) = (rate-le c m, rates-le c names)

-- No module's hit rate passes 1.
pub stats_rates-le : (c : Cache) → All (λ s. s.hit_rate ≤ 10000) (stats c).modules
unfolding stats
stats_rates-le c = rates-le c _
