-- ===== src/Cache/Statistics.antt =====
-- app/cache/store.py: the statistics of a store.
use image_descriptor.Prelude.{ℕ, ◌+◌, ◌*◌, map, String, List, [], ◌∷◌, ltb, length, if◌then◌else◌}
use image_descriptor.Cache.Rows.{sum_lengths}
use image_descriptor.Prelude.Round.{round}
use image_descriptor.Prelude.Sorted.{insert}
use image_descriptor.Prelude.Counts.{count_of}
use image_descriptor.Cache.{Cache}

pub record ModuleStats : Type 0 where
  pub name : String
  pub hits : ℕ
  pub misses : ℕ
  pub hit_rate : ℕ

pub record Stats : Type 0 where
  pub entry_count : ℕ
  pub total_bytes : ℕ
  pub modules : List ModuleStats

-- the keys of both dictionaries, as a sorted set
unfoldable pub sorted_keys : List (String × ℕ) → List String → List String
unfolding insert
sorted_keys [] names = names
sorted_keys ((k, n) ∷ counts) names = sorted_keys counts (insert k names)

-- the rate is in ten-thousandths, for `round(hits / total, 4)`
unfoldable pub module_stats : Cache → String → ModuleStats
unfolding count_of round
module_stats c m =
    let hits = count_of m c.hits in
    let misses = count_of m c.misses in
    record {
      name = m;
      hits = hits;
      misses = misses;
      hit_rate = if ltb 0 (hits + misses) then round (hits * 10000) (hits + misses) else 0;
    }

unfoldable pub stats : Cache → Stats
unfolding module_stats sorted_keys sum_lengths
stats c = record {
  entry_count = length c.table;
  total_bytes = sum_lengths c.table;
  modules = map (module_stats c) (sorted_keys c.misses (sorted_keys c.hits []));
}
