-- ===== src/Tests/Cache.antt =====
-- The store's theorems at concrete runs.
use image_descriptor.Prelude.{◌≡◌, refl, String, Option, none, some, List, [], ◌∷◌, arith}
use image_descriptor.Errors.{Error, ok, database_error}
use image_descriptor.Cache.{fine, commit_fails, empty, get, is_expired}
use image_descriptor.Cache.Ideal.{Op, gets, sets, cleans, run}
use image_descriptor.Cache.Refinement.{get-latest}

abbrev locked : Error
locked = record { kind = database_error; text = "database is locked" }

abbrev loads : String → Option String
loads s = some s

abbrev dumps : String → String
dumps s = s

-- a value that is replaced while a commit fails, a read, a clean-up, and a value that expires
abbrev ops : List (Op String)
ops =
    sets fine 1000000 "geocode:1:2" "old" none (some 60)
    ∷ sets (commit_fails locked) 2000000 "geocode:1:2" "new" (some 1) none
    ∷ gets none fine 3000000 "mission:x"
    ∷ sets fine 4000000 "mission:x" "gone" none (some 1)
    ∷ cleans fine 9000000
    ∷ []

get-latest_example :
    (get loads none fine 10000000 "geocode:1:2" (run loads dumps empty ops)).0 ≡ ok (some "new")
unfolding is_expired
get-latest_example =
    get-latest loads dumps (λ v. refl) 1000000 ops fine 10000000 "geocode:1:2" (omega arith)
      (omega arith, (omega arith, (omega arith, (omega arith, (omega arith, tt))))) (omega arith) tt
