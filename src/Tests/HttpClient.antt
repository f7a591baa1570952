-- ===== src/Tests/HttpClient.antt =====
-- The shared client over two lives, and one that is lost.
use image_descriptor.Prelude.{refl, List, [], ◌∷◌}
use image_descriptor.HttpClient.{Event, getting, beginning, ending, at_start, get_client, step, run}
use image_descriptor.HttpClient.Shared.{IsShared, run-IsShared}
use image_descriptor.HttpClient.Leak.{IsLost, run-IsLost}

abbrev two_lives : List Event
two_lives = getting ∷ getting ∷ beginning ∷ ending ∷ getting ∷ []

run-IsShared_example : IsShared (run two_lives at_start)
unfolding step at_start get_client
run-IsShared_example = run-IsShared two_lives (refl, (refl, (refl, tt)))

run-IsLost_example :
    let p = run (getting ∷ []) at_start in
    IsLost p.made (run (beginning ∷ getting ∷ ending ∷ two_lives) p)
unfolding run step at_start get_client
run-IsLost_example = run-IsLost (run (getting ∷ []) at_start) 0 two_lives refl refl
