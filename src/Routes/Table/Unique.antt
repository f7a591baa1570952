-- ===== src/Routes/Table/Unique.antt =====
-- No request is taken by two routes.
use image_descriptor.Prelude.{
  ◌≡◌, refl, inl, inr, String, Bool, true, false, not, ◌&&◌, some, List, [], ◌∷◌, arith, Bool-cases,
}
use mathlib.Core.List.{Memᴰ}
use image_descriptor.Prelude.Text.{str_eq, eq_iff}
use image_descriptor.Routes.Table.{
  Method, same_method, Part, fixed, parameter, Route, fits, fits_path, takes, find_route, router,
  to_route, route,
}

-- whether some text may fit both
abbrev meet : Part → Part → Bool
meet (fixed s) (fixed t) = str_eq s t
meet _ _ = true

unfoldable pub paths_meet : List Part → List Part → Bool
paths_meet [] [] = true
paths_meet (p ∷ ps) (q ∷ qs) = meet p q && paths_meet ps qs
paths_meet _ _ = false

abbrev routes_meet : Route → Route → Bool
unfolding paths_meet
routes_meet r q = same_method r.method q.method && paths_meet r.path q.path

fits_both : (p q : Part) (s : String) → fits p s ≡ true → fits q s ≡ true → meet p q ≡ true
fits_both (fixed t) (fixed u) s h k = ground (arith, eq_iff t s, eq_iff u s, eq_iff t u)
fits_both (fixed t) parameter s h k = refl
fits_both parameter q s h k = refl

fits_path_both :
    (ps qs : List Part) (path : List String)
    → fits_path ps path ≡ true
    → fits_path qs path ≡ true
    → paths_meet ps qs ≡ true
unfolding fits_path paths_meet
fits_path_both [] [] path h k = refl
fits_path_both [] (q ∷ qs) [] h k = ground arith
fits_path_both [] (q ∷ qs) (s ∷ path) h k = ground arith
fits_path_both (p ∷ ps) [] [] h k = ground arith
fits_path_both (p ∷ ps) [] (s ∷ path) h k = ground arith
fits_path_both (p ∷ ps) (q ∷ qs) [] h k = ground arith
fits_path_both (p ∷ ps) (q ∷ qs) (s ∷ path) h k =
    ground (arith, h, k, fits_both p q s, fits_path_both ps qs path)

takes_both :
    (r q : Route) (m : Method) (path : List String)
    → takes r m path ≡ true
    → takes q m path ≡ true
    → routes_meet r q ≡ true
unfolding fits_path paths_meet
takes_both r q m path h k = ground (arith, h, k, fits_path_both r.path q.path path)

abbrev none_meets : Route → List Route → Bool
unfolding paths_meet
none_meets r [] = true
none_meets r (q ∷ qs) = not (routes_meet r q) && none_meets r qs

abbrev all_apart : List Route → Bool
unfolding paths_meet
all_apart [] = true
all_apart (r ∷ rs) = none_meets r rs && all_apart rs

router_apart : all_apart router ≡ true
unfolding paths_meet
router_apart = refl

none_meets_lem :
    (x r : Route) (rs : List Route) → none_meets x rs ≡ true → Memᴰ r rs → routes_meet x r ≡ false
unfolding paths_meet
none_meets_lem x r [] h i = elim i [ ]
none_meets_lem x r (q ∷ qs) h (Memᴰ.head e) = rw e (ground (arith, h))
none_meets_lem x r (q ∷ qs) h (Memᴰ.tail i) = none_meets_lem x r qs (ground (arith, h)) i

find_route_apart :
    (m : Method) (path : List String) (r : Route) (rs : List Route)
    → all_apart rs ≡ true
    → Memᴰ r rs
    → takes r m path ≡ true
    → find_route m path rs ≡ some r
unfolding find_route fits_path paths_meet
find_route_apart m path r [] h i k = elim i [ ]
find_route_apart m path r (x ∷ xs) h (Memᴰ.head e) k = rw (← e) (rw k refl)
find_route_apart m path r (x ∷ xs) h (Memᴰ.tail i) k = elim (Bool-cases (takes x m path)) [
  | inl t ↦
      let meet : routes_meet x r ≡ true = takes_both x r m path t k in
      let apart : routes_meet x r ≡ false = none_meets_lem x r xs (ground (arith, h)) i in
      absurd (ground (arith, meet, apart))
  | inr f ↦ rw f (find_route_apart m path r xs (ground (arith, h)) i k)
]

-- A request under /api/v1 goes to every route of the table that takes it: no other one takes it too, so
-- that the order of the table does not matter, and neither the redirect of legacy paths nor an error
-- of the framework answers in its place.
pub route-takes :
    (m : Method) (path : List String) (r : Route)
    → Memᴰ r router
    → takes r m path ≡ true
    → route m ("api" ∷ "v1" ∷ path) ≡ to_route r
unfolding route fits_path
route-takes m path r i k = rw (find_route_apart m path r router router_apart i k) refl
