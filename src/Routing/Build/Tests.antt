-- ===== src/Routing/Build/Tests.antt =====
-- Examples of the routes of a host: those of the tests of src/routing.rs.
use rgnix.Base.{Text, codes, trim_end, ℕ, ◌≡◌, refl, Option, some, List, [], ◌∷◌}
use rgnix.Routing.{PathMatch, exact, nginx_prefix, ingress_prefix, route_path}
use rgnix.Routing.Build.{paths_of}
use rgnix.Routing.Build.Sound.{IsMatch, route_path-IsMatch}

abbrev test_routes : List PathMatch
test_routes =
    nginx_prefix (codes "/")
    ∷ exact (codes "/a")
    ∷ nginx_prefix (codes "/a")
    ∷ ingress_prefix (codes "/api")
    ∷ nginx_prefix (47 ∷ 230 ∷ 177 ∷ 137 ∷ 229 ∷ 173 ∷ 151 ∷ [])
    ∷ []

abbrev found : Text → Option ℕ
found path = route_path (paths_of test_routes) path

route_tests :
    (found (codes "/") ≡ some 0)
    × (found (codes "/a") ≡ some 1)
    × (found (codes "/abc") ≡ some 2)
    × (found (codes "/api/v1") ≡ some 3)
    × (found (codes "/apix") ≡ some 2)
    × (found (47 ∷ 230 ∷ 177 ∷ 137 ∷ 47 ∷ []) ≡ some 0)
unfolding route_path paths_of trim_end
route_tests = (refl, refl, refl, refl, refl, refl)

route_path-IsMatch_example : IsMatch test_routes (codes "/api/v1") 3
unfolding route_path paths_of trim_end
route_path-IsMatch_example = route_path-IsMatch test_routes (codes "/api/v1") 3 refl
