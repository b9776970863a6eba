-- ===== src/Location/Tests.antt =====
-- The zones of location-cascade.util.spec.ts, and a circle of zones.
use creative_backend.Base.{String, ◌≡◌, refl, ◌↔◌, true, none, some, List, [], ◌∷◌}
use creative_backend.Scans.Checks.{includes}
use creative_backend.Location.{ZoneNode, collect_zone_subtree}
use creative_backend.Location.Subtree.{IsBelow, concat}
use creative_backend.Location.Levels.{are_new, collect_zone_subtree-IsBelow}

abbrev tree : List ZoneNode
tree =
    record { id = "root"; parent_id = none }
    ∷ record { id = "child-a"; parent_id = some "root" }
    ∷ record { id = "child-b"; parent_id = some "root" }
    ∷ record { id = "grandchild"; parent_id = some "child-a" }
    ∷ record { id = "unrelated"; parent_id = none }
    ∷ []

abbrev circle : List ZoneNode
circle = record { id = "a"; parent_id = some "b" } ∷ record { id = "b"; parent_id = some "a" } ∷ []

tree_levels :
    collect_zone_subtree tree ("root" ∷ [])
    ≡ some (("root" ∷ []) ∷ ("child-a" ∷ "child-b" ∷ []) ∷ ("grandchild" ∷ []) ∷ [])
unfolding collect_zone_subtree
tree_levels = refl

two_roots :
    collect_zone_subtree tree ("root" ∷ "child-a" ∷ [])
    ≡ some (("root" ∷ "child-a" ∷ []) ∷ ("child-b" ∷ "grandchild" ∷ []) ∷ [])
unfolding collect_zone_subtree
two_roots = refl

circle_levels : collect_zone_subtree circle ("a" ∷ []) ≡ some (("a" ∷ []) ∷ ("b" ∷ []) ∷ [])
unfolding collect_zone_subtree
circle_levels = refl

collect_zone_subtree-IsBelow_example :
    (levels : List (List String)) × (collect_zone_subtree tree ("root" ∷ []) ≡ some levels)
    × ((id : String) → (includes (concat levels) id ≡ true) ↔ IsBelow tree ("root" ∷ []) id)
    × (are_new [] levels ≡ true)
collect_zone_subtree-IsBelow_example = collect_zone_subtree-IsBelow tree ("root" ∷ [])
