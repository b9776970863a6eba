-- ===== src/Location.antt =====
-- src/common/utils/location-cascade.util.ts: the zones below a zone, and what hangs on a checkpoint.
-- The `while` loop runs on fuel: one round more than there are root ids and zones.
pub mod Subtree
pub mod Levels
mod Tests
use creative_backend.Base.{
  ℕ, zero, suc, ◌+◌, String, Bool, true, false, not, ◌&&◌, Option, none, some, List, [], ◌∷◌, ◌++◌,
  ◌==◌, if◌then◌else◌, length, map, select,
}
use creative_backend.Scans.Checks.{includes, is_nil, given}

pub record ZoneNode : Type 0 where
  pub id : String
  pub parent_id : Option String

-- the parent is given and is this one
abbrev pub is_child_of : String → ZoneNode → Bool
is_child_of parent zone = elim (given zone.parent_id) [ none ↦ false | some id ↦ id == parent ]

-- `childrenByParent.get(id) ?? []`
unfoldable pub children_of : List ZoneNode → String → List String
children_of zones id = map (λ z. z.id) (select (is_child_of id) zones)

-- `flatMap`
unfoldable pub next_level : List ZoneNode → List String → List String
unfolding children_of
next_level zones [] = []
next_level zones (id ∷ ids) = children_of zones id ++ next_level zones ids

-- `[...new Set(ids)]`: the first of each
unfoldable pub distinct : (seen ids : List String) → List String
distinct seen [] = []
distinct seen (id ∷ ids) =
    if includes seen id then distinct seen ids else id ∷ distinct (id ∷ seen) ids

abbrev pub unvisited : List String → List String → List String
unvisited visited = select (λ id. not (includes visited id))

-- the loop; `none` where the fuel runs out
unfoldable pub collect_levels :
    (fuel : ℕ) → List ZoneNode → (visited current : List String) → Option (List (List String))
unfolding next_level
collect_levels zero zones visited current = none
collect_levels (suc fuel) zones visited current =
    let level = unvisited visited current in
    elim (is_nil level) [
      | true ↦ some []
      | false ↦ elim (collect_levels fuel zones (visited ++ level) (next_level zones level)) [
        | none ↦ none
        | some levels ↦ some (level ∷ levels)
      ]
    ]

unfoldable pub collect_zone_subtree : List ZoneNode → List String → Option (List (List String))
unfolding collect_levels distinct
collect_zone_subtree zones root_ids =
    collect_levels (suc (length root_ids + length zones)) zones [] (distinct [] root_ids)
