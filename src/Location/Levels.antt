-- ===== src/Location/Levels.antt =====
-- `collectZoneSubtree` ends, and gives the roots and everything below them, each level new.
use creative_backend.Base.{
  ℕ, zero, suc, ◌+◌, ◌≤◌, String, ◌≡◌, refl, sym, ap, ◌∙◌, ◌↔◌, inl, inr, Bool, true, not, ◌&&◌,
  some, List, [], ◌∷◌, ◌++◌, ◌==◌, arith, length, map, all, count_where, Bool-cases, Option-cases,
  &&_both,
}
use creative_backend.Scans.Checks.{includes, is_nil}
use creative_backend.Location.{
  ZoneNode, is_child_of, children_of, next_level, distinct, unvisited, collect_levels,
  collect_zone_subtree,
}
use creative_backend.Location.Subtree.{
  IsBelow, root, child, concat, Covers, includes-append, includes-distinct, collect_levels-total,
  collect_levels_sound, collect_levels_complete,
}

-- No level is empty, and none holds an id of an earlier level.
abbrev pub are_new : (visited : List String) → List (List String) → Bool
are_new visited [] = true
are_new visited (level ∷ levels) =
    not (is_nil level)
    && (all (λ id. not (includes visited id)) level && are_new (visited ++ level) levels)

all-unvisited :
    (visited ids : List String)
    → all (λ id. not (includes visited id)) (unvisited visited ids) ≡ true
all-unvisited visited [] = refl
all-unvisited visited (x ∷ xs) = ground (arith, all-unvisited visited xs)

collect_levels-are_new :
    (fuel : ℕ) (zones : List ZoneNode) (visited current : List String) (levels : List (List String))
    → collect_levels fuel zones visited current ≡ some levels
    → are_new visited levels ≡ true
unfolding collect_levels
collect_levels-are_new zero zones visited current levels e = absurd (cc)
collect_levels-are_new (suc fuel) zones visited current levels e =
    let level : List String = unvisited visited current in
    elim (Bool-cases (is_nil level)) [
      | inl done ↦ let empty : levels ≡ [] = ground (arith, done, e) in ap (are_new visited) empty
      | inr more ↦
          elim (Option-cases
            (collect_levels fuel zones (visited ++ level) (next_level zones level))) [
              | inl out ↦ absurd (ground (arith, more, out, e))
              | inr (rest, ran) ↦
                  let made : levels ≡ level ∷ rest = ground (arith, more, ran, e) in
                  ap (are_new visited) made
                  ∙ rw more (
                      rw (all-unvisited visited current) (
                        collect_levels-are_new fuel zones (visited ++ level)
                          (next_level zones level) rest ran))
            ]
    ]

universe : List ZoneNode → List String → List String
universe zones roots = roots ++ map (λ z. z.id) zones

count-universe :
    (p : String → Bool) (zones : List ZoneNode) (roots : List String)
    → count_where p (universe zones roots) ≤ length roots + length zones
unfolding universe
count-universe p [] [] = omega arith
count-universe p (z ∷ zones) [] = ground (arith, count-universe p zones [])
count-universe p zones (r ∷ roots) = ground (arith, count-universe p zones roots)

children_of-universe :
    (zones : List ZoneNode) (parent id : String)
    → includes (children_of zones parent) id ≡ true
    → includes (map (λ z. z.id) zones) id ≡ true
unfolding children_of
children_of-universe [] parent id h = h
children_of-universe (z ∷ zones) parent id h = elim (Bool-cases (z.id == id)) [
  | inl e ↦ rw e refl
  | inr e ↦ elim (Bool-cases (is_child_of parent z)) [
    | inl k ↦ ground (arith, e, children_of-universe zones parent id (ground (arith, e, k, h)))
    | inr k ↦ ground (arith, e, children_of-universe zones parent id (ground (arith, k, h)))
  ]
]

universe-Covers :
    (zones : List ZoneNode) (roots : List String) → Covers (universe zones roots) zones
unfolding universe
universe-Covers zones roots parent id h = ground (
  arith,
  includes-append roots (map (λ z. z.id) zones) id,
  children_of-universe zones parent id h,
)

module _ (zones : List ZoneNode) (roots : List String) where
  collect_zone_subtree-total :
      (levels : List (List String)) × (collect_zone_subtree zones roots ≡ some levels)
  unfolding collect_zone_subtree universe
  collect_zone_subtree-total =
      collect_levels-total (suc (length roots + length zones)) zones [] (distinct [] roots)
        (universe zones roots) (universe-Covers zones roots)
        (λ id h.
          let own =
            (&&_both (includes roots id) (not (includes [] id))
              (sym (includes-distinct [] roots id) ∙ h)).0 in
          ground (arith, own, includes-append roots (map (λ z. z.id) zones) id))
        (omega (arith, count-universe (λ id. not (includes [] id)) zones roots))

  below-reached :
      (levels : List (List String)) (id : String)
      → collect_zone_subtree zones roots ≡ some levels
      → IsBelow zones roots id
      → includes (concat levels) id ≡ true
  unfolding collect_zone_subtree
  below-reached levels _ e (root id h) =
      (collect_levels_complete zones (suc (length roots + length zones)) [] (distinct [] roots)
          levels e).0
        id (ground (arith, h, includes-distinct [] roots id))
  below-reached levels _ e (child parent id b h) =
      (collect_levels_complete zones (suc (length roots + length zones)) [] (distinct [] roots)
          levels e).1
        parent id (below-reached levels parent e b) h

  -- Collecting the zones below some roots ends for every table of zones, also one in which parents form
  -- a circle. An id stands in one of the levels just when it is a root or its parent is below a root; no
  -- level is empty, and no id of a level stands in an earlier one.
  pub collect_zone_subtree-IsBelow :
      (levels : List (List String)) × (collect_zone_subtree zones roots ≡ some levels)
      × ((id : String) → (includes (concat levels) id ≡ true) ↔ IsBelow zones roots id)
      × (are_new [] levels ≡ true)
  unfolding collect_zone_subtree
  collect_zone_subtree-IsBelow =
      let (levels, e) = collect_zone_subtree-total in
      (
        levels,
        e,
        λ id. (
          collect_levels_sound zones roots (suc (length roots + length zones)) []
              (distinct [] roots) levels id
              (λ x h. root x (&&_both _ _ (sym (includes-distinct [] roots x) ∙ h)).0) e,
          below-reached levels id e,
        ),
        collect_levels-are_new (suc (length roots + length zones)) zones [] (distinct [] roots)
            levels e,
      )
