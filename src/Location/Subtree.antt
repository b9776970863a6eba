-- ===== src/Location/Subtree.antt =====
-- The rounds of `collectZoneSubtree`: they end, and reach what is below the roots and nothing else.
use creative_backend.Base.{
  ℕ, zero, suc, ◌≤◌, ◌<◌, String, ◌≡◌, refl, sym, ap, ◌∙◌, subst, inl, inr, Bool, true, false, not,
  ◌&&◌, ◌||◌, some, List, [], ◌∷◌, ◌++◌, ◌==◌, ==_self, ==_sound, arith, count_where, Bool-cases,
  Option-cases, &&_both,
}
use creative_backend.Scans.Checks.{includes, is_nil}
use creative_backend.Location.{
  ZoneNode, children_of, next_level, distinct, unvisited, collect_levels,
}

-- A root, or a zone whose parent is below a root.
pub data IsBelow (zones : List ZoneNode) (roots : List String) : String → Type 0 where
  root : (id : String) → includes roots id ≡ true → IsBelow zones roots id
  child :
      (parent id : String)
      → IsBelow zones roots parent
      → includes (children_of zones parent) id ≡ true
      → IsBelow zones roots id

abbrev pub concat : List (List String) → List String
concat [] = []
concat (l ∷ ls) = l ++ concat ls

-- facts about `includes`

pub includes-append :
    (xs ys : List String) (id : String)
    → includes (xs ++ ys) id ≡ (includes xs id || includes ys id)
includes-append [] ys id = refl
includes-append (x ∷ xs) ys id = ground (arith, includes-append xs ys id)

pub includes-unvisited :
    (visited xs : List String) (id : String)
    → includes (unvisited visited xs) id ≡ (includes xs id && not (includes visited id))
includes-unvisited visited [] id = refl
includes-unvisited visited (x ∷ xs) id = elim (Bool-cases (x == id)) [
  | inl e ↦
      let same : x ≡ id = ==_sound _ _ e in
      ground (arith, e, ap (includes visited) same, includes-unvisited visited xs id)
  | inr e ↦ ground (arith, e, includes-unvisited visited xs id)
]

pub includes-distinct :
    (seen xs : List String) (id : String)
    → includes (distinct seen xs) id ≡ (includes xs id && not (includes seen id))
unfolding distinct
includes-distinct seen [] id = refl
includes-distinct seen (x ∷ xs) id = elim (Bool-cases (x == id)) [
  | inl e ↦
      let same : x ≡ id = ==_sound _ _ e in
      ground (arith, e, ap (includes seen) same, includes-distinct seen xs id)
  | inr e ↦ ground (arith, e, includes-distinct seen xs id, includes-distinct (x ∷ seen) xs id)
]

next_level-includes :
    (zones : List ZoneNode) (ids : List String) (id : String)
    → includes (next_level zones ids) id ≡ true
    → (parent : String) × (includes ids parent ≡ true)
      × (includes (children_of zones parent) id ≡ true)
unfolding next_level
next_level-includes zones [] id h = absurd (cc)
next_level-includes zones (x ∷ xs) id h = elim (Bool-cases (includes (children_of zones x) id)) [
  | inl e ↦ (x, rw (==_self x) refl, e)
  | inr e ↦
      let rest : includes (next_level zones xs) id ≡ true =
        ground (arith, e, h, includes-append (children_of zones x) (next_level zones xs) id) in
      let (parent, is_in, kid) = next_level-includes zones xs id rest in
      (parent, ground (arith, is_in), kid)
]

includes-next_level :
    (zones : List ZoneNode) (ids : List String) (parent id : String)
    → includes ids parent ≡ true
    → includes (children_of zones parent) id ≡ true
    → includes (next_level zones ids) id ≡ true
unfolding next_level
includes-next_level zones [] parent id h k = absurd (cc)
includes-next_level zones (x ∷ xs) parent id h k = elim (Bool-cases (x == parent)) [
  | inl e ↦
      let same : x ≡ parent = ==_sound _ _ e in
      let own : includes (children_of zones x) id ≡ true =
        ap (λ p. includes (children_of zones p) id) same ∙ k in
      ground (arith, own, includes-append (children_of zones x) (next_level zones xs) id)
  | inr e ↦ ground (
    arith,
    e,
    h,
    includes-next_level zones xs parent id,
    k,
    includes-append (children_of zones x) (next_level zones xs) id,
  )
]

-- the ids that may turn up: roots and zones
abbrev pub Covers : List String → List ZoneNode → Type 0
Covers universe zones =
    (parent id : String)
    → includes (children_of zones parent) id ≡ true
    → includes universe id ≡ true

count-unvisited-le :
    (visited level universe : List String)
    → count_where (λ id. not (includes (visited ++ level) id)) universe
      ≤ count_where (λ id. not (includes visited id)) universe
count-unvisited-le visited level [] = omega arith
count-unvisited-le visited level (u ∷ us) =
    ground (arith, includes-append visited level u, count-unvisited-le visited level us)

count-unvisited-lt :
    (visited level universe : List String) (id : String)
    → includes universe id ≡ true
    → includes level id ≡ true
    → includes visited id ≡ false
    → count_where (λ x. not (includes (visited ++ level) x)) universe
      < count_where (λ x. not (includes visited x)) universe
count-unvisited-lt visited level [] id h k n = absurd (cc)
count-unvisited-lt visited level (u ∷ us) id h k n = elim (Bool-cases (u == id)) [
  | inl e ↦
      let same : u ≡ id = ==_sound _ _ e in
      ground (
        arith,
        includes-append visited level u,
        ap (includes level) same,
        ap (includes visited) same,
        k,
        n,
        count-unvisited-le visited level us,
      )
  | inr e ↦
      ground
        (arith, e, h, includes-append visited level u, count-unvisited-lt visited level us id, k, n)
]

-- the first of a list that is not empty
first_of : (ids : List String) → is_nil ids ≡ false → (id : String) × (includes ids id ≡ true)
first_of [] h = absurd (cc)
first_of (x ∷ xs) h = (x, rw (==_self x) refl)

pub collect_levels-total :
    (fuel : ℕ) (zones : List ZoneNode) (visited current universe : List String)
    → Covers universe zones
    → ((id : String) → includes current id ≡ true → includes universe id ≡ true)
    → count_where (λ id. not (includes visited id)) universe < fuel
    → (levels : List (List String)) × (collect_levels fuel zones visited current ≡ some levels)
unfolding collect_levels
collect_levels-total zero zones visited current universe c h lt = absurd (omega arith)
collect_levels-total (suc fuel) zones visited current universe c h lt =
    elim (Bool-cases (is_nil (unvisited visited current))) [
      | inl done ↦ ([], ground (arith, done))
      | inr more ↦
          let level = unvisited visited current in
          let (id, is_in) = first_of level more in
          let facts : (includes current id && not (includes visited id)) ≡ true =
            sym (includes-unvisited visited current id) ∙ is_in in
          let fewer =
            count-unvisited-lt visited level universe id (h id (&&_both _ _ facts).0) is_in
              (ground (arith, facts)) in
          let (levels, e) =
            collect_levels-total fuel zones (visited ++ level) (next_level zones level) universe c
              (λ x k. let p = next_level-includes zones level x k in c p.0 x p.2)
              (omega (arith, fewer)) in
          (level ∷ levels, ground (arith, more, e))
    ]

unvisited-is_nil :
    (visited xs : List String) (id : String)
    → is_nil (unvisited visited xs) ≡ true
    → includes xs id ≡ true
    → includes visited id ≡ true
unvisited-is_nil visited xs id done h = elim (Bool-cases (includes visited id)) [
  | inl e ↦ e
  | inr e ↦
      let kept : includes (unvisited visited xs) id ≡ true =
        includes-unvisited visited xs id ∙ ground (arith, h, e) in
      absurd (nothing (unvisited visited xs) done kept)
]
  where
    nothing : (ys : List String) → is_nil ys ≡ true → includes ys id ≡ true → ⊥
    nothing [] d k = cc
    nothing (y ∷ ys) d k = cc

pub collect_levels_sound :
    (zones : List ZoneNode) (roots : List String) (fuel : ℕ) (visited current : List String)
    (levels : List (List String)) (id : String)
    → ((x : String) → includes current x ≡ true → IsBelow zones roots x)
    → collect_levels fuel zones visited current ≡ some levels
    → includes (concat levels) id ≡ true
    → IsBelow zones roots id
unfolding collect_levels
collect_levels_sound zones roots zero visited current levels id h e k = absurd (cc)
collect_levels_sound zones roots (suc fuel) visited current levels id h e k =
    let level : List String = unvisited visited current in
    elim (Bool-cases (is_nil level)) [
      | inl done ↦
          let empty : [] ≡ levels = ground (arith, done, e) in
          absurd
            (ground (arith, k, ap (λ (ls : List (List String)). includes (concat ls) id) empty))
      | inr more ↦
          elim (Option-cases
            (collect_levels fuel zones (visited ++ level) (next_level zones level))) [
              | inl out ↦ absurd (ground (arith, more, out, e))
              | inr (rest, ran) ↦
                  let made : level ∷ rest ≡ levels = ground (arith, more, ran, e) in
                  let here : (includes level id || includes (concat rest) id) ≡ true =
                    sym (includes-append level (concat rest) id)
                    ∙ (ap (λ (ls : List (List String)). includes (concat ls) id) made ∙ k) in
                  let below = λ (x : String) (m : includes level x ≡ true).
                    h x (&&_both _ _ (sym (includes-unvisited visited current x) ∙ m)).0 in
                  elim (Bool-cases (includes level id)) [
                    | inl first ↦ below id first
                    | inr later ↦
                        collect_levels_sound zones roots fuel (visited ++ level)
                          (next_level zones level) rest id
                          (λ x m.
                            let p = next_level-includes zones level x m in
                            IsBelow.child p.0 x (below p.0 p.1) p.2)
                          ran (ground (arith, here, later))
                  ]
            ]
    ]

-- what was visited before, or is in a level
abbrev pub reached : List String → List (List String) → String → Bool
reached visited levels id = includes visited id || includes (concat levels) id

pub collect_levels_complete :
    (zones : List ZoneNode) (fuel : ℕ) (visited current : List String) (levels : List (List String))
    → collect_levels fuel zones visited current ≡ some levels
    → ((id : String) → includes current id ≡ true → reached visited levels id ≡ true)
      × ((parent id : String)
          → includes (concat levels) parent ≡ true
          → includes (children_of zones parent) id ≡ true
          → reached visited levels id ≡ true)
unfolding collect_levels
collect_levels_complete zones zero visited current levels e = absurd (cc)
collect_levels_complete zones (suc fuel) visited current levels e =
    let level : List String = unvisited visited current in
    elim (Bool-cases (is_nil level)) [
      | inl done ↦
          let empty : [] ≡ levels = ground (arith, done, e) in
          subst
            (λ ls.
              ((id : String) → includes current id ≡ true → reached visited ls id ≡ true)
              × ((parent id : String)
                  → includes (concat ls) parent ≡ true
                  → includes (children_of zones parent) id ≡ true
                  → reached visited ls id ≡ true))
            empty
            (
              λ id h. ground (arith, unvisited-is_nil visited current id done h),
              λ p id h k. absurd (cc),
            )
      | inr more ↦
          elim (Option-cases
            (collect_levels fuel zones (visited ++ level) (next_level zones level))) [
              | inl out ↦ absurd (ground (arith, more, out, e))
              | inr (rest, ran) ↦
                  let made : level ∷ rest ≡ levels = ground (arith, more, ran, e) in
                  let ih =
                    collect_levels_complete zones fuel (visited ++ level) (next_level zones level)
                      rest ran in
                  let wide = λ (x : String) (m : reached (visited ++ level) rest x ≡ true).
                    (let goal : reached visited (level ∷ rest) x ≡ true = ground (
                      arith,
                      m,
                      includes-append visited level x,
                      includes-append level (concat rest) x,
                    ) in
                      goal) in
                  subst
                    (λ ls.
                      ((id : String) → includes current id ≡ true → reached visited ls id ≡ true)
                      × ((parent id : String)
                          → includes (concat ls) parent ≡ true
                          → includes (children_of zones parent) id ≡ true
                          → reached visited ls id ≡ true))
                    made
                    (
                      λ id h. ground (
                        arith,
                        h,
                        includes-unvisited visited current id,
                        includes-append level (concat rest) id,
                      ),
                      λ parent id h k. elim (Bool-cases (includes level parent)) [
                        | inl first ↦
                            wide id (ih.0 id (includes-next_level zones level parent id first k))
                        | inr later ↦ wide id (
                            ih.1 parent id
                              (ground (arith, h, later, includes-append level (concat rest) parent))
                              k)
                      ],
                    )
            ]
    ]
