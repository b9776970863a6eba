-- ===== src/Visitors/Latest.antt =====
-- What a page keeps of its rows: the last change of each registration.
use creative_backend.Base.{
  ◌≡◌, refl, ◌∙◌, String, Option, none, some, List, [], ◌∷◌, ◌++◌, arith, ◌==◌, ==_sound, eq_iff,
  if◌then◌else◌, Bool-cases, inl, inr,
}
use creative_backend.Visitors.Changes.{
  VisitorChange, insert_by_id, sort_by_id, set_change, latest_change_by_registration,
  effective_rows,
}

-- the last change of a registration
abbrev pub last_of : String → List VisitorChange → Option VisitorChange
last_of id [] = none
last_of id (c ∷ cs) = elim (last_of id cs) [
  | some later ↦ some later
  | none ↦ if c.registration_id == id then some c else none
]

abbrev pub or_later : Option VisitorChange → Option VisitorChange → Option VisitorChange
or_later earlier none = earlier
or_later earlier (some c) = some c

pub last_of-append :
    (id : String) (xs ys : List VisitorChange)
    → last_of id (xs ++ ys) ≡ or_later (last_of id xs) (last_of id ys)
last_of-append id [] [] = refl
last_of-append id [] (y ∷ ys) = ground arith
last_of-append id (x ∷ xs) ys = ground (arith, last_of-append id xs ys)

-- Each registration stands once.
abbrev IsKeyed : List VisitorChange → Type 0
IsKeyed [] = Unit {0}
IsKeyed (c ∷ cs) = (last_of c.registration_id cs ≡ none) × IsKeyed cs

last_of-set_change :
    (id : String) (c : VisitorChange) (xs : List VisitorChange)
    → IsKeyed xs
    → last_of id (set_change c xs) ≡ (if c.registration_id == id then some c else last_of id xs)
unfolding set_change
last_of-set_change id c [] k = refl
last_of-set_change id c (x ∷ xs) k = ground (
  arith,
  k.0,
  eq_iff x.registration_id c.registration_id,
  eq_iff c.registration_id id,
  eq_iff x.registration_id id,
  last_of-set_change id c xs k.1,
)

set_change-IsKeyed :
    (c : VisitorChange) (xs : List VisitorChange) → IsKeyed xs → IsKeyed (set_change c xs)
unfolding set_change
set_change-IsKeyed c [] k = (refl, tt)
set_change-IsKeyed c (x ∷ xs) k = elim (Bool-cases (x.registration_id == c.registration_id)) [
  | inl e ↦ rw e (rw (← ==_sound x.registration_id c.registration_id e) k.0, k.1)
  | inr e ↦ rw e (
    ground (
      arith,
      e,
      k.0,
      eq_iff x.registration_id c.registration_id,
      eq_iff c.registration_id x.registration_id,
      last_of-set_change x.registration_id c xs k.1,
    ),
    set_change-IsKeyed c xs k.1,
  )
]

last_of-insert :
    (id : String) (c : VisitorChange) (xs : List VisitorChange)
    → last_of c.registration_id xs ≡ none
    → last_of id (insert_by_id c xs) ≡ last_of id (c ∷ xs)
unfolding insert_by_id
last_of-insert id c [] h = refl
last_of-insert id c (x ∷ xs) h = ground (
  arith,
  h,
  eq_iff c.registration_id id,
  eq_iff x.registration_id id,
  eq_iff x.registration_id c.registration_id,
  last_of-insert id c xs,
)

last_of-sort :
    (id : String) (xs : List VisitorChange)
    → IsKeyed xs
    → last_of id (sort_by_id xs) ≡ last_of id xs
unfolding sort_by_id
last_of-sort id [] k = refl
last_of-sort id (c ∷ cs) k =
    last_of-insert id c (sort_by_id cs) (last_of-sort c.registration_id cs k.1 ∙ k.0)
    ∙ ground (arith, last_of-sort id cs k.1)

record IsLatest (m acc rows : List VisitorChange) : Type 0 where
  keyed : IsKeyed m
  latest : (id : String) → last_of id m ≡ or_later (last_of id acc) (last_of id rows)

latest_change_lem :
    (acc rows : List VisitorChange)
    → IsKeyed acc
    → IsLatest (latest_change_by_registration acc rows) acc rows
unfolding latest_change_by_registration
latest_change_lem acc [] k = record { keyed = k; latest = λ id. refl }
latest_change_lem acc (c ∷ cs) k =
    let ih = latest_change_lem (set_change c acc) cs (set_change-IsKeyed c acc k) in
    record {
      keyed = ih.keyed;
      latest = λ id. ground (arith, ih.latest id, last_of-set_change id c acc k);
    }

-- The rows that a page sends end, for each registration, with the change that the page's rows end
-- with.
pub effective_rows-last_of :
    (id : String) (rows : List VisitorChange) → last_of id (effective_rows rows) ≡ last_of id rows
unfolding effective_rows
effective_rows-last_of id rows =
    let m = latest_change_lem [] rows tt in
    last_of-sort id (latest_change_by_registration [] rows) m.keyed ∙ (m.latest id ∙ ground arith)
