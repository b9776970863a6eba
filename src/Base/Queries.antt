-- ===== src/Base/Queries.antt =====
-- What queries find: `findFirst` under an order, filters and changes of rows.
use mathlib.Core.Path.{◌≡◌, refl}
use mathlib.Core.Logic.{inl, inr}
use mathlib.Core.Bool.{Bool, true, false}
use mathlib.Core.Option.{Option, none, some}
use mathlib.Core.List.{List, [], ◌∷◌, ◌++◌, Memᴰ}
use native.Mathlib.Omega.{arith}
use creative_backend.Base.Tests.{if◌then◌else◌, Bool-cases, Option-cases}
use creative_backend.Base.Lists.{all, select, update}

-- `findFirst` under an order: the first of those that no other comes before
abbrev pub first_by : {A : Type 0} → (A → A → Bool) → List A → Option A
first_by before [] = none
first_by before (x ∷ xs) = elim (first_by before xs) [
  | none ↦ some x
  | some y ↦ some (if before y x then y else x)
]

-- `first_by` finds a row of the list, and finds one if there is one.
pub first_by-all :
    {A : Type 0} (before : A → A → Bool) (q : A → Bool) (xs : List A) (x : A)
    → all q xs ≡ true
    → first_by before xs ≡ some x
    → q x ≡ true
first_by-all before q [] x h e = absurd (cc)
first_by-all before q (y ∷ ys) x h e = elim (Option-cases (first_by before ys)) [
  | inl none' ↦ ground (arith, h, e, none')
  | inr (z, found) ↦ ground (arith, h, e, found, first_by-all before q ys z)
]

pub first_by-cons :
    {A : Type 0} (before : A → A → Bool) (x : A) (xs : List A)
    → (y : A) × (first_by before (x ∷ xs) ≡ some y)
first_by-cons before x xs = elim (Option-cases (first_by before xs)) [
  | inl e ↦ (x, ground (arith, e))
  | inr (z, e) ↦ (if before z x then z else x, ground (arith, e))
]

pub all-select :
    {A : Type 0} (p q : A → Bool) (xs : List A) → all p xs ≡ true → all p (select q xs) ≡ true
all-select p q [] h = refl
all-select p q (x ∷ xs) h = ground (arith, all-select p q xs)

pub all_mono :
    {A : Type 0} (p q : A → Bool) (xs : List A)
    → ((x : A) → p x ≡ true → q x ≡ true)
    → all p xs ≡ true
    → all q xs ≡ true
all_mono p q [] k h = refl
all_mono p q (x ∷ xs) k h = ground (arith, k x, all_mono p q xs k)

pub all-select_self : {A : Type 0} (q : A → Bool) (xs : List A) → all q (select q xs) ≡ true
all-select_self q [] = refl
all-select_self q (x ∷ xs) = ground (arith, all-select_self q xs)

pub first_by-select :
    {A : Type 0} (before : A → A → Bool) (q : A → Bool) (xs : List A) (x : A)
    → Memᴰ x xs
    → q x ≡ true
    → (y : A) × (first_by before (select q xs) ≡ some y)
first_by-select before q [] x m h = elim m [ ]
first_by-select before q (z ∷ zs) x (Memᴰ.head e) h =
    let (y, found) = first_by-cons before z (select q zs) in (y, ground (arith, e, h, found))
first_by-select before q (z ∷ zs) x (Memᴰ.tail m) h = elim (Bool-cases (q z)) [
  | inl e ↦ let (y, found) = first_by-cons before z (select q zs) in (y, ground (arith, e, found))
  | inr e ↦ let (y, found) = first_by-select before q zs x m h in (y, ground (arith, e, found))
]

pub update-Memᴰ :
    {A : Type 0} (p : A → Bool) (f : A → A) (x : A) (xs : List A)
    → Memᴰ x xs
    → Memᴰ (if p x then f x else x) (update p f xs)
update-Memᴰ p f x [] m = elim m [ ]
update-Memᴰ p f x (y ∷ ys) (Memᴰ.head e) = Memᴰ.head (rw e refl)
update-Memᴰ p f x (y ∷ ys) (Memᴰ.tail m) = Memᴰ.tail (update-Memᴰ p f x ys m)

pub append-Memᴰ : {A : Type 0} (x : A) (xs : List A) → Memᴰ x (xs ++ x ∷ [])
append-Memᴰ x [] = Memᴰ.head refl
append-Memᴰ x (y ∷ ys) = Memᴰ.tail (append-Memᴰ x ys)

pub select-Memᴰ :
    {A : Type 0} (q : A → Bool) (x : A) (xs : List A) → Memᴰ x (select q xs) → Memᴰ x xs
select-Memᴰ q x [] m = m
select-Memᴰ q x (y ∷ ys) m = go (q y) (select-Memᴰ q x ys) m
  where
    go :
        (b : Bool)
        → (Memᴰ x (select q ys) → Memᴰ x ys)
        → Memᴰ x (if b then y ∷ select q ys else select q ys)
        → Memᴰ x (y ∷ ys)
    go true k (Memᴰ.head h) = Memᴰ.head h
    go true k (Memᴰ.tail t) = Memᴰ.tail (k t)
    go false k m = Memᴰ.tail (k m)

pub first_by-Memᴰ :
    {A : Type 0} (before : A → A → Bool) (xs : List A) (x : A)
    → first_by before xs ≡ some x
    → Memᴰ x xs
first_by-Memᴰ before [] x h = absurd (cc)
first_by-Memᴰ before (y ∷ ys) x h = elim (Option-cases (first_by before ys)) [
  | inl e ↦ Memᴰ.head (ground (arith, e, h))
  | inr (z, e) ↦ elim (Bool-cases (before z y)) [
    | inl b ↦ Memᴰ.tail (first_by-Memᴰ before ys x (ground (arith, e, b, h)))
    | inr b ↦ Memᴰ.head (ground (arith, e, b, h))
  ]
]
