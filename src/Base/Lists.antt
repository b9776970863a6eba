-- ===== src/Base/Lists.antt =====
-- Lists over the native numbers, and the table operations that queries are written with.
use Prim.Native.Nat.{ℕ, suc, ◌+◌, ◌≤◌}
use mathlib.Core.Path.{◌≡◌, refl}
use mathlib.Core.Bool.{Bool, true, false, ◌&&◌}
use mathlib.Core.Option.{Option, none, some}
use mathlib.Core.List.{List, [], ◌∷◌, ◌++◌, Memᴰ}
use native.Mathlib.Omega.{arith}
use creative_backend.Base.Tests.{if◌then◌else◌, Bool-cases}
use mathlib.Core.Logic.{inl, inr}

module _ {ℓ} {A : Type ℓ} where
  abbrev pub length : List A → ℕ
  length [] = 0
  length (x ∷ xs) = suc (length xs)

  -- the first row that satisfies a test
  abbrev pub find : (A → Bool) → List A → Option A
  find p [] = none
  find p (x ∷ xs) = if p x then some x else find p xs

  -- the rows that satisfy a test
  abbrev pub select : (A → Bool) → List A → List A
  select p [] = []
  select p (x ∷ xs) = let rest = select p xs in if p x then x ∷ rest else rest

  -- a change of the rows that satisfy a test
  abbrev pub update : (A → Bool) → (A → A) → List A → List A
  update p f [] = []
  update p f (x ∷ xs) = (if p x then f x else x) ∷ update p f xs

  abbrev pub all : (A → Bool) → List A → Bool
  all p [] = true
  all p (x ∷ xs) = p x && all p xs

  -- how many rows satisfy a test
  abbrev pub count_where : (A → Bool) → List A → ℕ
  count_where p [] = 0
  count_where p (x ∷ xs) = (if p x then 1 else 0) + count_where p xs

  pub count_where-append :
      (p : A → Bool) (xs ys : List A)
      → count_where p (xs ++ ys) ≡ count_where p xs + count_where p ys
  count_where-append p [] ys = omega arith
  count_where-append p (x ∷ xs) ys = omega (arith, count_where-append p xs ys)

  pub find-eq-none_count : (p : A → Bool) (xs : List A) → find p xs ≡ none → count_where p xs ≡ 0
  find-eq-none_count p [] h = refl
  find-eq-none_count p (x ∷ xs) h = ground (arith, find-eq-none_count p xs)

  pub find_satisfies : (p : A → Bool) (xs : List A) (x : A) → find p xs ≡ some x → p x ≡ true
  find_satisfies p [] x h = cc
  find_satisfies p (y ∷ ys) x h = ground (arith, find_satisfies p ys x)

  pub find-Memᴰ : (p : A → Bool) (xs : List A) (x : A) → find p xs ≡ some x → Memᴰ x xs
  find-Memᴰ p [] x h = cc
  find-Memᴰ p (y ∷ ys) x h = elim (Bool-cases (p y)) [
    | inl e ↦ Memᴰ.head (ground arith)
    | inr e ↦ Memᴰ.tail (find-Memᴰ p ys x (ground arith))
  ]

module _ {ℓ κ} {A : Type ℓ} (P : A → Type κ) where
  abbrev pub All : List A → Type κ
  All [] = Unit
  All (x ∷ xs) = P x × All xs

  pub All-append : (xs ys : List A) → All xs → All ys → All (xs ++ ys)
  All-append [] ys hx hy = hy
  All-append (x ∷ xs) ys hx hy = (hx.0, All-append xs ys hx.1 hy)

-- A change that makes no row satisfy `q` anew does not raise the count; if it takes `q` from all that
-- satisfied it, none is left.
pub count_where-update_le :
    {A : Type 0} (q p : A → Bool) (f : A → A) (xs : List A)
    → ((x : A) → q (f x) ≡ true → q x ≡ true)
    → count_where q (update p f xs) ≤ count_where q xs
count_where-update_le q p f [] h = omega arith
count_where-update_le q p f (x ∷ xs) h = ground (arith, h x, count_where-update_le q p f xs h)

pub count_where-update_zero :
    {A : Type 0} (q p : A → Bool) (f : A → A) (xs : List A)
    → ((x : A) → q x ≡ true → p x ≡ true)
    → ((x : A) → q (f x) ≡ false)
    → count_where q (update p f xs) ≡ 0
count_where-update_zero q p f [] h k = refl
count_where-update_zero q p f (x ∷ xs) h k =
    ground (arith, h x, k x, count_where-update_zero q p f xs h k)

-- a row that is replaced is found in place of the old one
pub find-update :
    {A : Type 0} (p : A → Bool) (row old : A) (xs : List A)
    → p row ≡ true
    → find p xs ≡ some old
    → find p (update p (λ x. row) xs) ≡ some row
find-update p row old [] own h = absurd (cc)
find-update p row old (x ∷ xs) own h = elim (Bool-cases (p x)) [
  | inl e ↦ rw e (rw own refl)
  | inr e ↦ rw e (rw e (find-update p row old xs own (ground (arith, e))))
]
