-- ===== src/Base/Exec.antt =====
-- Methods that read and write the database and may throw. What was written before a throw stays
-- written unless a transaction takes it back, so the state comes back beside an exception too.
use mathlib.Core.Path.{◌≡◌, refl, ap}
use mathlib.Core.Logic.{◌⊎◌, inl, inr}
use creative_backend.Base.Result.{Result, ok, err}

abbrev pub Exec : (S E A : Type 0) → Type 0
Exec S E A = S → Result E A × S

module _ {S E A : Type 0} where
  abbrev pub pure : A → Exec S E A
  pure a s = (ok a, s)

  abbrev pub throw : E → Exec S E A
  throw e s = (err e, s)

  abbrev pub gets : (S → A) → Exec S E A
  gets f s = (ok (f s), s)

  -- a check that reads the state and may throw
  abbrev pub check : (S → Result E A) → Exec S E A
  check f s = (f s, s)

  -- `prisma.$transaction`: a throw takes back what was written
  abbrev pub transaction : Exec S E A → Exec S E A
  transaction m s = let (r, s') = m s in elim r [ ok a ↦ (ok a, s') | err e ↦ (err e, s) ]

  -- `try { m } catch (error) { handle(error) }`
  abbrev pub try_catch : Exec S E A → (E → Exec S E A) → Exec S E A
  try_catch m handle s = let (r, s') = m s in elim r [ ok a ↦ (ok a, s') | err e ↦ handle e s' ]

abbrev pub modify : {S E : Type 0} → (S → S) → Exec S E Unit
modify f s = (ok tt, f s)

infixl 5 ◌>>=◌ ◌>>◌
abbrev pub ◌>>=◌ : {S E A B : Type 0} → Exec S E A → (A → Exec S E B) → Exec S E B
◌>>=◌ m f s = let (r, s') = m s in elim r [ ok a ↦ f a s' | err e ↦ (err e, s') ]

abbrev pub ◌>>◌ : {S E A B : Type 0} → Exec S E A → Exec S E B → Exec S E B
m >> k = m >>= λ _. k

-- A property that a method keeps, and what follows it after each answer, is kept by both.
pub bind-keeps :
    {S E A B : Type 0} (P : S → Type 0) (m : Exec S E A) (f : A → Exec S E B) (s : S)
    → P (m s).1
    → ((a : A) → (m s).0 ≡ ok a → P (f a (m s).1).1)
    → P ((m >>= f) s).1
bind-keeps {S} {E} {A} {B} P m f s h k = go (m s).0 h k
  where
    go :
        (r : Result E A)
        → P (m s).1
        → ((a : A) → r ≡ ok a → P (f a (m s).1).1)
        → P (elim r as (λ x. Result E B × S) [ ok a ↦ f a (m s).1 | err e ↦ (err e, (m s).1) ]).1
    go (ok a) h k = k a refl
    go (err e) h k = h

-- what follows a method that has returned
pub bind_ran :
    {S E A B : Type 0} (m : Exec S E A) (f : A → Exec S E B) (s t : S) (a : A)
    → m s ≡ (ok a, t)
    → (m >>= f) s ≡ f a t
bind_ran {S} {E} {A} {B} m f s t a h = ap go h
  where
    go : Result E A × S → Result E B × S
    go (r, u) = elim r as (λ x. Result E B × S) [ ok b ↦ f b u | err e ↦ (err e, u) ]

pub bind_failed :
    {S E A B : Type 0} (m : Exec S E A) (f : A → Exec S E B) (s t : S) (e : E)
    → m s ≡ (err e, t)
    → (m >>= f) s ≡ (err e, t)
bind_failed {S} {E} {A} {B} m f s t e h = ap go h
  where
    go : Result E A × S → Result E B × S
    go (r, u) = elim r as (λ x. Result E B × S) [ ok b ↦ f b u | err e ↦ (err e, u) ]

-- what a handler is given, and a body that returns
pub try_failed :
    {S E A : Type 0} (m : Exec S E A) (handle : E → Exec S E A) (s t : S) (e : E)
    → m s ≡ (err e, t)
    → try_catch m handle s ≡ handle e t
try_failed {S} {E} {A} m handle s t e h = ap go h
  where
    go : Result E A × S → Result E A × S
    go (r, u) = elim r as (λ x. Result E A × S) [ ok b ↦ (ok b, u) | err e ↦ handle e u ]

pub try_ran :
    {S E A : Type 0} (m : Exec S E A) (handle : E → Exec S E A) (s t : S) (a : A)
    → m s ≡ (ok a, t)
    → try_catch m handle s ≡ (ok a, t)
try_ran {S} {E} {A} m handle s t a h = ap go h
  where
    go : Result E A × S → Result E A × S
    go (r, u) = elim r as (λ x. Result E A × S) [ ok b ↦ (ok b, u) | err e ↦ handle e u ]

-- A transaction throws and leaves the state, or returns.
pub transaction-cases :
    {S E A : Type 0} (m : Exec S E A) (s : S)
    → ((e : E) × (transaction m s ≡ (err e, s))) ⊎ ((a : A) × (transaction m s ≡ (ok a, (m s).1)))
transaction-cases {S} {E} {A} m s = go (m s).0
  where
    after : Result E A → Result E A × S
    after r = elim r as (λ x. Result E A × S) [ ok a ↦ (ok a, (m s).1) | err e ↦ (err e, s) ]

    go :
        (r : Result E A)
        → ((e : E) × (after r ≡ (err e, s))) ⊎ ((a : A) × (after r ≡ (ok a, (m s).1)))
    go (ok a) = inr (a, refl)
    go (err e) = inl (e, refl)
