-- ===== src/Scans/Keeps.antt =====
-- Invariants of the database under actions: one rule for each way to build an action.
use creative_backend.Base.{Bool, true, false, if◌then◌else◌}
use creative_backend.Base.Result.{Result, ok, err}
use creative_backend.Base.Exec.{pure, throw, gets, try_catch, ◌>>=◌}
use creative_backend.Scans.Records.{Action}
use creative_backend.Store.{Db, Exception}

-- `m` keeps `P`, whether it returns or throws.
pub record Keeps {A : Type 0} (P : Db → Type 0) (m : Action A) : Type 0 where
  pub at : (db : Db) → P db → P (m db).1

module _ {A : Type 0} {P : Db → Type 0} where
  pub Keeps-pure : (a : A) → Keeps P (pure a)
  Keeps-pure a = record { at = λ db h. h }

  pub Keeps-throw : (e : Exception) → Keeps P (throw {A = A} e)
  Keeps-throw e = record { at = λ db h. h }

  pub Keeps-gets : (f : Db → A) → Keeps P (gets f)
  Keeps-gets f = record { at = λ db h. h }

  pub Keeps-if : (b : Bool) (m n : Action A) → Keeps P m → Keeps P n → Keeps P (if b then m else n)
  Keeps-if true m n km kn = km
  Keeps-if false m n km kn = kn

module _ {A B : Type 0} {P : Db → Type 0} where
  resume :
      (r : Result Exception A) (f : A → Action B) (db : Db)
      → ((a : A) → Keeps P (f a))
      → P db
      → P (let x : Result Exception B × Db = elim r [ ok a ↦ f a db | err e ↦ (err e, db) ] in x).1
  resume (ok a) f db k h = (k a).at db h
  resume (err e) f db k h = h

  -- the rule at one state
  pub bind_at :
      (m : Action A) (f : A → Action B) (db : Db)
      → P (m db).1
      → ((a : A) → Keeps P (f a))
      → P ((m >>= f) db).1
  bind_at m f db h k = let (r, db') = m db in resume r f db' k h

  pub Keeps-bind :
      (m : Action A) (f : A → Action B) → Keeps P m → ((a : A) → Keeps P (f a)) → Keeps P (m >>= f)
  Keeps-bind m f km kf = record { at = λ db h. bind_at m f db (km.at db h) kf }

module _ {A : Type 0} {P : Db → Type 0} where
  rescue :
      (r : Result Exception A) (handle : Exception → Action A) (db : Db)
      → ((e : Exception) → Keeps P (handle e))
      → P db
      → P
          (let x : Result Exception A × Db = elim r [ ok a ↦ (ok a, db) | err e ↦ handle e db ] in
            x).1
  rescue (ok a) handle db k h = h
  rescue (err e) handle db k h = (k e).at db h

  pub Keeps-try_catch :
      (m : Action A) (handle : Exception → Action A)
      → Keeps P m
      → ((e : Exception) → Keeps P (handle e))
      → Keeps P (try_catch m handle)
  Keeps-try_catch m handle km kh = record {
    at = λ db h. let (r, db') = m db in rescue r handle db' kh (km.at db h);
  }

pub ruleset keeps_rules =
    (Keeps-pure, Keeps-throw, Keeps-gets, Keeps-if, Keeps-bind, Keeps-try_catch)
