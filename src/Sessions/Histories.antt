-- ===== src/Sessions/Histories.antt =====
-- Every request of staff-sessions.service.ts keeps the single active sessions, and so do histories.
use creative_backend.Base.{
  ℕ, ◌≡◌, refl, String, Bool, Option, none, some, List, [], ◌∷◌, arith, count_where-update_le,
  Option-cases, inl, inr,
}
use creative_backend.Base.Result.{Result, ok, err}
use creative_backend.Base.Exec.{modify, check, pure, transaction, ◌>>=◌, ◌>>◌}
use creative_backend.Scans.Checks.{find_session}
use creative_backend.Sessions.Guards.{
  AuthUser, StartStaffSessionDto, Plan, plan_start, MyPlan, plan_my_session,
}
use creative_backend.Sessions.Start.{
  Action, end_where, is_active_of, is_active_on, touch_device, open_session, start, is_superfluous,
  seen, refresh_session, go_on, my_dto, find_reusable, go_on_or_start, start_my_session,
  end_my_session, end_found, end_session, remove,
}
use creative_backend.Scans.Keeps.{Keeps, Keeps-pure, Keeps-if, Keeps-bind}
use creative_backend.Sessions.Single.{
  HasSingleSessions, HasFewer, end_where-HasFewer, HasFewer-keeps, opened-HasSingleSessions,
}
use creative_backend.Store.{Db, StaffSession, Exception}

module _ {P : Db → Type 0} where
  Keeps-modify : (f : Db → Db) → ((db : Db) → P db → P (f db)) → Keeps P (modify f)
  Keeps-modify f h = record { at = h }

  Keeps-check : {A : Type 0} (f : Db → Result Exception A) → Keeps P (check f)
  Keeps-check f = record { at = λ db h. h }

open_session-Keeps :
    (now : ℕ) (id : String) (dto : StartStaffSessionDto) (plan : Plan)
    → Keeps HasSingleSessions (open_session now id dto plan)
unfolding open_session
open_session-Keeps now id dto plan = record {
  at = λ db h. opened-HasSingleSessions now id dto plan db h;
}

start-Keeps :
    (now : ℕ) (id : String) (user : AuthUser) (dto : StartStaffSessionDto)
    → Keeps HasSingleSessions (start now id user dto)
unfolding start
start-Keeps now id user dto =
    Keeps-bind (check (λ db. plan_start db user dto)) (λ plan. open_session now id dto plan)
      (Keeps-check _) (λ plan. open_session-Keeps now id dto plan)

fewer-Keeps :
    {A : Type 0} (m : Action A) → ((db : Db) → HasFewer db (m db).1) → Keeps HasSingleSessions m
fewer-Keeps m f = record { at = λ db h. HasFewer-keeps (f db) h }

refresh_session-HasFewer :
    (now : ℕ) (id : String) (db : Db) → HasFewer db (refresh_session now id db).1
unfolding refresh_session
refresh_session-HasFewer now id db = elim (Option-cases (find_session db id)) [
  | inl e ↦
      rw (e, refresh_session)
        (record { of_user = λ u. omega arith; on_device = λ v d. omega arith })
  | inr (s, e) ↦
      rw (e, refresh_session)
        (record {
          of_user =
              λ u. count_where-update_le (is_active_of u) _ (seen now) db.staff_sessions (λ s h. h);
          on_device = λ v d.
              count_where-update_le (is_active_on v d) _ (seen now) db.staff_sessions (λ s h. h);
        })
]

same-HasFewer : (db db' : Db) → db'.staff_sessions ≡ db.staff_sessions → HasFewer db db'
same-HasFewer db db' e = record {
  of_user = λ u. rw e (omega arith);
  on_device = λ v d. rw e (omega arith);
}

touch_device-same :
    (now : ℕ) (id : String) (db : Db) → (touch_device now id db).staff_sessions ≡ db.staff_sessions
unfolding touch_device
touch_device-same now id db = refl

transaction-Keeps :
    {A : Type 0} {P : Db → Type 0} (m : Action A) → Keeps P m → Keeps P (transaction m)
transaction-Keeps {A} {P} m k = record { at = λ db h. go (m db).0 (m db).1 db h (k.at db h) }
  where
    go :
        (r : Result Exception A) (db' db : Db)
        → P db
        → P db'
        → P
            (let x : Result Exception A × Db = elim r [
              | ok a ↦ (ok a, db')
              | err e ↦ (err e, db)
            ] in
              x).1
    go (ok a) db' db h k = k
    go (err e) db' db h k = h

end_where-Keeps :
    (now : ℕ) (test : StaffSession → Bool) → Keeps HasSingleSessions (modify (end_where now test))
end_where-Keeps now test = fewer-Keeps _ (end_where-HasFewer now test)

touch_device-Keeps :
    (now : ℕ) (id : String) → Keeps HasSingleSessions (modify (touch_device now id))
touch_device-Keeps now id = fewer-Keeps _ λ db. same-HasFewer db _ (touch_device-same now id db)

refresh_session-Keeps : (now : ℕ) (id : String) → Keeps HasSingleSessions (refresh_session now id)
refresh_session-Keeps now id = fewer-Keeps _ (refresh_session-HasFewer now id)

ruleset session_rules = (
  Keeps-pure, Keeps-if, Keeps-bind, Keeps-check, transaction-Keeps, end_where-Keeps,
  touch_device-Keeps, refresh_session-Keeps, start-Keeps,
)

go_on-Keeps :
    (now : ℕ) (user : AuthUser) (plan : MyPlan) (s : StaffSession)
    → Keeps HasSingleSessions (go_on now user plan s)
unfolding go_on
go_on-Keeps now user plan s = transaction-Keeps _ (
    Keeps-bind (modify (end_where now (is_superfluous user plan s.id)))
      (λ x. refresh_session now s.id >>= λ session.
        modify (touch_device now plan.device_id) >> pure session)
      (end_where-Keeps now _)
      (λ x. Keeps-bind (refresh_session now s.id) _ (refresh_session-Keeps now s.id) (λ session.
        Keeps-bind (modify (touch_device now plan.device_id)) (λ x. pure session)
          (touch_device-Keeps now _) (λ x. Keeps-pure session))))

go_on_or_start-Keeps :
    (now : ℕ) (id : String) (user : AuthUser) (plan : MyPlan) (o : Option StaffSession)
    → Keeps HasSingleSessions (go_on_or_start now id user plan o)
unfolding go_on_or_start
go_on_or_start-Keeps now id user plan (some s) = go_on-Keeps now user plan s
go_on_or_start-Keeps now id user plan none = start-Keeps now id user (my_dto user plan)

start_my_session-Keeps :
    (now : ℕ) (id : String) (user : AuthUser)
    → Keeps HasSingleSessions (start_my_session now id user)
unfolding start_my_session
start_my_session-Keeps now id user =
    Keeps-bind (check (λ db. plan_my_session db user))
      (λ plan. check (λ db. ok (find_reusable user plan db)) >>= λ reusable.
        go_on_or_start now id user plan reusable)
      (Keeps-check _)
      (λ plan.
        Keeps-bind (check (λ db. ok (find_reusable user plan db)))
          (λ reusable. go_on_or_start now id user plan reusable) (Keeps-check _)
          (λ reusable. go_on_or_start-Keeps now id user plan reusable))

end_my_session-Keeps :
    (now : ℕ) (user : AuthUser) → Keeps HasSingleSessions (end_my_session now user)
unfolding end_my_session
end_my_session-Keeps now user = search session_rules depth 8

end_found-Keeps : (now : ℕ) (s : StaffSession) → Keeps HasSingleSessions (end_found now s)
unfolding end_found
end_found-Keeps now s = search session_rules

end_session-Keeps : (now : ℕ) (id : String) → Keeps HasSingleSessions (end_session now id)
unfolding end_session
end_session-Keeps now id = search (session_rules, end_found-Keeps)

-- The requests that write sessions.
pub data Request : Type 0 where
  start_for : AuthUser → StartStaffSessionDto → Request
  start_mine end_mine : AuthUser → Request
  end_one : String → Request

-- a request at a time, with the id that a new row would get
pub record Call : Type 0 where
  pub now : ℕ
  pub new_id : String
  pub request : Request

unfoldable pub serve : Call → Request → Db → Db
serve call (start_for user dto) db = (start call.now call.new_id user dto db).1
serve call (start_mine user) db = (start_my_session call.now call.new_id user db).1
serve call (end_mine user) db = (end_my_session call.now user db).1
serve call (end_one id) db = (remove call.now id db).1

unfoldable pub serve_all : List Call → Db → Db
unfolding serve
serve_all [] db = db
serve_all (call ∷ calls) db = serve_all calls (serve call call.request db)

serve-HasSingleSessions :
    (call : Call) (request : Request) (db : Db)
    → HasSingleSessions db
    → HasSingleSessions (serve call request db)
unfolding serve remove
serve-HasSingleSessions call (start_for user dto) db h =
    (start-Keeps call.now call.new_id user dto).at db h
serve-HasSingleSessions call (start_mine user) db h =
    (start_my_session-Keeps call.now call.new_id user).at db h
serve-HasSingleSessions call (end_mine user) db h = (end_my_session-Keeps call.now user).at db h
serve-HasSingleSessions call (end_one id) db h = (end_session-Keeps call.now id).at db h

-- From a database in which each user has at most one active session, and each device at most one in
-- an event, every history of starts, of `startMySession` and of ends, refused or not, leads to a
-- database of that kind.
pub serve_all-HasSingleSessions :
    (calls : List Call) (db : Db) → HasSingleSessions db → HasSingleSessions (serve_all calls db)
unfolding serve_all
serve_all-HasSingleSessions [] db h = h
serve_all-HasSingleSessions (call ∷ calls) db h =
    serve_all-HasSingleSessions calls (serve call call.request db)
      (serve-HasSingleSessions call call.request db h)
