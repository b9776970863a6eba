-- ===== src/Sessions/Repeat.antt =====
-- `startMySession` twice: a session that it starts is the one that it goes on with.
use creative_backend.Base.{
  ℕ, ◌≡◌, refl, ap, ◌∙◌, String, Bool, true, Option, none, some, List, [], ◌∷◌, map, arith, ==_self,
  update, Option-cases, Bool-cases, inl, inr,
}
use creative_backend.Base.Queries.{
  append-Memᴰ, select-Memᴰ, first_by-Memᴰ, first_by-all, all-select_self,
}
use creative_backend.Base.Result.{ok, bind_ok, Result-cases}
use creative_backend.Scans.Checks.{ensure_event_can_be_modified, ensure_active_device}
use creative_backend.Sessions.Guards.{
  AuthUser, Plan, plan_start, MyPlan, plan_my_session, ensure_staff_user, is_mode,
  resolve_staff_user_id, ensure_active_assignment_binding,
  ensure_active_checkpoint_belongs_to_event,
}
use creative_backend.Sessions.Start.{
  ended, end_where, is_active_on, touch_device, new_session, add_session, start, is_reusable,
  find_reusable, seen, seen_later, go_on, my_dto, go_on_or_start, start_my_session,
}
use creative_backend.Sessions.Single.{opened}
use creative_backend.Sessions.Admitted.{start_lem}
use creative_backend.Sessions.Again.{
  Leaves, opened-is_only, gone_on, go_on_lem, go_on-Leaves, find_reusable-IsOnly, plan_settled,
}
use creative_backend.Store.{Db, StaffScanMode, StaffSession}

is_mode_sym : (a b : StaffScanMode) → is_mode a b ≡ true → is_mode b a ≡ true
is_mode_sym a b h = ground arith

resolved :
    (user : AuthUser) (id : String)
    → resolve_staff_user_id user (some user.id) ≡ ok id
    → id ≡ user.id
unfolding resolve_staff_user_id
resolved user id h = ground (arith, h)

-- what a plan for one's own session says
planned_mine :
    (db : Db) (user : AuthUser) (mine : MyPlan) (plan : Plan)
    → plan_start db user (my_dto user mine) ≡ ok plan
    → (plan.staff_user_id ≡ user.id) × (is_mode plan.mode mine.mode ≡ true)
unfolding plan_start
planned_mine db user mine plan h =
    let dto = my_dto user mine in
    let staff = bind_ok (resolve_staff_user_id user dto.staff_user_id) _ h in
    let event = bind_ok (ensure_event_can_be_modified db dto.event_id) _ staff.2 in
    let member = bind_ok (ensure_staff_user db staff.0) _ event.2 in
    let device = bind_ok (ensure_active_device db dto.device_id dto.event_id) _ member.2 in
    let checkpoint =
      bind_ok (ensure_active_checkpoint_belongs_to_event db dto.checkpoint_id dto.event_id) _
        device.2 in
    let binding =
      bind_ok (ensure_active_assignment_binding db dto.event_id staff.0 device.0.id checkpoint.0.id)
        _ checkpoint.2 in
    let own = resolved user staff.0 staff.1 in
    (ground (arith, binding.2, own), is_mode_sym mine.mode plan.mode (ground (arith, binding.2)))

start-Leaves :
    (now : ℕ) (id : String) (user : AuthUser) (mine : MyPlan) (plan : Plan) (db : Db)
    → plan.staff_user_id ≡ user.id
    → is_mode plan.mode mine.mode ≡ true
    → Leaves now user mine
        (new_session now id (my_dto user mine) plan)
        db
        (opened now id (my_dto user mine) plan db)
unfolding end_where touch_device add_session new_session
start-Leaves now id user mine plan db own mode = record {
  settled = record { users = refl; assignments = refl; checkpoints = refl; devices = refl };
  only = record {
    only = rw own (
        opened-is_only user mine id now (is_active_on mine.assignment.event_id mine.device_id)
          (record (new_session now id (my_dto user mine) plan) { staff_user_id = user.id })
          db.staff_sessions refl);
    stored = (
      new_session now id (my_dto user mine) plan,
      append-Memᴰ _ _,
      unfold is_reusable in
          ground (
            arith,
            own,
            mode,
            ==_self mine.assignment.event_id,
            ==_self mine.device_id,
            ==_self mine.checkpoint_id,
            ==_self user.id,
          ),
    );
  };
}

step :
    (now : ℕ) (id : String) (user : AuthUser) (plan : MyPlan) (o : Option StaffSession) (db : Db)
    → plan_my_session db user ≡ ok plan
    → find_reusable user plan db ≡ o
    → start_my_session now id user db ≡ go_on_or_start now id user plan o db
unfolding start_my_session
step now id user plan o db k found = ground (arith, k, found)

-- a call that answers has a plan, and leaves its session for the next call
module _ (now : ℕ) (id : String) (user : AuthUser) (session : StaffSession) (db : Db) where
  started :
      (plan : MyPlan)
      → (start now id user (my_dto user plan) db).0 ≡ ok session
      → Leaves now user plan session db (start now id user (my_dto user plan) db).1
  started plan h =
      let (found, planned, left, same) = start_lem now id user (my_dto user plan) db session h in
      let (own, mode) = planned_mine db user plan found planned in
      rw (left, same) (start-Leaves now id user plan found db own mode)

  gone :
      (plan : MyPlan) (s : StaffSession)
      → find_reusable user plan db ≡ some s
      → (go_on now user plan s db).0 ≡ ok session
      → Leaves now user plan session db (go_on now user plan s db).1
  unfolding find_reusable
  gone plan s found h =
      let m =
        select-Memᴰ (is_reusable user plan) s db.staff_sessions
          (first_by-Memᴰ seen_later _ s found) in
      let fits =
        first_by-all seen_later (is_reusable user plan) _ s (all-select_self _ db.staff_sessions)
          found in
      let (r, e, same) = go_on_lem now user plan s db m in
      rw e (go_on-Leaves now user plan s db session m fits (ground (arith, e, h, same)))

  start_my_session-Leaves :
      (start_my_session now id user db).0 ≡ ok session
      → (plan : MyPlan) × (plan_my_session db user ≡ ok plan)
        × Leaves now user plan session db (start_my_session now id user db).1
  start_my_session-Leaves h = elim (Result-cases (plan_my_session db user)) [
    | inl (e, k) ↦ absurd (unfold start_my_session in ground (arith, h, k))
    | inr (plan, k) ↦ elim (Option-cases (find_reusable user plan db)) [
      | inl fresh ↦
          let e = step now id user plan none db k fresh in
          (
            plan,
            k,
            rw e (unfold go_on_or_start in started plan (unfold go_on_or_start in rw e at h)),
          )
      | inr (s, found) ↦
          let e = step now id user plan (some s) db k found in
          (
            plan,
            k,
            rw e (unfold go_on_or_start in gone plan s found (unfold go_on_or_start in rw e at h)),
          )
    ]
  ]

abbrev pub session_ids : Db → List String
session_ids db = map (λ (s : StaffSession). s.id) db.staff_sessions

ids_kept :
    (test : StaffSession → Bool) (f : StaffSession → StaffSession) (xs : List StaffSession)
    → ((s : StaffSession) → (f s).id ≡ s.id)
    → map (λ (s : StaffSession). s.id) (update test f xs) ≡ map (λ (s : StaffSession). s.id) xs
ids_kept test f [] h = refl
ids_kept test f (x ∷ xs) h = elim (Bool-cases (test x)) [
  | inl e ↦ rw (e, h, ids_kept test f xs h) refl
  | inr e ↦ rw (e, ids_kept test f xs h) refl
]

gone_on-ids :
    (now : ℕ) (user : AuthUser) (plan : MyPlan) (s : StaffSession) (db : Db)
    → session_ids (gone_on now user plan s db) ≡ session_ids db
unfolding end_where touch_device
gone_on-ids now user plan s db =
    ids_kept _ (seen now) _ (λ r. refl) ∙ ids_kept _ (ended now) db.staff_sessions (λ r. refl)

-- If `startMySession` answers with a session, then calling it again, at any time, answers with a
-- session of the same id, and no session is created: the stored ids stay what they were.
pub start_my_session-again :
    (now later : ℕ) (id id' : String) (user : AuthUser) (session : StaffSession) (db : Db)
    → (start_my_session now id user db).0 ≡ ok session
    → let db' = (start_my_session now id user db).1 in
      (again : StaffSession) × ((start_my_session later id' user db').0 ≡ ok again)
      × (again.id ≡ session.id)
      × (session_ids (start_my_session later id' user db').1 ≡ session_ids db')
start_my_session-again now later id id' user session db h =
    let db' : Db = (start_my_session now id user db).1 in
    let (plan, k, left) = start_my_session-Leaves now id user session db h in
    let k' = plan_settled now plan.device_id db db' user plan left.settled k in
    let (s, found, same) = find_reusable-IsOnly user plan session db' left.only in
    let m =
      select-Memᴰ (is_reusable user plan) s db'.staff_sessions
        (first_by-Memᴰ seen_later _ s (unfold find_reusable in found)) in
    let (r, e, same') = go_on_lem later user plan s db' m in
    let all : start_my_session later id' user db'
        ≡ (ok (seen later r), gone_on later user plan s db') =
      step later id' user plan (some s) db' k' found ∙ (unfold go_on_or_start in e) in
    (
      seen later r,
      ap (λ x. x.0) all,
      same' ∙ same,
      ap (λ x. session_ids x.1) all ∙ gone_on-ids later user plan s db',
    )
