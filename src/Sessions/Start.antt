-- ===== src/Sessions/Start.antt =====
-- `start`, `startMySession`, `endMySession`, `end` and `remove` of staff-sessions.service.ts. The id
-- that a new row would get is an argument, and so is the time.
use creative_backend.Base.{
  ℕ, String, Bool, true, false, not, ◌&&◌, ◌||◌, Option, none, some, [], ◌∷◌, ◌++◌, map, ltb, eqb,
  ◌==◌, if◌then◌else◌, select, update, count_where,
}
use creative_backend.Base.Text.{trim, is_empty}
use creative_backend.Base.Queries.{first_by}
use creative_backend.Base.Result.{Result, ok, err, throw_if}
use creative_backend.Base.Exec.{Exec, pure, check, modify, transaction, ◌>>=◌, ◌>>◌}
use creative_backend.Scans.Checks.{is_active_session, find_session, or_not_found, includes}
use creative_backend.Sessions.Guards.{
  AuthUser, StartStaffSessionDto, is_staff, is_mode, Plan, plan_start, MyPlan, plan_my_session,
}
use creative_backend.Store.{Db, StaffSession, StaffSessionStatus, Exception}

abbrev pub Action : Type 0 → Type 0
Action A = Exec Db Exception A

-- `data: { status: ENDED, endedAt: now }`
abbrev pub ended : (now : ℕ) → StaffSession → StaffSession
ended now s = record s { status = StaffSessionStatus.ended; ended_at = some now }

-- `updateMany` that ends the sessions of a filter
unfoldable pub end_where : (now : ℕ) → (StaffSession → Bool) → Db → Db
end_where now test db = record db { staff_sessions = update test (ended now) db.staff_sessions }

abbrev pub is_active_of : String → StaffSession → Bool
is_active_of user_id s = (s.staff_user_id == user_id) && is_active_session s.status

abbrev pub is_active_on : (event_id device_id : String) → StaffSession → Bool
is_active_on event_id device_id s =
    (s.event_id == event_id) && (s.device_id == device_id) && is_active_session s.status

unfoldable pub touch_device : (now : ℕ) → String → Db → Db
touch_device now device_id db = record db {
  devices = update (λ d. d.id == device_id) (λ d. record d { last_seen_at = some now }) db.devices;
}

unfoldable pub new_session : (now : ℕ) → (id : String) → StartStaffSessionDto → Plan → StaffSession
new_session now id dto plan = record {
  id = id;
  event_id = dto.event_id;
  device_id = dto.device_id;
  checkpoint_id = dto.checkpoint_id;
  staff_user_id = plan.staff_user_id;
  mode = plan.mode;
  status = StaffSessionStatus.active;
  started_at = now;
  ended_at = none;
  last_seen_at = some now;
}

unfoldable pub add_session : StaffSession → Db → Db
add_session s db = record db { staff_sessions = db.staff_sessions ++ s ∷ [] }

-- the transaction of `start`
unfoldable pub open_session :
    (now : ℕ) → (id : String) → StartStaffSessionDto → Plan → Action StaffSession
open_session now id dto plan = transaction do
  modify (end_where now (is_active_of plan.staff_user_id))
  modify (end_where now (is_active_on dto.event_id dto.device_id))
  modify (add_session (new_session now id dto plan))
  modify (touch_device now dto.device_id)
  pure (new_session now id dto plan)

unfoldable pub start :
    (now : ℕ) → (id : String) → AuthUser → StartStaffSessionDto → Action StaffSession
unfolding open_session
start now id user dto = do plan ← check (λ db. plan_start db user dto); open_session now id dto plan

-- the filter of the session that `startMySession` goes on with
unfoldable pub is_reusable : AuthUser → MyPlan → StaffSession → Bool
is_reusable user plan s =
    (s.event_id == plan.assignment.event_id)
    && (s.device_id == plan.device_id)
    && (s.checkpoint_id == plan.checkpoint_id)
    && is_mode s.mode plan.mode
    && is_active_of user.id s
    && elim s.ended_at [ none ↦ true | some t ↦ false ]

-- an instant of a descending order, in which a missing one comes last
abbrev pub later : Option ℕ → Option ℕ → Bool
later none b = false
later (some a) none = true
later (some a) (some b) = ltb b a

abbrev pub same_instant : Option ℕ → Option ℕ → Bool
same_instant none none = true
same_instant (some a) (some b) = eqb a b
same_instant _ _ = false

-- `orderBy: [{ lastSeenAt: 'desc' }, { startedAt: 'desc' }]`
abbrev pub seen_later : StaffSession → StaffSession → Bool
seen_later a b =
    later a.last_seen_at b.last_seen_at
    || (same_instant a.last_seen_at b.last_seen_at && ltb b.started_at a.started_at)

unfoldable pub find_reusable : AuthUser → MyPlan → Db → Option StaffSession
find_reusable user plan db = first_by seen_later (select (is_reusable user plan) db.staff_sessions)

-- `deviceId?.trim() ? { deviceId: deviceId.trim() } : {}`
abbrev on_trimmed_device : String → StaffSession → Bool
on_trimmed_device device_id s = is_empty (trim device_id) || (s.device_id == trim device_id)

-- the other sessions of the user, and those of the device in the event
unfoldable pub is_superfluous : AuthUser → MyPlan → String → StaffSession → Bool
is_superfluous user plan id s =
    not (s.id == id)
    && is_active_session s.status
    && ((s.staff_user_id == user.id)
        || ((s.event_id == plan.assignment.event_id) && on_trimmed_device plan.device_id s))

abbrev pub seen : (now : ℕ) → StaffSession → StaffSession
seen now s = record s { last_seen_at = some now }

-- `staffSession.update` of the session that is gone on with
unfoldable pub refresh_session : (now : ℕ) → String → Action StaffSession
refresh_session now id db = elim (find_session db id) [
  | none ↦ (err (Exception.failure "Record to update not found."), db)
  | some s ↦ (
    ok (seen now s),
    record db { staff_sessions = update (λ r. r.id == id) (seen now) db.staff_sessions },
  )
]

unfoldable pub go_on : (now : ℕ) → AuthUser → MyPlan → StaffSession → Action StaffSession
go_on now user plan reusable = transaction do
  modify (end_where now (is_superfluous user plan reusable.id))
  session ← refresh_session now reusable.id
  modify (touch_device now plan.device_id)
  pure session

-- the request that `startMySession` hands to `start`
abbrev pub my_dto : AuthUser → MyPlan → StartStaffSessionDto
my_dto user plan = record {
  event_id = plan.assignment.event_id;
  device_id = plan.device_id;
  checkpoint_id = plan.checkpoint_id;
  staff_user_id = some user.id;
  mode = plan.mode;
}

unfoldable pub go_on_or_start :
    (now : ℕ) → (id : String) → AuthUser → MyPlan → Option StaffSession → Action StaffSession
go_on_or_start now id user plan (some reusable) = go_on now user plan reusable
go_on_or_start now id user plan none = start now id user (my_dto user plan)

unfoldable pub start_my_session : (now : ℕ) → (id : String) → AuthUser → Action StaffSession
unfolding go_on_or_start
start_my_session now id user = do
  plan ← check (λ db. plan_my_session db user)
  reusable ← check (λ db. ok (find_reusable user plan db))
  go_on_or_start now id user plan reusable

-- The answer is the number of sessions that were ended.
unfoldable pub end_my_session : (now : ℕ) → AuthUser → Action ℕ
end_my_session now user = do
  check (λ db.
      throw_if (not (is_staff user.role))
        (Exception.forbidden "Only STAFF can end their own scanner session"))
  ids ← check (λ db.
      ok (map (λ (s : StaffSession). s.id) (select (is_active_of user.id) db.staff_sessions)))
  let test = λ (s : StaffSession). includes ids s.id && is_active_session s.status
  count ← check (λ db. ok (count_where test db.staff_sessions))
  modify (end_where now test)
  pure count

abbrev is_ended : StaffSessionStatus → Bool
is_ended StaffSessionStatus.ended = true
is_ended _ = false

unfoldable pub find_one : Db → String → Result Exception StaffSession
find_one db id = or_not_found (find_session db id) "Staff session not found"

unfoldable pub end_found : (now : ℕ) → StaffSession → Action StaffSession
end_found now session =
    if is_ended session.status
    then pure session
    else (modify (end_where now (λ s. s.id == session.id)) >> pure (ended now session))

unfoldable pub end_session : (now : ℕ) → String → Action StaffSession
unfolding find_one end_found
end_session now id = do session ← check (λ db. find_one db id); end_found now session

unfoldable pub remove : (now : ℕ) → String → Action StaffSession
remove now id = end_session now id
