-- ===== src/Sessions/Admitted.antt =====
-- A session that `start` opened lets the scans of its device and checkpoint through.
use creative_backend.Base.{
  ℕ, ◌≡◌, refl, String, Bool, true, false, Option, none, some, List, [], ◌∷◌, ◌++◌, if◌then◌else◌,
  arith, ==_self, find, update, ◌==◌, ◌∙◌, Option-cases, Bool-cases, inl, inr,
}
use mathlib.Core.Option
use creative_backend.Base.Result.{Result, ok, err, bind_ok, Result-cases}
use creative_backend.Base.Text.{is_empty}
use creative_backend.Scans.Checks.{
  Place, prerequisites, find_session, find_device, ensure_event_can_be_modified,
  ensure_active_device, ensure_active_staff_session, ensure_active_checkpoint, is_active_session,
}
use creative_backend.Sessions.Guards.{
  AuthUser, StartStaffSessionDto, Plan, plan_start, ensure_active_checkpoint_belongs_to_event,
  ensure_staff_user, resolve_staff_user_id,
}
use creative_backend.Sessions.Start.{
  ended, end_where, is_active_of, is_active_on, touch_device, new_session, add_session,
  open_session, start,
}
use creative_backend.Sessions.Single.{opened}
use creative_backend.Scans.Context.{Env}
use creative_backend.Scans.Records.{CreateScanDto, find_scan_by_operation, movement_of}
use creative_backend.Scans.Ingest.{
  Response, formatted, duplicate_scan, not_synced, provisional, ingest,
}
use creative_backend.Scans.Replay.{ingest-IsAnswered}
use creative_backend.Store.{Db, Device, Checkpoint, StaffSession, Exception}

-- the request with the place that a session was opened for
abbrev pub sent_from : StartStaffSessionDto → StaffSession → CreateScanDto → CreateScanDto
sent_from dto session sent = record sent {
  event_id = dto.event_id;
  device_id = dto.device_id;
  staff_session_id = some session.id;
  checkpoint_id = some dto.checkpoint_id;
}

-- A new scan that is answered with its movement is stored with it, both under the session; of other
-- answers nothing is said.
abbrev pub IsUnder : (session_id operation_id : String) → Result Exception Response → Db → Type 0
IsUnder id operation_id (ok (formatted false allowed reason scan (some movement))) db =
    (find_scan_by_operation db operation_id ≡ some scan)
    × (scan.staff_session_id ≡ some id)
    × (movement_of db scan.id ≡ some movement)
    × (movement.staff_session_id ≡ some id)
IsUnder id operation_id _ db = Unit

ingest-IsUnder :
    (env : Env) (sent : CreateScanDto) (id : String) (db : Db) (r : Result Exception Response)
    → sent.staff_session_id ≡ some id
    → (ingest env sent db).0 ≡ r
    → IsUnder id sent.operation_id r (ingest env sent db).1
ingest-IsUnder env sent id db (ok (formatted false allowed reason scan (some movement))) same h =
    let a = ingest-IsAnswered env sent db allowed reason scan movement h in
    (a.known, a.scan_session ∙ same, a.moved, a.movement_session ∙ same)
ingest-IsUnder env sent id db (ok (formatted false allowed reason scan none)) same h = tt
ingest-IsUnder env sent id db (ok (formatted true allowed reason scan movement)) same h = tt
ingest-IsUnder env sent id db (ok (duplicate_scan scan)) same h = tt
ingest-IsUnder env sent id db (ok (not_synced o)) same h = tt
ingest-IsUnder env sent id db (ok (provisional reason o)) same h = tt
ingest-IsUnder env sent id db (err e) same h = tt

-- What a plan has checked.
record IsPlanned (db : Db) (dto : StartStaffSessionDto) : Type 0 where
  event : (e : _) × (ensure_event_can_be_modified db dto.event_id ≡ ok e)
  device : (d : _) × (ensure_active_device db dto.device_id dto.event_id ≡ ok d)
  checkpoint :
      (c : _) × (ensure_active_checkpoint_belongs_to_event db dto.checkpoint_id dto.event_id ≡ ok c)

plan_start-IsPlanned :
    (db : Db) (user : AuthUser) (dto : StartStaffSessionDto) (plan : Plan)
    → plan_start db user dto ≡ ok plan
    → IsPlanned db dto
unfolding plan_start
plan_start-IsPlanned db user dto plan h =
    let staff = bind_ok (resolve_staff_user_id user dto.staff_user_id) _ h in
    let event = bind_ok (ensure_event_can_be_modified db dto.event_id) _ staff.2 in
    let member = bind_ok (ensure_staff_user db staff.0) _ event.2 in
    let device = bind_ok (ensure_active_device db dto.device_id dto.event_id) _ member.2 in
    let checkpoint =
      bind_ok (ensure_active_checkpoint_belongs_to_event db dto.checkpoint_id dto.event_id) _
        device.2 in
    record {
      event = (event.0, event.1);
      device = (device.0, device.1);
      checkpoint = (checkpoint.0, checkpoint.1);
    }

-- a row is found behind rows with other ids
find_new :
    (s : StaffSession) (xs : List StaffSession)
    → find (λ r. r.id == s.id) xs ≡ none
    → find (λ r. r.id == s.id) (xs ++ s ∷ []) ≡ some s
find_new s [] h = rw (==_self s.id) refl
find_new s (x ∷ xs) h = ground (arith, find_new s xs)

-- ending sessions makes no new id
find-ended :
    (now : ℕ) (test : StaffSession → Bool) (id : String) (xs : List StaffSession)
    → find (λ r. r.id == id) xs ≡ none
    → find (λ r. r.id == id) (update test (ended now) xs) ≡ none
find-ended now test id [] h = refl
find-ended now test id (x ∷ xs) h = ground (arith, find-ended now test id xs)

abbrev pub touch : (now : ℕ) → String → Device → Device
touch now id d = if d.id == id then record d { last_seen_at = some now } else d

pub find_touched :
    (now : ℕ) (id key : String) (xs : List Device)
    → find
        (λ d. d.id == key)
        (update (λ d. d.id == id) (λ d. record d { last_seen_at = some now }) xs)
      ≡ Option.map (touch now id) (find (λ d. d.id == key) xs)
find_touched now id key [] = refl
find_touched now id key (x ∷ xs) = elim (Bool-cases (x.id == id)) [
  | inl e ↦ rw e (ground (arith, e, find_touched now id key xs))
  | inr e ↦ rw e (ground (arith, e, find_touched now id key xs))
]

device_touched :
    (now : ℕ) (device_id event_id : String) (db : Db) (d : Device)
    → ensure_active_device db device_id event_id ≡ ok d
    → ensure_active_device (touch_device now device_id db) device_id event_id
      ≡ ok (touch now device_id d)
unfolding ensure_active_device touch_device
device_touched now device_id event_id db d h = elim (Option-cases (find_device db device_id)) [
  | inl e ↦ absurd (ground (arith, h, e))
  | inr (found, e) ↦ ground (arith, h, e, find_touched now device_id device_id db.devices)
]

checkpoint_known :
    (db : Db) (checkpoint_id event_id : String) (c : Checkpoint)
    → ensure_active_checkpoint_belongs_to_event db checkpoint_id event_id ≡ ok c
    → (o : Option Checkpoint) × (ensure_active_checkpoint db (some checkpoint_id) event_id ≡ ok o)
unfolding ensure_active_checkpoint ensure_active_checkpoint_belongs_to_event
checkpoint_known db checkpoint_id event_id c h = elim (Bool-cases (is_empty checkpoint_id)) [
  | inl e ↦ (none, ground (arith, e))
  | inr e ↦ (some c, ground (arith, e, h))
]

session_known :
    (s : StaffSession) (db : Db)
    → find_session db s.id ≡ some s
    → is_empty s.id ≡ false
    → is_active_session s.status ≡ true
    → ensure_active_staff_session db (some s.id) s.event_id ≡ ok (some s)
unfolding ensure_active_staff_session
session_known s db found named active = ground (arith, named, found, active, ==_self s.event_id)

passes :
    (db : Db) (event_id device_id id checkpoint_id : String) (place : Place)
    → ensure_event_can_be_modified db event_id ≡ ok place.event
    → ensure_active_device db device_id event_id ≡ ok place.device
    → ensure_active_staff_session db (some id) event_id ≡ ok place.session
    → ensure_active_checkpoint db (some checkpoint_id) event_id ≡ ok place.checkpoint
    → prerequisites db event_id device_id (some id) (some checkpoint_id) ≡ ok place
unfolding prerequisites
passes db event_id device_id id checkpoint_id place e d s c = rw e (rw d (rw s (rw c refl)))

module _ (now : ℕ) (id : String) (user : AuthUser) (dto : StartStaffSessionDto) (db : Db) where
  opened-finds :
      (plan : Plan)
      → find_session db id ≡ none
      → find_session (opened now id dto plan db) id ≡ some (new_session now id dto plan)
  unfolding touch_device add_session end_where new_session
  opened-finds plan h =
      find_new (new_session now id dto plan) _
        (find-ended now _ id _ (find-ended now _ id db.staff_sessions h))

  pub start_lem :
      (session : StaffSession)
      → (start now id user dto db).0 ≡ ok session
      → (plan : Plan) × (plan_start db user dto ≡ ok plan)
        × (start now id user dto db ≡ (ok (new_session now id dto plan), opened now id dto plan db))
        × (session ≡ new_session now id dto plan)
  unfolding start open_session
  start_lem session h = elim (Result-cases (plan_start db user dto)) [
    | inl (e, k) ↦ absurd (ground (arith, h, k))
    | inr (plan, k) ↦ (plan, k, ground (arith, k), ground (arith, h, k))
  ]

  -- After `start` has answered with a session, under an id that is new and not empty, a scan that
  -- names that session, the device and the checkpoint passes every check that a scan makes before
  -- its code is read, and the session that those checks find is the one that was answered. If
  -- `ingest` then answers such a scan as new and with a movement, the scan is stored under its
  -- operation id and its movement with it, and both rows name that session.
  pub start-prerequisites :
      (env : Env) (sent : CreateScanDto) (session : StaffSession)
      → find_session db id ≡ none
      → is_empty id ≡ false
      → (start now id user dto db).0 ≡ ok session
      → (place : Place) × (prerequisites
            (start now id user dto db).1
            dto.event_id
            dto.device_id
            (some session.id)
            (some dto.checkpoint_id)
          ≡ ok place)
        × (place.session ≡ some session)
        × IsUnder session.id sent.operation_id
            (ingest env (sent_from dto session sent) (start now id user dto db).1).0
            (ingest env (sent_from dto session sent) (start now id user dto db).1).1
  unfolding new_session
  start-prerequisites env sent session new named h =
      let (plan, planned, left, same) = start_lem session h in
      let facts = plan_start-IsPlanned db user dto plan planned in
      let (point, admitted) =
        checkpoint_known db dto.checkpoint_id dto.event_id facts.checkpoint.0 facts.checkpoint.1 in
      let place : Place = record {
        event = facts.event.0;
        device = touch now dto.device_id facts.device.0;
        session = some (new_session now id dto plan);
        checkpoint = point;
      } in
      rw (left, same)
        (
          place,
          unfold new_session touch_device add_session end_where ensure_event_can_be_modified
                ensure_active_device ensure_active_checkpoint in
              passes (opened now id dto plan db) dto.event_id dto.device_id id dto.checkpoint_id
                place facts.event.1
                (device_touched now dto.device_id dto.event_id
                  (add_session (new_session now id dto plan) (
                    end_where now (is_active_on dto.event_id dto.device_id)
                      (end_where now (is_active_of plan.staff_user_id) db)))
                  facts.device.0 facts.device.1)
                (session_known (new_session now id dto plan) (opened now id dto plan db)
                  (opened-finds plan new) named refl)
                admitted,
          refl,
          ingest-IsUnder env (sent_from dto (new_session now id dto plan) sent) id _ _ refl refl,
        )
