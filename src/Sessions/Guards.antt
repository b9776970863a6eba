-- ===== src/Sessions/Guards.antt =====
-- The checks of staff-sessions.service.ts: they read and do not write. The event and the device are
-- checked as scans.service.ts does it.
use creative_backend.Base.{
  String, Bool, true, false, not, ◌&&◌, Option, none, some, ◌==◌, if◌then◌else◌, find, select, ltb,
}
use Prim.Native.String.{◌++◌}
use creative_backend.Base.Queries.{first_by}
use creative_backend.Base.Result.{Result, ok, err, ◌>>=◌, ◌>>◌, throw_if}
use creative_backend.Scans.Checks.{
  given, or_not_found, find_checkpoint, find_device, is_active_device, ensure_event_can_be_modified,
  ensure_active_device,
}
use creative_backend.Store.{
  Db, User, UserRole, UserStatus, StaffAssignment, Device, Checkpoint, CheckpointType,
  StaffScanMode, Exception,
}

pub record AuthUser : Type 0 where
  pub id : String
  pub role : UserRole

pub record StartStaffSessionDto : Type 0 where
  pub event_id : String
  pub device_id : String
  pub checkpoint_id : String
  pub staff_user_id : Option String
  pub mode : StaffScanMode

abbrev pub is_staff : UserRole → Bool
is_staff UserRole.staff = true
is_staff _ = false

abbrev pub is_active_user : UserStatus → Bool
is_active_user UserStatus.active = true
is_active_user _ = false

resolve_as : UserRole → (own : String) → Option String → Result Exception String
resolve_as UserRole.staff own none = ok own
resolve_as UserRole.staff own (some id) =
    if id == own
    then ok own
    else err (Exception.forbidden "STAFF cannot start a session for another user")
resolve_as UserRole.super_admin own none =
    err (Exception.bad_request "staffUserId is required for SUPER_ADMIN")
resolve_as UserRole.super_admin own (some id) = ok id
resolve_as UserRole.client_viewer own id =
    err (Exception.forbidden "Only STAFF or SUPER_ADMIN can start sessions")

unfoldable pub resolve_staff_user_id : AuthUser → Option String → Result Exception String
unfolding resolve_as
resolve_staff_user_id user staff_user_id = resolve_as user.role user.id (given staff_user_id)

unfoldable pub ensure_staff_user : Db → String → Result Exception User
ensure_staff_user db user_id = do
  user ← or_not_found (find (λ u. u.id == user_id) db.users) "User not found"
  throw_if (not (is_staff user.role)) (Exception.bad_request "User must have STAFF role")
  throw_if (not (is_active_user user.status)) (Exception.bad_request "Staff user must be ACTIVE")
  ok user

-- The checkpoint is required here, while a scan may come without one.
unfoldable pub ensure_active_checkpoint_belongs_to_event :
    Db → String → String → Result Exception Checkpoint
ensure_active_checkpoint_belongs_to_event db checkpoint_id event_id = do
  checkpoint ← or_not_found (find_checkpoint db checkpoint_id) "Checkpoint not found"
  throw_if (not (checkpoint.event_id == event_id))
      (Exception.bad_request "Checkpoint must belong to the same event")
  throw_if (not checkpoint.is_active) (Exception.bad_request "Checkpoint must be active")
  ok checkpoint

abbrev assignment_of : Db → (event_id user_id : String) → Option StaffAssignment
assignment_of db event_id user_id =
    find (λ a. (a.event_id == event_id) && (a.user_id == user_id)) db.staff_assignments

abbrev pub or_bad_request : {A : Type 0} → Option A → String → Result Exception A
or_bad_request none text = err (Exception.bad_request text)
or_bad_request (some a) text = ok a

abbrev keep_active : Option StaffAssignment → Option StaffAssignment
keep_active none = none
keep_active (some a) = if a.is_active then some a else none

unfoldable pub ensure_active_assignment_binding :
    Db
    → (event_id staff_user_id device_id checkpoint_id : String) → Result Exception StaffAssignment
ensure_active_assignment_binding db event_id staff_user_id device_id checkpoint_id = do
  assignment ←
      or_bad_request (keep_active (assignment_of db event_id staff_user_id))
        "Staff user must have an active assignment for this event"
  device ← or_bad_request (given assignment.device_id) "Staff assignment does not include a device"
  checkpoint ←
      or_bad_request (given assignment.checkpoint_id)
        "Staff assignment does not include a checkpoint"
  throw_if (not (device == device_id))
      (Exception.bad_request "Session device must match the staff assignment device")
  throw_if (not (checkpoint == checkpoint_id))
      (Exception.bad_request "Session checkpoint must match the staff assignment checkpoint")
  ok assignment

unfoldable pub resolve_mode_for_checkpoint : CheckpointType → StaffScanMode
resolve_mode_for_checkpoint CheckpointType.entry = StaffScanMode.entry
resolve_mode_for_checkpoint CheckpointType.exit = StaffScanMode.exit
resolve_mode_for_checkpoint CheckpointType.booth = StaffScanMode.booth_visit
resolve_mode_for_checkpoint CheckpointType.session_room = StaffScanMode.session_attendance
resolve_mode_for_checkpoint CheckpointType.vip_area = StaffScanMode.vip_access
resolve_mode_for_checkpoint _ = StaffScanMode.checkpoint

abbrev pub is_mode : StaffScanMode → StaffScanMode → Bool
is_mode StaffScanMode.entry StaffScanMode.entry = true
is_mode StaffScanMode.exit StaffScanMode.exit = true
is_mode StaffScanMode.checkpoint StaffScanMode.checkpoint = true
is_mode StaffScanMode.booth_visit StaffScanMode.booth_visit = true
is_mode StaffScanMode.session_attendance StaffScanMode.session_attendance = true
is_mode StaffScanMode.vip_access StaffScanMode.vip_access = true
is_mode _ _ = false

abbrev pub mode_name : StaffScanMode → String
mode_name StaffScanMode.entry = "ENTRY"
mode_name StaffScanMode.exit = "EXIT"
mode_name StaffScanMode.checkpoint = "CHECKPOINT"
mode_name StaffScanMode.booth_visit = "BOOTH_VISIT"
mode_name StaffScanMode.session_attendance = "SESSION_ATTENDANCE"
mode_name StaffScanMode.vip_access = "VIP_ACCESS"

-- What `start` finds out before it writes.
pub record Plan : Type 0 where
  pub staff_user_id : String
  pub mode : StaffScanMode

unfoldable pub plan_start : Db → AuthUser → StartStaffSessionDto → Result Exception Plan
unfolding resolve_staff_user_id
plan_start db user dto = do
  staff_user_id ← resolve_staff_user_id user dto.staff_user_id
  event ← ensure_event_can_be_modified db dto.event_id
  staff_user ← ensure_staff_user db staff_user_id
  device ← ensure_active_device db dto.device_id dto.event_id
  checkpoint ← ensure_active_checkpoint_belongs_to_event db dto.checkpoint_id dto.event_id
  binding ← ensure_active_assignment_binding db dto.event_id staff_user_id device.id checkpoint.id
  throw_if (not (is_mode dto.mode (resolve_mode_for_checkpoint checkpoint.type))) (
      Exception.bad_request (
        "Staff session mode must match checkpoint type. Expected "
        ++ mode_name (resolve_mode_for_checkpoint checkpoint.type)))
  ok (record { staff_user_id = staff_user_id; mode = resolve_mode_for_checkpoint checkpoint.type })

-- What `startMySession` finds out before it looks for a session to go on with.
pub record MyPlan : Type 0 where
  pub assignment : StaffAssignment
  pub device_id : String
  pub checkpoint_id : String
  pub mode : StaffScanMode

unfoldable pub newest_assignment : Db → String → Option StaffAssignment
newest_assignment db user_id =
    first_by (λ a b. ltb b.updated_at a.updated_at)
      (select (λ a. (a.user_id == user_id) && a.is_active) db.staff_assignments)

-- the checks of the assigned checkpoint and device
unfoldable pub plan_at :
    StaffAssignment
    → (checkpoint_id : String) → Checkpoint
    → (device_id : String) → Option Device
    → Result Exception MyPlan
plan_at assignment checkpoint_id checkpoint device_id found = do
  device ← or_bad_request found "Active staff assignment must include deviceId"
  throw_if (not checkpoint.is_active) (Exception.bad_request "Assigned checkpoint must be active")
  throw_if (not (is_active_device device.status))
      (Exception.bad_request "Assigned device must be ACTIVE")
  ok (record {
    assignment = assignment;
    device_id = device_id;
    checkpoint_id = checkpoint_id;
    mode = resolve_mode_for_checkpoint checkpoint.type;
  })

unfoldable pub plan_my_session : Db → AuthUser → Result Exception MyPlan
unfolding newest_assignment
plan_my_session db user = do
  throw_if (not (is_staff user.role))
      (Exception.forbidden "Only STAFF can start their own scanner session")
  staff_user ← ensure_staff_user db user.id
  assignment ← or_not_found (newest_assignment db user.id) "No active staff assignment found"
  checkpoint_id ←
      or_bad_request (given assignment.checkpoint_id)
        "Active staff assignment must include checkpointId"
  checkpoint ←
      or_bad_request (find_checkpoint db checkpoint_id)
        "Active staff assignment must include checkpointId"
  device_id ←
      or_bad_request (given assignment.device_id) "Active staff assignment must include deviceId"
  plan_at assignment checkpoint_id checkpoint device_id (find_device db device_id)
