-- ===== src/Scans/Checks.antt =====
-- The `ensure…` methods and the denial reasons of scans.service.ts: they read and do not write.
use creative_backend.Base.{
  String, Bool, true, false, not, ◌&&◌, ◌||◌, Option, none, some, List, [], ◌∷◌, ◌==◌,
  if◌then◌else◌, find,
}
use creative_backend.Base.Result.{Result, ok, err, ◌>>=◌, ◌>>◌, throw_if}
use creative_backend.Base.Text.{is_empty}
use creative_backend.Store.{
  Db, Event, EventStatus, Device, DeviceStatus, StaffSession, StaffSessionStatus, Checkpoint,
  MovementLog, MovementType, MovementResult, Exception,
}

abbrev pub is_archived : EventStatus → Bool
is_archived EventStatus.archived = true
is_archived _ = false

abbrev pub is_active_device : DeviceStatus → Bool
is_active_device DeviceStatus.active = true
is_active_device _ = false

abbrev pub is_active_session : StaffSessionStatus → Bool
is_active_session StaffSessionStatus.active = true
is_active_session _ = false

abbrev pub is_entry : MovementType → Bool
is_entry MovementType.entry = true
is_entry _ = false

abbrev pub is_allowed : MovementResult → Bool
is_allowed MovementResult.allowed = true
is_allowed _ = false

-- a text that is given and not empty, as JavaScript's truth value of it
abbrev pub given : Option String → Option String
given none = none
given (some s) = if is_empty s then none else some s

abbrev pub or_not_found : {A : Type 0} → Option A → String → Result Exception A
or_not_found none text = err (Exception.not_found text)
or_not_found (some a) text = ok a

abbrev pub find_event : Db → String → Option Event
find_event db id = find (λ e. e.id == id) db.events

abbrev pub find_device : Db → String → Option Device
find_device db id = find (λ d. d.id == id) db.devices

abbrev pub find_session : Db → String → Option StaffSession
find_session db id = find (λ d. d.id == id) db.staff_sessions

abbrev pub find_checkpoint : Db → String → Option Checkpoint
find_checkpoint db id = find (λ d. d.id == id) db.checkpoints

unfoldable pub ensure_event_can_be_modified : Db → String → Result Exception Event
ensure_event_can_be_modified db event_id = do
  event ← or_not_found (find_event db event_id) "Event not found"
  throw_if (is_archived event.status) (Exception.bad_request "Archived events cannot be modified")
  ok event

unfoldable pub ensure_active_device : Db → String → String → Result Exception Device
ensure_active_device db device_id event_id = do
  device ← or_not_found (find_device db device_id) "Device not found"
  throw_if (not (device.event_id == event_id))
      (Exception.bad_request "Device must belong to the same event")
  throw_if (not (is_active_device device.status)) (Exception.bad_request "Device must be ACTIVE")
  ok device

unfoldable pub ensure_active_staff_session :
    Db → Option String → String → Result Exception (Option StaffSession)
ensure_active_staff_session db staff_session_id event_id = elim (given staff_session_id) [
  | none ↦ ok none
  | some id ↦ do
    session ← or_not_found (find_session db id) "Staff session not found"
    throw_if (not (session.event_id == event_id))
        (Exception.bad_request "Staff session must belong to the same event")
    throw_if (not (is_active_session session.status))
        (Exception.bad_request "Staff session must be ACTIVE")
    ok (some session)
]

-- The session of a replayed offline scan may have ended, or be gone.
unfoldable pub ensure_staff_session_for_offline_replay :
    Db
    → Option String
    → (event_id device_id checkpoint_id : String) → Result Exception (Option StaffSession)
ensure_staff_session_for_offline_replay db staff_session_id event_id device_id checkpoint_id =
    elim (given staff_session_id) [
      | none ↦ ok none
      | some id ↦ elim (find_session db id) [
        | none ↦ ok none
        | some session ↦
            if not (session.event_id == event_id)
              || not (session.device_id == device_id)
              || not (session.checkpoint_id == checkpoint_id)
            then err (
                Exception.bad_request
                  "Offline scan session does not match event, device, or checkpoint")
            else ok (some session)
      ]
    ]

unfoldable pub ensure_active_checkpoint :
    Db → Option String → String → Result Exception (Option Checkpoint)
ensure_active_checkpoint db checkpoint_id event_id = elim (given checkpoint_id) [
  | none ↦ ok none
  | some id ↦ do
    checkpoint ← or_not_found (find_checkpoint db id) "Checkpoint not found"
    throw_if (not (checkpoint.event_id == event_id))
        (Exception.bad_request "Checkpoint must belong to the same event")
    throw_if (not checkpoint.is_active) (Exception.bad_request "Checkpoint must be active")
    ok (some checkpoint)
]

-- `includes`
abbrev pub includes : List String → String → Bool
includes [] x = false
includes (y ∷ ys) x = (y == x) || includes ys x

abbrev pub is_nil : List String → Bool
is_nil [] = true
is_nil (x ∷ xs) = false

-- whether a checkpoint lets an attendee type pass
abbrev pub admits : Option Checkpoint → String → Bool
admits none code = true
admits (some c) code = elim c.allowed_attendee_types [
  | none ↦ true
  | some types ↦ is_nil types || includes types code
]

unfoldable pub get_checkpoint_access_denial : Option Checkpoint → String → Option String
get_checkpoint_access_denial checkpoint code =
    if admits checkpoint code then none else some "ATTENDEE_TYPE_NOT_ALLOWED"

-- the filter of the query for an earlier entry
unfoldable pub is_allowed_entry : String → String → MovementLog → Bool
is_allowed_entry event_id registration_id m =
    (m.event_id == event_id)
    && (m.registration_id == registration_id)
    && is_entry m.type
    && is_allowed m.result

unfoldable pub get_reentry_denial : Db → Event → String → MovementType → Option String
get_reentry_denial db event registration_id type =
    if event.allow_re_entry || not (is_entry type)
    then none
    else elim (find (is_allowed_entry event.id registration_id) db.movements) [
      | none ↦ none
      | some m ↦ some "ALREADY_ENTERED"
    ]

-- `a ?? b`
abbrev pub or_else : Option String → String → String
or_else none b = b
or_else (some a) b = a

-- `accessReason ?? reentryReason ?? 'ALLOWED'`
unfoldable pub verdict :
    Db
    → Event
    → Option Checkpoint
    → (attendee_type_code registration_id : String) → MovementType
    → String
unfolding get_checkpoint_access_denial get_reentry_denial
verdict db event checkpoint code registration_id type =
    or_else (get_checkpoint_access_denial checkpoint code)
      (or_else (get_reentry_denial db event registration_id type) "ALLOWED")

unfoldable pub result_of : String → MovementResult
result_of reason = if reason == "ALLOWED" then MovementResult.allowed else MovementResult.denied

abbrev reason_map : List (String × String)
reason_map =
    ("INVALID_SIGNATURE", "INVALID_QR")
    ∷ ("TOKEN_NOT_FOUND", "INVALID_QR")
    ∷ ("OFFLINE_QR_NOT_SYNCED", "OFFLINE_REGISTRATION_NOT_SYNCED")
    ∷ ("OFFLINE_QR_CONFLICTED", "INVALID_QR")
    ∷ ("EVENT_MISMATCH", "WRONG_EVENT")
    ∷ ("TOKEN_REVOKED", "QR_REVOKED")
    ∷ ("TOKEN_EXPIRED", "QR_EXPIRED")
    ∷ ("REGISTRATION_INACTIVE", "REGISTRATION_INACTIVE")
    ∷ []

-- `map[reason] ?? reason`
abbrev mapped : List (String × String) → String → String
mapped [] reason = reason
mapped ((k, v) ∷ rest) reason = if k == reason then v else mapped rest reason

unfoldable pub to_scan_denial_reason : String → String
to_scan_denial_reason reason = mapped reason_map reason

-- What every scan needs before its code is read: the event, the device, and the session and the
-- checkpoint if they are named.
pub record Place : Type 0 where
  pub event : Event
  pub device : Device
  pub session : Option StaffSession
  pub checkpoint : Option Checkpoint

unfoldable pub prerequisites :
    Db
    → (event_id device_id : String) → (staff_session_id checkpoint_id : Option String)
    → Result Exception Place
prerequisites db event_id device_id staff_session_id checkpoint_id = do
  event ← ensure_event_can_be_modified db event_id
  device ← ensure_active_device db device_id event_id
  session ← ensure_active_staff_session db staff_session_id event_id
  checkpoint ← ensure_active_checkpoint db checkpoint_id event_id
  ok (record { event = event; device = device; session = session; checkpoint = checkpoint })
