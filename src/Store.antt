-- ===== src/Store.antt =====
-- prisma/schema.prisma: the tables that scanning and offline work read and write, as lists of rows.
-- Keys that come in requests and tokens are texts; the keys of rows that scanning itself creates
-- are numbers, drawn from `next_id` in place of `cuid()`. An instant is a number of milliseconds.
-- Columns that only display data are left out.
use creative_backend.Base.{ℕ, String, Bool, Option, List}
use creative_backend.Base.Json.{Fields}

pub data UserRole : Type 0 where
  super_admin client_viewer staff : UserRole

pub data UserStatus : Type 0 where
  active suspended invited deleted : UserStatus

pub data EventStatus : Type 0 where
  draft scheduled active completed cancelled archived : EventStatus

pub data DeviceStatus : Type 0 where
  pending active suspended revoked : DeviceStatus

pub data CheckpointType : Type 0 where
  entry exit booth session_room vip_area internal_point workshop_area other : CheckpointType

pub data StaffScanMode : Type 0 where
  entry exit checkpoint booth_visit session_attendance vip_access : StaffScanMode

pub data StaffSessionStatus : Type 0 where
  active ended expired : StaffSessionStatus

pub data RegistrationStatus : Type 0 where
  pending active cancelled blocked archived : RegistrationStatus

pub data QrTokenStatus : Type 0 where
  active revoked expired : QrTokenStatus

pub data ScanEventStatus : Type 0 where
  pending processed duplicate failed invalid_qr : ScanEventStatus

pub data MovementType : Type 0 where
  entry exit checkpoint booth_visit session_attendance vip_access : MovementType

pub data MovementResult : Type 0 where
  allowed denied warning : MovementResult

pub data OfflineKeyStatus : Type 0 where
  active revoked rotated : OfflineKeyStatus

pub data MappingStatus : Type 0 where
  pending synced matched_existing conflicted revoked : MappingStatus

pub data OfflineScanStatus : Type 0 where
  pending_link linked processed conflicted failed : OfflineScanStatus

pub record Event : Type 0 where
  pub id : String
  pub status : EventStatus
  pub allow_re_entry : Bool

pub record Device : Type 0 where
  pub id : String
  pub event_id : String
  pub status : DeviceStatus
  pub last_seen_at : Option ℕ

pub record StaffSession : Type 0 where
  pub id : String
  pub event_id : String
  pub device_id : String
  pub checkpoint_id : String
  pub staff_user_id : String
  pub mode : StaffScanMode
  pub status : StaffSessionStatus
  pub started_at : ℕ
  pub ended_at : Option ℕ
  pub last_seen_at : Option ℕ

pub record User : Type 0 where
  pub id : String
  pub role : UserRole
  pub status : UserStatus

pub record StaffAssignment : Type 0 where
  pub id : String
  pub event_id : String
  pub user_id : String
  pub checkpoint_id : Option String
  pub device_id : Option String
  pub is_active : Bool
  pub updated_at : ℕ

-- `allowed_attendee_types` is `none` where the JSON column is no array.
pub record Checkpoint : Type 0 where
  pub id : String
  pub event_id : String
  pub type : CheckpointType
  pub is_active : Bool
  pub allowed_attendee_types : Option (List String)

-- A registration, with the code of its attendee type.
pub record Registration : Type 0 where
  pub id : String
  pub event_id : String
  pub attendee_type_id : String
  pub attendee_type_code : String
  pub status : RegistrationStatus
  pub public_id : String
  pub external_id : Option String

pub record QrToken : Type 0 where
  pub id : String
  pub registration_id : String
  pub event_id : String
  pub token_id : String
  pub status : QrTokenStatus
  pub valid_from : ℕ
  pub valid_until : ℕ

pub record ScanEventRaw : Type 0 where
  pub id : ℕ
  pub operation_id : String
  pub event_id : String
  pub device_id : String
  pub staff_session_id : Option String
  pub checkpoint_id : Option String
  pub registration_id : Option String
  pub qr_token_id : Option String
  pub qr_payload : Option Fields
  pub qr_raw : Option String
  pub type : MovementType
  pub status : ScanEventStatus
  pub result : Option MovementResult
  pub reason : Option String
  pub scanned_at_device : ℕ
  pub processed_at : Option ℕ
  pub payload : Option Fields

pub record MovementLog : Type 0 where
  pub id : ℕ
  pub event_id : String
  pub registration_id : String
  pub qr_token_id : Option String
  pub scan_event_raw_id : ℕ
  pub device_id : String
  pub staff_session_id : Option String
  pub checkpoint_id : Option String
  pub type : MovementType
  pub result : MovementResult
  pub reason : Option String
  pub occurred_at : ℕ

pub record DeviceOfflineKey : Type 0 where
  pub device_id : String
  pub version : ℕ
  pub public_key : String
  pub status : OfflineKeyStatus
  pub valid_from : ℕ
  pub valid_until : Option ℕ
  pub revoked_at : Option ℕ

pub record OfflineRegistrationMapping : Type 0 where
  pub id : String
  pub event_id : String
  pub offline_registration_operation_id : String
  pub offline_qr_token : String
  pub registration_id : Option String
  pub canonical_qr_token_id : Option String
  pub status : MappingStatus
  pub issuer_device_id : String
  pub offline_registration_id : String
  pub payload_hash : String
  pub conflict_code : Option String
  pub conflict_message : Option String
  pub synced_at : Option ℕ

pub record OfflineScanOperation : Type 0 where
  pub id : ℕ
  pub operation_id : String
  pub event_id : String
  pub scanner_device_id : String
  pub checkpoint_id : String
  pub staff_session_id : Option String
  pub offline_qr_token : String
  pub offline_registration_operation_id : Option String
  pub scanned_at_device : ℕ
  pub movement_type : MovementType
  pub local_result : Option String
  pub qr_payload : Option Fields
  pub qr_payload_hash : Option String
  pub status : OfflineScanStatus
  pub registration_id : Option String
  pub movement_id : Option ℕ
  pub scan_event_raw_id : Option ℕ
  pub conflict_code : Option String
  pub conflict_message : Option String
  pub synced_at : Option ℕ

pub record Db : Type 0 where
  pub events : List Event
  pub users : List User
  pub staff_assignments : List StaffAssignment
  pub devices : List Device
  pub staff_sessions : List StaffSession
  pub checkpoints : List Checkpoint
  pub registrations : List Registration
  pub qr_tokens : List QrToken
  pub scans : List ScanEventRaw
  pub movements : List MovementLog
  pub offline_keys : List DeviceOfflineKey
  pub mappings : List OfflineRegistrationMapping
  pub offline_scans : List OfflineScanOperation
  pub next_id : ℕ

-- The exceptions that reach a caller: Nest's, with their messages, and Prisma's on a constraint.
pub data Exception : Type 0 where
  not_found bad_request conflict forbidden unauthorized : String → Exception
  unique_constraint : Exception
  failure : String → Exception

-- `error.message`
abbrev pub message : Exception → String
message (Exception.not_found text) = text
message (Exception.bad_request text) = text
message (Exception.conflict text) = text
message (Exception.forbidden text) = text
message (Exception.unauthorized text) = text
message (Exception.failure text) = text
message Exception.unique_constraint = "Unique constraint failed"
