-- ===== src/Sync/Rows.antt =====
-- The tables of sync batches, what an operation answers, and the services that sync calls.
use creative_backend.Base.{ℕ, String, Bool, Option, List, ◌==◌, eqb, find, update}
use creative_backend.Base.Result.{ok}
use creative_backend.Base.Exec.{Exec}
use creative_backend.Base.Json.{Json, Fields}
use creative_backend.Scans.Context.{Env}
use creative_backend.Scans.Ingest.{Response}
use creative_backend.Scans.Offline.{Settlement}
use creative_backend.Scans.Records.{Action}
use creative_backend.Store.{Db, Registration, Exception}

pub data SyncOperationType : Type 0 where
  offline_registration offline_scan qr_generation scan_event : SyncOperationType

pub data SyncOperationStatus : Type 0 where
  pending processed failed duplicate skipped : SyncOperationStatus

pub data SyncBatchStatus : Type 0 where
  received processing completed partial_failed failed duplicate : SyncBatchStatus

-- what `QrService.generate` returns, as far as sync reads it
pub record GeneratedQr : Type 0 where
  pub qr_token : String
  pub compact_qr_token : Option String
  pub token_id : String

-- the answer to an offline registration; the fields of the registration that only display are left out
pub record Registered : Type 0 where
  pub status : String
  pub registration : Registration
  pub offline_registration_operation_id : String
  pub offline_registration_id : String
  pub offline_qr_token : String
  pub canonical_qr_token_id : Option String
  pub canonical_qr_token : String
  pub canonical_signed_qr_token : String

pub data Output : Type 0 where
  registered : Registered → Output
  scan_settled : Settlement → Output
  qr_generated : GeneratedQr → Output
  scanned : Response → Output

-- one element of `operationResults`; a property that is left out there is `none` here
pub record OperationResult : Type 0 where
  pub operation_id : String
  pub status : SyncOperationStatus
  pub output : Option Output
  pub error_code : Option String
  pub error_message : Option String
  pub retryable : Option Bool
  pub retried : Bool

pub record SyncOperation : Type 0 where
  pub id : ℕ
  pub sync_batch_id : ℕ
  pub operation_id : String
  pub type : SyncOperationType
  pub status : SyncOperationStatus
  pub input : Json
  pub output : Option Output
  pub error_code : Option String
  pub error_message : Option String
  pub processed_at : Option ℕ

pub record SyncBatch : Type 0 where
  pub id : ℕ
  pub batch_id : String
  pub event_id : String
  pub device_id : String
  pub staff_session_id : Option String
  pub status : SyncBatchStatus
  pub total_operations : ℕ
  pub processed_count : ℕ
  pub failed_count : ℕ
  pub duplicate_count : ℕ
  pub result : List OperationResult
  pub processed_at : Option ℕ

pub record SubmitSyncOperationDto : Type 0 where
  pub operation_id : String
  pub type : SyncOperationType
  pub payload : Fields

pub record SubmitSyncBatchDto : Type 0 where
  pub batch_id : String
  pub event_id : String
  pub device_id : String
  pub staff_session_id : Option String
  pub operations : List SubmitSyncOperationDto

-- the rows and the map `localRegistrations` that an operation works on
pub record Work : Type 0 where
  pub db : Db
  pub local_registrations : List (String × Registration)

pub record SyncDb : Type 0 where
  pub work : Work
  pub batches : List SyncBatch
  pub operations : List SyncOperation
  pub next_id : ℕ

pub record CreateRegistration : Type 0 where
  pub event_id : String
  pub attendee_type_id : String
  pub full_name : String
  pub phone : String
  pub email : Option String
  pub company_name : Option String
  pub job_title : Option String
  pub external_id : Option String
  pub custom_fields : Option Fields
  pub notes : Option String

-- What `getResponse` of a Nest exception gives.
pub data HttpResponse : Type 0 where
  text_response : String → HttpResponse
  object_response : Fields → HttpResponse
  other_response : HttpResponse

-- `RegistrationsService.create`, `QrService.generate`, the keys of new rows, the queue,
-- `toUpperCase`, and Nest's `getResponse`.
pub record Services : Type 0 where
  pub env : Env
  pub create_registration : CreateRegistration → Action Registration
  pub generate_qr : String → Action GeneratedQr
  pub cuid : ℕ → String
  pub queue_accepts : Bool
  pub to_upper_case : String → String
  pub get_response : Exception → HttpResponse

-- an action on the rows alone
abbrev pub on_db : {A : Type 0} → Action A → Exec Work Exception A
on_db m work = let (r, db) = m work.db in (r, record work { db = db })

-- an action that leaves the tables of sync alone
abbrev pub on_work : {A : Type 0} → Exec Work Exception A → Exec SyncDb Exception A
on_work m s = let (r, work) = m s.work in (r, record s { work = work })

abbrev pub find_batch : SyncDb → String → Option SyncBatch
find_batch s batch_id = find (λ b. b.batch_id == batch_id) s.batches

abbrev pub find_operation : SyncDb → String → Option SyncOperation
find_operation s operation_id = find (λ o. o.operation_id == operation_id) s.operations

-- `syncOperation.update` of the row with a key
unfoldable pub update_operation : ℕ → (SyncOperation → SyncOperation) → Exec SyncDb Exception Unit
update_operation id change s =
    (ok tt, record s { operations = update (λ o. eqb o.id id) change s.operations })

unfoldable pub update_batch : ℕ → (SyncBatch → SyncBatch) → Exec SyncDb Exception Unit
update_batch id change s =
    (ok tt, record s { batches = update (λ b. eqb b.id id) change s.batches })
