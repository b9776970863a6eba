-- ===== src/Sync/Recover.antt =====
-- `recoverFailedOfflineRegistrations`: failed offline registrations are run once more.
pub mod Accounts
use creative_backend.Base.{
  ℕ, ◌-◌, String, Bool, true, false, ◌&&◌, Option, none, some, List, [], ◌∷◌, ◌==◌, eqb,
  if◌then◌else◌, find, select, count_where, length, min, max, map,
}
use creative_backend.Base.Exec.{Exec, pure, gets, check, modify, ◌>>=◌, ◌>>◌}
use creative_backend.Qr.{take}
use creative_backend.Scans.Checks.{given}
use creative_backend.Base.Json.{Fields}
use creative_backend.Store.{Exception}
use creative_backend.Sync.Rows.{
  SyncDb, Services, SyncBatch, SyncOperation, SyncOperationType, OperationResult,
  SubmitSyncOperationDto, SubmitSyncBatchDto,
}
use creative_backend.Sync.Payload.{is_registration, to_record, can_retry_failed_offline_operation}
use creative_backend.Sync.Operation.{process_operation}
use creative_backend.Sync.Batch.{is_processed, is_failed, claim}

pub record RecoverInput : Type 0 where
  pub event_id : Option String
  pub device_id : Option String
  pub limit : Option ℕ
  pub dry_run : Bool

pub data Attempt : Type 0 where
  already_claimed : (operation_id : String) → Attempt
  ran : OperationResult → Attempt

pub record Recovered : Type 0 where
  pub scanned : ℕ
  pub attempted : ℕ
  pub processed : ℕ
  pub failed : ℕ
  pub skipped_permanent : ℕ
  pub results : List Attempt

pub data RecoverAnswer : Type 0 where
  dry : (scanned recoverable skipped_permanent : ℕ) → (operation_ids : List String) → RecoverAnswer
  wet : Recovered → RecoverAnswer

abbrev or_default : Option ℕ → ℕ → ℕ
or_default none d = d
or_default (some n) d = n

unfoldable pub recover_limit : RecoverInput → ℕ
recover_limit input = min 1000 (max 1 (or_default input.limit 250))

-- `...(x ? { field: x } : {})`
abbrev pub matches : Option String → String → Bool
matches filter value = elim (given filter) [ none ↦ true | some wanted ↦ value == wanted ]

abbrev pub batch_of : SyncDb → SyncOperation → Option SyncBatch
batch_of s operation = find (λ b. eqb b.id operation.sync_batch_id) s.batches

abbrev pub is_wanted : RecoverInput → SyncDb → SyncOperation → Bool
is_wanted input s operation =
    is_registration operation.type && is_failed operation.status && (elim (batch_of s operation) [
      | none ↦ false
      | some batch ↦
          matches input.event_id batch.event_id && matches input.device_id batch.device_id
    ])

-- the rows are listed in the order of their creation
unfoldable pub failed_operations : RecoverInput → SyncDb → List SyncOperation
unfolding recover_limit
failed_operations input s = take (recover_limit input) (select (is_wanted input s) s.operations)

abbrev pub was_processed : Attempt → Bool
was_processed (already_claimed id) = false
was_processed (ran r) = is_processed r.status

abbrev pub has_failed : Attempt → Bool
has_failed (already_claimed id) = false
has_failed (ran r) = is_failed r.status

abbrev pub retry_dto : SyncOperation → Fields → SubmitSyncOperationDto
retry_dto operation payload = record {
  operation_id = operation.operation_id;
  type = operation.type;
  payload = payload;
}

abbrev pub single : SyncBatch → SubmitSyncOperationDto → SubmitSyncBatchDto
single batch dto = record {
  batch_id = batch.batch_id;
  event_id = batch.event_id;
  device_id = batch.device_id;
  staff_session_id = batch.staff_session_id;
  operations = dto ∷ [];
}

abbrev pub with_batch : SyncDb → List SyncOperation → List (SyncOperation × SyncBatch)
with_batch s [] = []
with_batch s (operation ∷ rest) =
    let others = with_batch s rest in
    elim (batch_of s operation) [ none ↦ others | some batch ↦ (operation, batch) ∷ others ]

module _ (services : Services) where
  unfoldable pub attempt : SyncOperation → SyncBatch → Exec SyncDb Exception Attempt
  unfolding claim
  attempt operation batch = do
    count ← claim operation.id
    if eqb count 1
        then (do
          payload ← check (λ s. to_record operation.input)
          modify (λ s. record s { work = record s.work { local_registrations = [] } })
          result ←
              process_operation services operation (retry_dto operation payload)
                (single batch (retry_dto operation payload))
          pure (ran result))
        else pure (already_claimed operation.operation_id)

  -- the loop; the batch of an operation is promised by its foreign key
  unfoldable pub attempt_all :
      List (SyncOperation × SyncBatch) → Exec SyncDb Exception (List Attempt)
  unfolding attempt
  attempt_all [] = pure []
  attempt_all ((operation, batch) ∷ rest) = do
    first ← attempt operation batch
    others ← attempt_all rest
    pure (first ∷ others)

  unfoldable pub recover_failed_offline_registrations :
      RecoverInput → Exec SyncDb Exception RecoverAnswer
  unfolding failed_operations can_retry_failed_offline_operation attempt_all
  recover_failed_offline_registrations input s =
      let operations = failed_operations input s in
      let recoverable =
        select (can_retry_failed_offline_operation services.to_upper_case) operations in
      if input.dry_run
      then pure
          (dry (length operations) (length recoverable) (length operations - length recoverable)
            (map (λ o. o.operation_id) recoverable))
          s
      else (do
        results ← attempt_all (with_batch s recoverable)
        pure (
            wet (record {
              scanned = length operations;
              attempted = length recoverable;
              processed = count_where was_processed results;
              failed = count_where has_failed results;
              skipped_permanent = length operations - length recoverable;
              results = results;
            })))
          s
