-- ===== src/Sync/Batch.antt =====
-- `submitBatch`, `processBatch` and `getBatchStatus`.
pub mod Answers
pub mod Submit
pub mod Again
pub mod Repeat
use creative_backend.Base.{
  ℕ, ◌+◌, String, Bool, true, false, not, ◌&&◌, Option, none, some, List, [], ◌∷◌, ◌++◌, ◌==◌, eqb,
  leb, ltb, if◌then◌else◌, find, select, update, count_where, length, map,
}
use creative_backend.Base.Result as Results
use creative_backend.Base.Result.{Result, ok, err}
use creative_backend.Base.Exec.{Exec, pure, throw, gets, check, ◌>>=◌, ◌>>◌}
use creative_backend.Base.Json.{obj}
use creative_backend.Scans.Checks.{
  includes, ensure_event_can_be_modified, ensure_active_device, ensure_active_staff_session,
}
use creative_backend.Store.{Db, Exception}
use creative_backend.Sync.Rows.{
  SyncDb, Work, Services, SyncBatch, SyncBatchStatus, SyncOperation, SyncOperationStatus,
  OperationResult, SubmitSyncOperationDto, SubmitSyncBatchDto, find_batch, update_operation,
  update_batch,
}
use creative_backend.Sync.Payload.{to_record, or_text, can_retry_failed_offline_operation}
use creative_backend.Sync.Sort.{sort_operations}
use creative_backend.Sync.Operation.{process_operation}

abbrev pub is_processed : SyncOperationStatus → Bool
is_processed SyncOperationStatus.processed = true
is_processed _ = false

abbrev pub is_failed : SyncOperationStatus → Bool
is_failed SyncOperationStatus.failed = true
is_failed _ = false

abbrev pub is_duplicate : SyncOperationStatus → Bool
is_duplicate SyncOperationStatus.duplicate = true
is_duplicate _ = false

-- `getBatchStatus`
unfoldable pub get_batch_status : (processed failed duplicates : ℕ) → SyncBatchStatus
get_batch_status processed failed duplicates =
    if ltb 0 failed
    then (if eqb processed 0 && eqb duplicates 0
        then SyncBatchStatus.failed
        else SyncBatchStatus.partial_failed)
    else if eqb processed 0 && ltb 0 duplicates
    then SyncBatchStatus.duplicate
    else SyncBatchStatus.completed

abbrev pub ids : List SubmitSyncOperationDto → List String
ids = map (λ o. o.operation_id)

-- the ids of stored operations that are among `names`
unfoldable pub find_duplicate_operation_ids : SyncDb → List String → List String
find_duplicate_operation_ids s names =
    map (λ o. o.operation_id) (select (λ o. includes names o.operation_id) s.operations)

abbrev pub pick : List SyncOperation → String → Option SyncOperation
pick operations operation_id = find (λ o. o.operation_id == operation_id) operations

-- a result of an operation that is not run
abbrev pub refused : String → (code message : String) → Option Bool → OperationResult
refused operation_id code message retryable = record {
  operation_id = operation_id;
  status = SyncOperationStatus.failed;
  output = none;
  error_code = some code;
  error_message = some message;
  retryable = retryable;
  retried = false;
}

abbrev pub repeated : SyncOperation → OperationResult
repeated stored = record {
  operation_id = stored.operation_id;
  status = SyncOperationStatus.duplicate;
  output = stored.output;
  error_code = none;
  error_message = none;
  retryable = none;
  retried = false;
}

-- `updateMany` of the failed row with a key, and how many rows it has changed
unfoldable pub claim : ℕ → Exec SyncDb Exception ℕ
claim id s = (
  ok (count_where (λ o. eqb o.id id && is_failed o.status) s.operations),
  record s {
    operations =
        update (λ o. eqb o.id id && is_failed o.status)
          (λ o. record o {
            status = SyncOperationStatus.pending;
            error_code = none;
            error_message = none;
            processed_at = none;
          })
          s.operations;
  },
)

module _ (services : Services) (batch : SubmitSyncBatchDto) where
  -- an operation that is stored as failed
  unfoldable pub process_failed_before : SyncOperation → Exec SyncDb Exception OperationResult
  unfolding claim can_retry_failed_offline_operation
  process_failed_before stored =
      let retryable = can_retry_failed_offline_operation services.to_upper_case stored in
      let refusal =
        refused stored.operation_id (or_text stored.error_code "PREVIOUS_OPERATION_FAILED")
          (or_text stored.error_message "The previous operation attempt failed") (some retryable) in
      if retryable
      then (do
        count ← claim stored.id
        if eqb count 1
            then (do
              payload ← check (λ s. to_record stored.input)
              result ←
                  process_operation services stored
                    (record {
                      operation_id = stored.operation_id;
                      type = stored.type;
                      payload = payload;
                    })
                    batch
              pure (record result { retried = true }))
            else pure refusal)
      else pure refusal

  abbrev pub process_by_status :
      SyncOperationStatus → SyncOperation → Exec SyncDb Exception OperationResult
  process_by_status SyncOperationStatus.processed stored = pure (repeated stored)
  process_by_status SyncOperationStatus.duplicate stored = pure (repeated stored)
  process_by_status SyncOperationStatus.failed stored = process_failed_before stored
  process_by_status _ stored = pure (
      refused stored.operation_id "PREVIOUS_OPERATION_NOT_COMPLETED"
        "The previous operation has not completed processing yet" none)

  -- an operation whose id was stored before this batch
  unfoldable pub process_duplicate :
      List SyncOperation → SubmitSyncOperationDto → Exec SyncDb Exception OperationResult
  unfolding process_failed_before
  process_duplicate stored_before dto = elim (pick stored_before dto.operation_id) [
    | none ↦ pure (
        refused dto.operation_id "DUPLICATE_OPERATION_RESULT_NOT_FOUND"
          "The operation was previously received but its result could not be found" none)
    | some stored ↦ process_by_status stored.status stored
  ]

  -- the loop over the sorted operations
  unfoldable pub process_all :
      (duplicates : List String) (created stored_before : List SyncOperation)
      → List SubmitSyncOperationDto
      → Exec SyncDb Exception (List OperationResult)
  unfolding process_duplicate
  process_all duplicates created stored_before [] = pure []
  process_all duplicates created stored_before (dto ∷ rest) =
      let remaining = process_all duplicates created stored_before rest in
      if includes duplicates dto.operation_id
      then (do
        result ← process_duplicate stored_before dto
        results ← remaining
        pure (result ∷ results))
      else elim (pick created dto.operation_id) [
        | none ↦ remaining
        | some operation ↦ do
          result ← process_operation services operation dto batch
          results ← remaining
          pure (result ∷ results)
      ]

  abbrev count_status : (SyncOperationStatus → Bool) → List OperationResult → ℕ
  count_status test results = count_where (λ r. test r.status) results

  unfoldable pub conclude : List OperationResult → SyncBatch → SyncBatch
  unfolding get_batch_status
  conclude results row =
      let processed = count_status is_processed results in
      let failed = count_status is_failed results in
      let duplicates = count_status is_duplicate results in
      record row {
        status = get_batch_status processed failed duplicates;
        processed_count = processed;
        failed_count = failed;
        duplicate_count = duplicates;
        processed_at = some services.env.now;
        result = results;
      }

  unfoldable pub process_batch :
      SyncBatch → (duplicates : List String) → Exec SyncDb Exception SyncBatch
  unfolding update_batch process_all conclude
  process_batch row duplicates = do
    update_batch row.id (λ b. record b { status = SyncBatchStatus.processing })
    created ← gets (λ s. select (λ o. eqb o.sync_batch_id row.id) s.operations)
    stored_before ← gets (λ s. select (λ o. includes duplicates o.operation_id) s.operations)
    results ← process_all duplicates created stored_before (sort_operations batch.operations)
    update_batch row.id (conclude results)
    pure (conclude results row)

abbrev pub new_batch : ℕ → SubmitSyncBatchDto → (duplicate_count : ℕ) → SyncBatch
new_batch id batch duplicate_count = record {
  id = id;
  batch_id = batch.batch_id;
  event_id = batch.event_id;
  device_id = batch.device_id;
  staff_session_id = batch.staff_session_id;
  status = SyncBatchStatus.received;
  total_operations = length batch.operations;
  processed_count = 0;
  failed_count = 0;
  duplicate_count = duplicate_count;
  result = [];
  processed_at = none;
}

abbrev pub new_operation : (id batch_id : ℕ) → SubmitSyncOperationDto → SyncOperation
new_operation id batch_id dto = record {
  id = id;
  sync_batch_id = batch_id;
  operation_id = dto.operation_id;
  type = dto.type;
  status = SyncOperationStatus.pending;
  input = obj dto.payload;
  output = none;
  error_code = none;
  error_message = none;
  processed_at = none;
}

-- the rows of new operations, `none` where two of them have one id, which is unique
unfoldable pub new_operations :
    (id batch_id : ℕ) → List SubmitSyncOperationDto → Option (List SyncOperation)
new_operations id batch_id [] = some []
new_operations id batch_id (dto ∷ rest) = elim (new_operations (id + 1) batch_id rest) [
  | none ↦ none
  | some rows ↦
      if includes (ids rest) dto.operation_id
      then none
      else some (new_operation id batch_id dto ∷ rows)
]

-- `syncBatch.create` with its operations; the ids of `fresh` are not stored
unfoldable pub create_batch :
    SubmitSyncBatchDto
    → (duplicate_count : ℕ) → List SubmitSyncOperationDto
    → Exec SyncDb Exception SyncBatch
unfolding new_operations
create_batch batch duplicate_count fresh s = elim (new_operations (s.next_id + 1) s.next_id fresh) [
  | none ↦ (err Exception.unique_constraint, s)
  | some rows ↦ (
    ok (new_batch s.next_id batch duplicate_count),
    record s {
      batches = s.batches ++ new_batch s.next_id batch duplicate_count ∷ [];
      operations = s.operations ++ rows;
      next_id = s.next_id + 1 + length fresh;
    },
  )
]

unfoldable pub check_submitter : SubmitSyncBatchDto → SyncDb → Result Exception Unit
check_submitter batch s =
    Results.◌>>=◌ (ensure_event_can_be_modified s.work.db batch.event_id) (λ event.
      Results.◌>>=◌ (ensure_active_device s.work.db batch.device_id batch.event_id) (λ device.
        Results.◌>>=◌ (ensure_active_staff_session s.work.db batch.staff_session_id batch.event_id)
          (λ session. ok tt)))

-- what `submitBatch` answers
pub record Submitted : Type 0 where
  pub duplicate : Bool
  pub batch : SyncBatch

unfoldable pub submit_batch : Services → SubmitSyncBatchDto → Exec SyncDb Exception Submitted
unfolding check_submitter find_duplicate_operation_ids create_batch process_batch
submit_batch services batch s = elim (find_batch s batch.batch_id) [
  | some row ↦ (ok (record { duplicate = true; batch = row }), s)
  | none ↦
      (do
        check (check_submitter batch)
        duplicates ← gets (λ s. find_duplicate_operation_ids s (ids batch.operations))
        row ←
            create_batch batch (length duplicates)
              (select (λ o. not (includes duplicates o.operation_id)) batch.operations)
        done ← process_batch services batch row duplicates
        pure (record { duplicate = false; batch = done }))
        (record s { work = record s.work { local_registrations = [] } })
]
