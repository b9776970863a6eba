-- ===== src/Sync/Batch/Repeat.antt =====
-- Operations that were processed before are not run again.
use creative_backend.Base.{String, Bool, false, not, ◌&&◌, none, some, List, eqb, ℕ, select}
use creative_backend.Scans.Checks.{includes}
use creative_backend.Sync.Rows.{
  SyncBatch, SyncOperation, SyncOperationStatus, OperationResult, SubmitSyncOperationDto,
}
use creative_backend.Sync.Batch.{is_processed, pick, refused}

-- The operation is stored, and was processed.
abbrev pub was_processed : List SyncOperation → SubmitSyncOperationDto → Bool
was_processed rows o = elim (pick rows o.operation_id) [
  | none ↦ false
  | some row ↦ is_processed row.status
]

-- The answer for a stored operation: a duplicate, with the output that is stored and no error. The
-- result of an operation that is not stored is never asked for where all were processed.
abbrev pub stored_answer : List SyncOperation → SubmitSyncOperationDto → OperationResult
stored_answer rows o = elim (pick rows o.operation_id) [
  | none ↦ refused o.operation_id "DUPLICATE_OPERATION_RESULT_NOT_FOUND" "" none
  | some row ↦ record {
    operation_id = row.operation_id;
    status = SyncOperationStatus.duplicate;
    output = row.output;
    error_code = none;
    error_message = none;
    retryable = none;
    retried = false;
  }
]

-- the facts about one operation that the loop needs
abbrev is_repeat : List String → List SyncOperation → SubmitSyncOperationDto → Bool
is_repeat duplicates rows o = includes duplicates o.operation_id && was_processed rows o

-- the batches with another id than `id`
abbrev pub other_batches : ℕ → List SyncBatch → List SyncBatch
other_batches id batches = select (λ b. not (eqb b.id id)) batches
